-- ===== src/Nexus/Loop/Phases.antt =====
-- The history of a run of nexus/loop/controller.py: the order of its rounds, and its exit sweeps.
use cognitive_evolve.Prelude.{
  ℕ, zero, suc, ◌+◌, ◌≡◌, refl, sym, ap, ◌∙◌, subst, String, true, false, Option, none, some, [],
  leb, eqb, ◌==◌, arith, Bool-cases, inl, inr,
}
use cognitive_evolve.Nexus.Loop.{
  Phase, explore, EvolutionBudget, Evaluation, Stages, StageOutcome, done, cancelled, model_error,
  RunEnd, finalized, raised, Epoch, next, last, round_limit, remaining, goes_on, interrupt,
  after_model_error, record_evaluation, record_terminal_stop_reason, checkpoint_interruption,
  limit_reason, after_reproduction, after_evaluation, epoch, go_on, loop, closed, finalize,
  option_finalize, run,
}
use cognitive_evolve.Nexus.Loop.Rounds.{budget_of}
use cognitive_evolve.Nexus.Loop.Order.{
  is_ordered, is_current, and_true, entry_lem, interruption_lem, later_lem, set_last-is_ordered,
  boundary_lem, below,
}

IsSound : Epoch → Type 0
unfolding budget_of
IsSound (next c) =
    (is_ordered c.history ≡ true) × (is_current c.current_round c.search_phase c.history ≡ true)
IsSound (last e) = is_ordered (budget_of e).history ≡ true

checkpoint_lem :
    (round : ℕ) (p : Phase) (reason : String) (b : EvolutionBudget)
    → is_ordered b.history ≡ true
    → is_current round p b.history ≡ true
    → is_ordered (checkpoint_interruption round reason b).history ≡ true
unfolding checkpoint_interruption is_ordered
checkpoint_lem round p reason b h k = and_true (interruption_lem round p _ b.history k refl refl) h

after_model_error_lem :
    (round : ℕ) (p : Phase) (reason : String) (b : EvolutionBudget)
    → is_ordered b.history ≡ true
    → is_current round p b.history ≡ true
    → IsSound (after_model_error round reason b)
unfolding after_model_error IsSound checkpoint_interruption budget_of is_ordered
after_model_error_lem round p reason b h k = elim (Bool-cases b.recover_model_errors) [
  | inl e ↦ rw e (checkpoint_lem round p reason b h k)
  | inr e ↦ rw e (checkpoint_lem round p reason b h k)
]

after_reproduction_lem :
    (round : ℕ) (o : StageOutcome String) (b : EvolutionBudget)
    → b.current_round ≡ round
    → is_ordered b.history ≡ true
    → is_current round b.search_phase b.history ≡ true
    → IsSound (after_reproduction round o b)
unfolding after_reproduction IsSound interrupt checkpoint_interruption budget_of
    record_terminal_stop_reason is_ordered
after_reproduction_lem round cancelled b r h k =
    checkpoint_lem round b.search_phase "cancelled" b h k
after_reproduction_lem round (model_error reason) b r h k =
    after_model_error_lem round b.search_phase reason b h k
after_reproduction_lem round (done reason) b r h k = elim (Bool-cases (reason == "")) [
  | inl e ↦ elim (Bool-cases (b.stop_reason == "")) [
    | inl f ↦ rw (e, f) (h, subst (λ n. is_current n b.search_phase b.history ≡ true) (sym r) k)
    | inr f ↦ rw (e, f) h
  ]
  | inr e ↦ rw e (set_last-is_ordered reason b.history ∙ h)
]

recorded_lem :
    (st : Stages) (n : ℕ) (v : Evaluation) (b : EvolutionBudget)
    → is_ordered b.history ≡ true
    → is_current n b.search_phase b.history ≡ true
    → is_ordered (record_evaluation st (n + 1) v b).history ≡ true
unfolding record_evaluation is_ordered
recorded_lem st n v b h k = and_true (entry_lem n b.search_phase _ b.history k refl refl) h

recorded_current :
    (st : Stages) (round : ℕ) (v : Evaluation) (b : EvolutionBudget)
    → goes_on round v b ≡ true
    → is_current round
        (record_evaluation st round v b).search_phase
        (record_evaluation st round v b).history
      ≡ true
unfolding record_evaluation is_current
recorded_current st round v b g = rw (boundary_lem st round v b g) (ground arith)

same_round :
    (st : Stages) (round : ℕ) (v : Evaluation) (b : EvolutionBudget)
    → (record_evaluation st round v b).current_round ≡ b.current_round
unfolding record_evaluation
same_round st round v b = refl

going_on :
    (st : Stages) (round : ℕ) (v : Evaluation) (b : EvolutionBudget)
    → (v.stop_reason == "") ≡ true
    → leb (round_limit (record_evaluation st round v b)) round ≡ false
    → goes_on round v b ≡ true
unfolding goes_on record_evaluation round_limit
going_on st round v b e f = and_true e (below _ _ f)

after_evaluation_lem :
    (st : Stages) (n : ℕ) (o : StageOutcome Evaluation) (b : EvolutionBudget)
    → b.current_round ≡ n + 1
    → is_ordered b.history ≡ true
    → is_current n b.search_phase b.history ≡ true
    → IsSound (after_evaluation st (n + 1) o b)
unfolding after_evaluation IsSound interrupt budget_of record_terminal_stop_reason
after_evaluation_lem st n cancelled b r h k =
    checkpoint_lem (n + 1) b.search_phase "cancelled" b h (later_lem b.search_phase n b.history k)
after_evaluation_lem st n (model_error reason) b r h k =
    after_model_error_lem (n + 1) b.search_phase reason b h (later_lem b.search_phase n b.history k)
after_evaluation_lem st n (done v) b r h k =
    let c = record_evaluation st (n + 1) v b in
    let ordered = recorded_lem st n v b h k in
    elim (Bool-cases (v.stop_reason == "")) [
      | inl e ↦ elim (Bool-cases (leb (round_limit c) (n + 1))) [
        | inl f ↦ rw (e, f) (set_last-is_ordered (limit_reason c) c.history ∙ ordered)
        | inr f ↦
            rw (e, f)
              (after_reproduction_lem (n + 1) (st.reproduce (n + 1)) c
                (same_round st (n + 1) v b ∙ r) ordered
                (recorded_current st (n + 1) v b (going_on st (n + 1) v b e f)))
      ]
      | inr e ↦ rw e ordered
    ]

epoch_lem :
    (st : Stages) (b : EvolutionBudget)
    → is_ordered b.history ≡ true
    → is_current b.current_round b.search_phase b.history ≡ true
    → IsSound (epoch st b)
unfolding epoch IsSound interrupt budget_of
epoch_lem st b h k = elim (Bool-cases (st.is_cancelled (b.current_round + 1))) [
  | inl e ↦ rw e (
      checkpoint_lem (b.current_round + 1) b.search_phase "cancelled" b h
        (later_lem b.search_phase b.current_round b.history k))
  | inr e ↦ rw e (
      after_evaluation_lem st b.current_round (st.evaluate (b.current_round + 1))
        (record b { current_round = b.current_round + 1 }) refl h k)
]

-- If the run ends, its history is in order.
IsOrdered : Option RunEnd → Type 0
IsOrdered none = Unit
IsOrdered (some e) = is_ordered (budget_of e).history ≡ true

go_on_lem :
    (p : Epoch) (f : EvolutionBudget → Option RunEnd)
    → IsSound p
    → ((c : EvolutionBudget)
        → is_ordered c.history ≡ true
        → is_current c.current_round c.search_phase c.history ≡ true
        → IsOrdered (f c))
    → IsOrdered (go_on p f)
unfolding go_on IsSound IsOrdered
go_on_lem (next c) f h g = g c h.0 h.1
go_on_lem (last e) f h g = h

loop_lem :
    (fuel : ℕ) (st : Stages) (b : EvolutionBudget)
    → is_ordered b.history ≡ true
    → is_current b.current_round b.search_phase b.history ≡ true
    → IsOrdered (loop fuel st b)
unfolding loop IsOrdered budget_of
loop_lem zero st b h k = tt
loop_lem (suc fuel) st b h k = elim (Bool-cases (remaining b)) [
  | inl e ↦ rw e (go_on_lem (epoch st b) (loop fuel st) (epoch_lem st b h k) (loop_lem fuel st))
  | inr e ↦ rw e h
]

closed_history : (b : EvolutionBudget) → (closed b).history ≡ b.history
unfolding closed
closed_history b = elim (Bool-cases (b.stop_reason == "")) [ inl e ↦ rw e refl | inr e ↦ rw e refl ]

finalize_lem : (e : RunEnd) → (budget_of (finalize e)).history ≡ (budget_of e).history
unfolding finalize budget_of
finalize_lem (finalized i b) = closed_history b
finalize_lem (raised b) = refl

option_finalize_lem : (o : Option RunEnd) → IsOrdered o → IsOrdered (option_finalize o)
unfolding option_finalize IsOrdered
option_finalize_lem none h = tt
option_finalize_lem (some e) h = ap is_ordered (finalize_lem e) ∙ h

fresh_loop :
    (fuel : ℕ) (st : Stages) (b : EvolutionBudget) → b.history ≡ [] → IsOrdered (loop fuel st b)
unfolding is_ordered is_current
fresh_loop fuel st b h = loop_lem fuel st b (rw h refl) (rw h refl)

fresh_interruption :
    (b : EvolutionBudget) (reason : String)
    → b.history ≡ []
    → IsOrdered (some (finalized true (checkpoint_interruption b.current_round reason b)))
unfolding IsOrdered is_ordered is_current budget_of
fresh_interruption b reason h =
    checkpoint_lem b.current_round explore reason b (rw h refl) (rw h refl)

run-IsOrdered :
    (fuel : ℕ) (seed_error : Option String) (st : Stages) (b : EvolutionBudget)
    → b.history ≡ []
    → IsOrdered (run fuel seed_error st b)
unfolding run
run-IsOrdered fuel none st b h = option_finalize_lem (loop fuel st b) (fresh_loop fuel st b h)
run-IsOrdered fuel (some reason) st b h = elim (Bool-cases (eqb b.current_round 0)) [
  | inl e ↦ rw e (option_finalize_lem _ (fresh_interruption b reason h))
  | inr e ↦ rw e (option_finalize_lem (loop fuel st b) (fresh_loop fuel st b h))
]

-- The history of a run that starts with none, as a new or resumed budget does: the rounds go up,
-- strictly at an evaluated one, and an exit sweep is never evaluated right after an exit sweep.
pub run-is_ordered :
    (fuel : ℕ) (seed_error : Option String) (st : Stages) (b : EvolutionBudget) (e : RunEnd)
    → b.history ≡ []
    → run fuel seed_error st b ≡ some e
    → is_ordered (budget_of e).history ≡ true
unfolding IsOrdered
run-is_ordered fuel seed_error st b e h r = subst IsOrdered r (run-IsOrdered fuel seed_error st b h)
