-- ===== src/Nexus/Loop/Rounds.antt =====
-- A run of nexus/loop/controller.py ends, within its limit of rounds, with a stop reason.
use cognitive_evolve.Prelude.{
  ℕ, zero, suc, ◌+◌, ◌-◌, ◌≤◌, ◌<◌, ◌≡◌, refl, ap, String, Bool, true, false, not, Option, none,
  some, leb, eqb, max, ◌==◌, leb→lt, arith, Bool-cases, inl, inr,
}
use cognitive_evolve.Nexus.Loop.{
  EvolutionBudget, Evaluation, Stages, StageOutcome, done, cancelled, model_error, RunEnd,
  finalized, raised, Epoch, next, last, round_limit, remaining, interrupt, after_model_error,
  record_evaluation, record_terminal_stop_reason, checkpoint_interruption, limit_reason,
  after_reproduction, after_evaluation, epoch, go_on, loop, closed, finalize, option_finalize, run,
}

-- The budget at the end.
unfoldable pub budget_of : RunEnd → EvolutionBudget
budget_of (finalized i b) = b
budget_of (raised b) = b

-- The run goes on with the same limit in the round given, or it ends in it or before it.
IsProgress : (round limit : ℕ) → Epoch → Type 0
unfolding budget_of
IsProgress round limit (next c) =
    (c.current_round ≡ round) × (round_limit c ≡ limit) × (round < limit)
IsProgress round limit (last e) = (budget_of e).current_round ≤ round

after_model_error_lem :
    (round : ℕ) (reason : String) (b : EvolutionBudget)
    → b.current_round ≡ round
    → IsProgress round (round_limit b) (after_model_error round reason b)
unfolding after_model_error IsProgress checkpoint_interruption budget_of
after_model_error_lem round reason b h = elim (Bool-cases b.recover_model_errors) [
  | inl e ↦ rw e (omega arith)
  | inr e ↦ rw e (omega arith)
]

after_reproduction_lem :
    (round : ℕ) (o : StageOutcome String) (b : EvolutionBudget)
    → b.current_round ≡ round
    → round < round_limit b
    → IsProgress round (round_limit b) (after_reproduction round o b)
unfolding after_reproduction IsProgress interrupt checkpoint_interruption budget_of
    record_terminal_stop_reason
after_reproduction_lem round cancelled b h l = omega arith
after_reproduction_lem round (model_error reason) b h l = after_model_error_lem round reason b h
after_reproduction_lem round (done reason) b h l = elim (Bool-cases (reason == "")) [
  | inl e ↦ elim (Bool-cases (b.stop_reason == "")) [
    | inl f ↦ rw (e, f) (h, refl, l)
    | inr f ↦ rw (e, f) (omega arith)
  ]
  | inr e ↦ rw e (omega arith)
]

after_evaluation_lem :
    (st : Stages) (round : ℕ) (o : StageOutcome Evaluation) (b : EvolutionBudget)
    → b.current_round ≡ round
    → IsProgress round (round_limit b) (after_evaluation st round o b)
unfolding after_evaluation IsProgress interrupt checkpoint_interruption budget_of
    record_terminal_stop_reason record_evaluation round_limit
after_evaluation_lem st round cancelled b h = omega arith
after_evaluation_lem st round (model_error reason) b h = after_model_error_lem round reason b h
after_evaluation_lem st round (done v) b h =
    let c = record_evaluation st round v b in
    elim (Bool-cases (v.stop_reason == "")) [
      | inl e ↦ elim (Bool-cases (leb (round_limit b) round)) [
        | inl f ↦ rw (e, f) (omega arith)
        | inr f ↦ rw (e, f) (after_reproduction_lem round (st.reproduce round) c h (leb→lt _ _ f))
      ]
      | inr e ↦ rw e (omega arith)
    ]

epoch_lem :
    (st : Stages) (b : EvolutionBudget)
    → IsProgress (b.current_round + 1) (round_limit b) (epoch st b)
unfolding epoch IsProgress interrupt checkpoint_interruption budget_of round_limit
epoch_lem st b = elim (Bool-cases (st.is_cancelled (b.current_round + 1))) [
  | inl e ↦ rw e (omega arith)
  | inr e ↦ rw e (
      after_evaluation_lem st (b.current_round + 1) (st.evaluate (b.current_round + 1))
        (record b { current_round = b.current_round + 1 }) refl)
]

-- The loop ends, not after the limit.
IsEnded : EvolutionBudget → Option RunEnd → Type 0
IsEnded b o =
    (e : RunEnd) × (o ≡ some e)
    × ((budget_of e).current_round ≤ max b.current_round (round_limit b))

go_on_lem :
    (b : EvolutionBudget) (p : Epoch) (f : EvolutionBudget → Option RunEnd)
    → b.current_round < round_limit b
    → IsProgress (b.current_round + 1) (round_limit b) p
    → ((c : EvolutionBudget)
        → c.current_round ≡ b.current_round + 1
        → round_limit c ≡ round_limit b
        → IsEnded c (f c))
    → IsEnded b (go_on p f)
unfolding go_on IsProgress IsEnded
go_on_lem b (next c) f l h g = let k = g c h.0 h.1 in (k.0, k.1, omega (arith, k.2, h.0, h.1))
go_on_lem b (last e) f l h g = (e, refl, omega arith)

is_remaining : (b : EvolutionBudget) → remaining b ≡ true → b.current_round < round_limit b
unfolding remaining
is_remaining b h = ground arith

stays_within : (b : EvolutionBudget) → IsEnded b (some (finalized false b))
unfolding IsEnded budget_of
stays_within b = (finalized false b, refl, omega arith)

interrupted_within :
    (b : EvolutionBudget) (reason : String)
    → IsEnded b (some (finalized true (checkpoint_interruption b.current_round reason b)))
unfolding IsEnded budget_of checkpoint_interruption
interrupted_within b reason =
    (finalized true (checkpoint_interruption b.current_round reason b), refl, omega arith)

loop_lem :
    (fuel : ℕ) (st : Stages) (b : EvolutionBudget)
    → round_limit b - b.current_round < fuel
    → IsEnded b (loop fuel st b)
unfolding loop
loop_lem zero st b h = absurd (omega arith)
loop_lem (suc fuel) st b h = elim (Bool-cases (remaining b)) [
  | inl e ↦
      let l = is_remaining b e in
      rw e (
        go_on_lem b (epoch st b) (loop fuel st) l (epoch_lem st b)
          (λ c r k. loop_lem fuel st c (omega (arith, r, k, l, h))))
  | inr e ↦ rw e (stays_within b)
]

-- A finalized run has a stop reason.
unfoldable pub has_reason : RunEnd → Bool
has_reason (finalized i b) = not (b.stop_reason == "")
has_reason (raised b) = true

limit_reason_lem : (b : EvolutionBudget) → (limit_reason b == "") ≡ false
unfolding limit_reason
limit_reason_lem b = elim (Bool-cases b.adaptive) [ inl e ↦ rw e refl | inr e ↦ rw e refl ]

closed_lem : (b : EvolutionBudget) → ((closed b).stop_reason == "") ≡ false
unfolding closed
closed_lem b = elim (Bool-cases (b.stop_reason == "")) [
  | inl e ↦ elim (Bool-cases (leb (round_limit b) b.current_round)) [
    | inl f ↦ rw (e, f) (limit_reason_lem b)
    | inr f ↦ rw (e, f) refl
  ]
  | inr e ↦ rw (e, e) refl
]

closed_round : (b : EvolutionBudget) → (closed b).current_round ≡ b.current_round
unfolding closed
closed_round b = ground arith

finalize_lem :
    (e : RunEnd)
    → ((budget_of (finalize e)).current_round ≡ (budget_of e).current_round)
      × (has_reason (finalize e) ≡ true)
unfolding finalize budget_of has_reason
finalize_lem (finalized i b) = (closed_round b, rw (closed_lem b) refl)
finalize_lem (raised b) = (refl, refl)

IsFinished : EvolutionBudget → Option RunEnd → Type 0
IsFinished b o =
    (e : RunEnd) × (o ≡ some e)
    × ((budget_of e).current_round ≤ max b.current_round (round_limit b))
    × (has_reason e ≡ true)

option_finalize_lem :
    (b : EvolutionBudget) (o : Option RunEnd) → IsEnded b o → IsFinished b (option_finalize o)
unfolding IsEnded IsFinished option_finalize
option_finalize_lem b o h =
    let f = finalize_lem h.0 in (finalize h.0, ap option_finalize h.1, omega (arith, f.0, h.2), f.1)

-- A run ends, if it has fuel for the rounds that are left and one more step: its last round is at
-- most its limit, or the round that it started after, and unless a model error is raised again
-- there is a stop reason at the end.
pub run_lem :
    (fuel : ℕ) (seed_error : Option String) (st : Stages) (b : EvolutionBudget)
    → round_limit b - b.current_round < fuel
    → (e : RunEnd) × (run fuel seed_error st b ≡ some e)
      × ((budget_of e).current_round ≤ max b.current_round (round_limit b))
      × (has_reason e ≡ true)
unfolding run IsFinished
run_lem fuel none st b h = option_finalize_lem b (loop fuel st b) (loop_lem fuel st b h)
run_lem fuel (some reason) st b h = elim (Bool-cases (eqb b.current_round 0)) [
  | inl e ↦ rw e (option_finalize_lem b _ (interrupted_within b reason))
  | inr e ↦ rw e (option_finalize_lem b (loop fuel st b) (loop_lem fuel st b h))
]
