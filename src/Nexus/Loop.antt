-- ===== src/Nexus/Loop.antt =====
-- nexus/loop/controller.py and nexus/loop/budget.py: the rounds of a run. What the stages of a
-- round answer is a parameter, by round; of the budget's history, the latest entry is first.
pub mod Rounds
pub mod Order
pub mod Phases
mod Tests
use cognitive_evolve.Prelude.{
  ℕ, zero, suc, ◌+◌, ◌-◌, String, Bool, true, false, not, ◌&&◌, ◌||◌, Option, none, some, List, [],
  ◌∷◌, ◌++◌, contains, ltb, leb, eqb, max, ◌==◌, if◌then◌else◌,
}

pub data Phase : Type 0 where
  explore : Phase
  exit_sweep : Phase

-- An intervention receipt, with its `stagnation_type` in lower case and stripped.
pub record Receipt : Type 0 where
  pub receipt_id : String
  pub stagnation_type : String

-- An entry of the history. An interruption has no phase; `transition` has the receipts of the
-- search phase's transition, if there was one.
pub record Entry : Type 0 where
  pub round : ℕ
  pub phase_evaluated : Option Phase
  pub transition : Option (List String)
  pub receipts : List Receipt
  pub stop_reason : String

pub record EvolutionBudget : Type 0 where
  pub max_rounds : ℕ
  pub history : List Entry
  pub current_round : ℕ
  pub branch_factor : ℕ
  pub initial_candidate_count : ℕ
  pub recover_model_errors : Bool
  pub stop_policy : String
  pub min_rounds_before_stop : ℕ
  pub stop_reason : String
  pub adaptive : Bool
  pub round_safety_limit : ℕ
  pub completion_requires_stop_signal : Bool
  pub completion_status : String
  pub search_phase : Phase

-- a or b
abbrev pub or_int : ℕ → ℕ → ℕ
or_int a b = if eqb a 0 then b else a

unfoldable pub round_limit : EvolutionBudget → ℕ
round_limit b =
    if b.adaptive
    then max 1 (or_int b.round_safety_limit (or_int b.max_rounds 1))
    else max 1 (or_int b.max_rounds 1)

unfoldable pub remaining : EvolutionBudget → Bool
remaining b = ltb b.current_round (round_limit b)

-- What a stage does: it returns, or it is cancelled, or a model error ends it with the stop reason
-- that `_model_boundary_interruption_policy` gives.
pub data StageOutcome {ℓ} (A : Type ℓ) : Type ℓ where
  done : A → StageOutcome A
  cancelled : StageOutcome A
  model_error : (stop_reason : String) → StageOutcome A

pub record Evaluation : Type 0 where
  pub stop_reason : String
  pub receipts : List Receipt

-- The other components, as a run sees them in a round: the caller's request to cancel, the
-- evaluation, whether the cost budget is at its tail, and the reproduction with its stop reason. A
-- run asks each of them at most once in a round, so an answer may depend on all that went before.
pub record Stages : Type 0 where
  pub is_cancelled : ℕ → Bool
  pub evaluate : ℕ → StageOutcome Evaluation
  pub cost_budget_tail : ℕ → Bool
  pub reproduce : ℕ → StageOutcome String

consumed_by : Option (List String) → List String → List String
consumed_by none rest = rest
consumed_by (some refs) rest = refs ++ rest

unfoldable pub consumed : List Entry → List String
unfolding consumed_by
consumed [] = []
consumed (e ∷ es) = consumed_by e.transition (consumed es)

unconsumed : List String → List Receipt → List String
unconsumed used [] = []
unconsumed used (r ∷ rs) =
    let rest = unconsumed used rs in
    if (r.stagnation_type == "")
      || ((r.stagnation_type == "none") || ((r.receipt_id == "") || contains used r.receipt_id))
    then rest
    else r.receipt_id ∷ rest

unfoldable pub unconsumed_stagnation_receipt_refs : List Entry → List String
unfolding unconsumed
unconsumed_stagnation_receipt_refs [] = []
unconsumed_stagnation_receipt_refs (e ∷ es) = unconsumed (consumed (e ∷ es)) e.receipts

-- The phase after a round that goes on, from the evaluated phase.
unfoldable pub next_phase : Phase → (receipt_refs : List String) → (tail : Bool) → Phase
next_phase exit_sweep refs tail = explore
next_phase explore [] tail = if tail then exit_sweep else explore
next_phase explore (r ∷ refs) tail = exit_sweep

unfoldable pub same_phase : Phase → Phase → Bool
same_phase explore explore = true
same_phase exit_sweep exit_sweep = true
same_phase _ _ = false

-- Does the round's evaluation leave the run going on?
unfoldable pub goes_on : ℕ → Evaluation → EvolutionBudget → Bool
goes_on current_round v b = (v.stop_reason == "") && ltb current_round (round_limit b)

-- `_apply_search_phase_boundary`: the phase, and the receipts of its transition.
unfoldable pub search_phase_boundary :
    Stages → ℕ → Evaluation → EvolutionBudget → Phase × Option (List String)
unfolding next_phase same_phase
search_phase_boundary st current_round v b =
    let refs = unconsumed_stagnation_receipt_refs b.history in
    let tail = eqb (round_limit b - current_round) 1 || st.cost_budget_tail current_round in
    let next = next_phase b.search_phase refs tail in
    if goes_on current_round v b && not (same_phase next b.search_phase)
    then (next, some refs)
    else (b.search_phase, none)

-- `_apply_search_phase_boundary` and `_record_evaluation`
unfoldable pub record_evaluation : Stages → ℕ → Evaluation → EvolutionBudget → EvolutionBudget
record_evaluation st current_round v b =
    let boundary = search_phase_boundary st current_round v b in
    record b {
      search_phase = boundary.0;
      history =
          record {
            round = current_round;
            phase_evaluated = some b.search_phase;
            transition = boundary.1;
            receipts = v.receipts;
            stop_reason = v.stop_reason;
          }
          ∷ b.history;
    }

unfoldable pub set_last : String → List Entry → List Entry
set_last reason [] = []
set_last reason (e ∷ es) = record e { stop_reason = reason } ∷ es

-- `budget.stop_reason` and `_record_terminal_stop_reason`
unfoldable pub record_terminal_stop_reason : String → EvolutionBudget → EvolutionBudget
unfolding set_last
record_terminal_stop_reason reason b = record b {
  stop_reason = reason;
  history = set_last reason b.history;
}

-- `_checkpoint_interruption`
unfoldable pub checkpoint_interruption : ℕ → String → EvolutionBudget → EvolutionBudget
checkpoint_interruption current_round reason b = record b {
  stop_reason = reason;
  history =
      record {
        round = current_round;
        phase_evaluated = none;
        transition = none;
        receipts = [];
        stop_reason = reason;
      }
      ∷ b.history;
}

unfoldable pub limit_reason : EvolutionBudget → String
limit_reason b = if b.adaptive then "adaptive_safety_checkpoint" else "max_rounds"

-- How a run ends: it is finalized, or a model error that is not to be recovered is raised again.
pub data RunEnd : Type 0 where
  finalized : (interrupted : Bool) → EvolutionBudget → RunEnd
  raised : EvolutionBudget → RunEnd

-- How an epoch ends: the run goes on, or it ends.
pub data Epoch : Type 0 where
  next : EvolutionBudget → Epoch
  last : RunEnd → Epoch

unfoldable pub interrupt : ℕ → String → EvolutionBudget → Epoch
interrupt round reason b = last (finalized true (checkpoint_interruption round reason b))

-- A model error, and what is raised again unless it is to be recovered.
unfoldable pub after_model_error : ℕ → String → EvolutionBudget → Epoch
after_model_error round reason b =
    let c = checkpoint_interruption round reason b in
    if b.recover_model_errors then last (finalized true c) else last (raised c)

unfoldable pub after_reproduction : ℕ → StageOutcome String → EvolutionBudget → Epoch
unfolding interrupt after_model_error
after_reproduction round cancelled b = interrupt round "cancelled" b
after_reproduction round (model_error reason) b = after_model_error round reason b
after_reproduction round (done reason) b =
    let stopped = record_terminal_stop_reason reason b in
    if not (reason == "")
    then last (finalized false stopped)
    else if not (b.stop_reason == "")
    then last (finalized false b)
    else next b

unfoldable pub after_evaluation : Stages → ℕ → StageOutcome Evaluation → EvolutionBudget → Epoch
unfolding interrupt after_model_error after_reproduction
after_evaluation st round cancelled b = interrupt round "cancelled" b
after_evaluation st round (model_error reason) b = after_model_error round reason b
after_evaluation st round (done v) b =
    let c = record_evaluation st round v b in
    if not (v.stop_reason == "")
    then last (finalized false (record c { stop_reason = v.stop_reason }))
    else if leb (round_limit c) round
    then last (finalized false (record_terminal_stop_reason (limit_reason c) c))
    else after_reproduction round (st.reproduce round) c

-- `_run_direct_epoch`, with the handlers of `run`
unfoldable pub epoch : Stages → EvolutionBudget → Epoch
unfolding after_evaluation interrupt
epoch st b =
    let planned = b.current_round + 1 in
    if st.is_cancelled planned
    then interrupt planned "cancelled" b
    else after_evaluation st planned (st.evaluate planned) (record b { current_round = planned })

unfoldable pub go_on : Epoch → (EvolutionBudget → Option RunEnd) → Option RunEnd
go_on (last e) f = some e
go_on (next b) f = f b

-- The loop of `run`; none if the fuel runs out.
unfoldable pub loop : (fuel : ℕ) → Stages → EvolutionBudget → Option RunEnd
unfolding go_on
loop zero st b = none
loop (suc fuel) st b =
    if remaining b then go_on (epoch st b) (loop fuel st) else some (finalized false b)

-- The stop reason that `_finalize` sets where there is none.
unfoldable pub closed : EvolutionBudget → EvolutionBudget
closed b = if not (b.stop_reason == "") then b else record b {
  stop_reason = if leb (round_limit b) b.current_round then limit_reason b else "completed";
}

-- The end of a run up to the synthesis of its result.
unfoldable pub finalize : RunEnd → RunEnd
unfolding closed
finalize (finalized interrupted b) = finalized interrupted (closed b)
finalize (raised b) = raised b

unfoldable pub option_finalize : Option RunEnd → Option RunEnd
option_finalize none = none
option_finalize (some e) = some (finalize e)

-- `run`: `seed_error` is the stop reason of a fatal model error of the seeding, with no candidate.
unfoldable pub run :
    (fuel : ℕ) → (seed_error : Option String) → Stages → EvolutionBudget → Option RunEnd
unfolding option_finalize
run fuel none st b = option_finalize (loop fuel st b)
run fuel (some reason) st b =
    if eqb b.current_round 0
    then some (finalize (finalized true (checkpoint_interruption b.current_round reason b)))
    else option_finalize (loop fuel st b)
