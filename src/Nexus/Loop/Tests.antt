-- ===== src/Nexus/Loop/Tests.antt =====
-- Runs of three rounds.
use cognitive_evolve.Prelude.{
  ℕ, ◌≤◌, ◌≡◌, refl, String, true, false, Option, none, some, List, [], ◌∷◌, eqb, if◌then◌else◌,
  arith,
}
use cognitive_evolve.Nexus.Loop.{
  Phase, explore, exit_sweep, Receipt, Entry, EvolutionBudget, Evaluation, Stages, StageOutcome,
  done, RunEnd, finalized, round_limit, remaining, goes_on, next_phase, same_phase, consumed,
  unconsumed_stagnation_receipt_refs, search_phase_boundary, interrupt, after_model_error,
  record_evaluation, record_terminal_stop_reason, set_last, checkpoint_interruption, limit_reason,
  after_reproduction, after_evaluation, epoch, go_on, loop, closed, finalize, option_finalize, run,
}
use cognitive_evolve.Nexus.Loop.Rounds.{budget_of, has_reason, run_lem}
use cognitive_evolve.Nexus.Loop.Order.{follows, is_ordered, is_sweep, is_evaluated}
use cognitive_evolve.Nexus.Loop.Phases.{run-is_ordered}

abbrev three_rounds : EvolutionBudget
three_rounds = record {
  max_rounds = 3;
  history = [];
  current_round = 0;
  branch_factor = 0;
  initial_candidate_count = 0;
  recover_model_errors = true;
  stop_policy = "max_rounds";
  min_rounds_before_stop = 1;
  stop_reason = "";
  adaptive = false;
  round_safety_limit = 0;
  completion_requires_stop_signal = false;
  completion_status = "running";
  search_phase = explore;
}

stagnant : ℕ → StageOutcome Evaluation
stagnant round = done (record {
  stop_reason = "";
  receipts =
      if eqb round 1 then record { receipt_id = "r"; stagnation_type = "looping" } ∷ [] else [];
})

-- The first round leaves a receipt, and no stage stops the run.
abbrev calm : Stages
calm = record {
  is_cancelled = λ _. false;
  evaluate = stagnant;
  cost_budget_tail = λ _. false;
  reproduce = λ _. done "";
}

program : Unit {0}
unfolding stagnant round_limit remaining goes_on next_phase same_phase consumed
    unconsumed_stagnation_receipt_refs search_phase_boundary interrupt after_model_error
    record_evaluation record_terminal_stop_reason set_last checkpoint_interruption limit_reason
    after_reproduction after_evaluation epoch go_on loop closed finalize option_finalize run
    budget_of has_reason follows is_ordered is_sweep is_evaluated
program = tt

abbrev entry : ℕ → Phase → Option (List String) → List Receipt → String → Entry
entry round p t receipts reason = record {
  round = round;
  phase_evaluated = some p;
  transition = t;
  receipts = receipts;
  stop_reason = reason;
}

abbrev at_end : EvolutionBudget
at_end = record three_rounds {
  current_round = 3;
  stop_reason = "max_rounds";
  search_phase = exit_sweep;
  history =
      entry 3 exit_sweep none [] "max_rounds"
      ∷ entry 2 explore (some ("r" ∷ [])) [] ""
      ∷ entry 1 explore none (record { receipt_id = "r"; stagnation_type = "looping" } ∷ []) ""
      ∷ [];
}

-- The receipt of the first round is read in the second, so the third is an exit sweep.
swept : run 4 none calm three_rounds ≡ some (finalized false at_end)
unfolding program
swept = refl

run_lem_example :
    (e : RunEnd) × (run 4 none calm three_rounds ≡ some e)
    × ((budget_of e).current_round ≤ 3)
    × (has_reason e ≡ true)
unfolding program
run_lem_example = run_lem 4 none calm three_rounds (omega arith)

run-is_ordered_example : is_ordered at_end.history ≡ true
unfolding program
run-is_ordered_example = run-is_ordered 4 none calm three_rounds (finalized false at_end) refl swept
