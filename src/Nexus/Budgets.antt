-- ===== src/Nexus/Budgets.antt =====
-- nexus/budget_factory.py: the budgets of new and of resumed runs. A number that is missing, not
-- positive or not a number is a zero here, as the code treats it.
pub mod Resumed
mod Tests
use cognitive_evolve.Prelude.{
  ℕ, ◌+◌, String, Bool, true, false, Option, none, some, [], eqb, max, ◌==◌, if◌then◌else◌,
}
use cognitive_evolve.Json.{Result, ok, err, value_error}
use cognitive_evolve.Nexus.Loop.{Phase, explore, exit_sweep, EvolutionBudget, or_int}

-- What is read of a `NexusRoundBudget`.
pub record RoundBudget : Type 0 where
  pub max_rounds : ℕ
  pub source : String
  pub stop_policy : String
  pub min_rounds_before_stop : ℕ
  pub mutation_branches_per_round : ℕ
  pub initial_candidate_count : ℕ
  pub adaptive : Bool
  pub round_safety_limit : ℕ
  pub completion_requires_stop_signal : Bool

-- A new `EvolutionBudget` with the defaults of its fields.
unfoldable pub fresh_budget : EvolutionBudget
fresh_budget = record {
  max_rounds = 1;
  history = [];
  current_round = 0;
  branch_factor = 0;
  initial_candidate_count = 0;
  recover_model_errors = true;
  stop_policy = "llm_after_minimum";
  min_rounds_before_stop = 1;
  stop_reason = "";
  adaptive = false;
  round_safety_limit = 0;
  completion_requires_stop_signal = false;
  completion_status = "running";
  search_phase = explore;
}

unfoldable pub route_incomplete_round_budget : RoundBudget → RoundBudget
route_incomplete_round_budget r = record r {
  max_rounds = 1;
  source = "route_incomplete_diagnostic";
  stop_policy = "route_incomplete_single_diagnostic";
  min_rounds_before_stop = 1;
  adaptive = false;
  round_safety_limit = 0;
  completion_requires_stop_signal = false;
}

unfoldable pub evolution_budget_from_round_budget : RoundBudget → EvolutionBudget
unfolding fresh_budget
evolution_budget_from_round_budget r = record fresh_budget {
  max_rounds = or_int r.max_rounds 1;
  branch_factor = r.mutation_branches_per_round;
  initial_candidate_count = r.initial_candidate_count;
  stop_policy = r.stop_policy;
  min_rounds_before_stop = or_int r.min_rounds_before_stop 1;
  adaptive = r.adaptive;
  round_safety_limit = r.round_safety_limit;
  completion_requires_stop_signal = r.completion_requires_stop_signal;
}

or_text : String → String → String
or_text s default = if s == "" then default else s

unfoldable pub evolution_budget_from_params :
    (max_rounds branch_factor initial_candidate_count : ℕ)
    → (stop_policy : String) → (min_rounds_before_stop : ℕ) → EvolutionBudget
unfolding fresh_budget or_text
evolution_budget_from_params rounds branches candidates policy minimum = record fresh_budget {
  max_rounds = or_int rounds 1;
  branch_factor = branches;
  initial_candidate_count = candidates;
  stop_policy = or_text policy "llm_after_minimum";
  min_rounds_before_stop = or_int minimum 1;
}

-- What is read of a checkpoint's `budget_data`.
pub record BudgetData : Type 0 where
  pub adaptive : Bool
  pub round_safety_limit : ℕ
  pub branch_factor : ℕ
  pub initial_candidate_count : ℕ
  pub stop_policy : String
  pub min_rounds_before_stop : ℕ
  pub completion_requires_stop_signal : Bool
  pub search_phase : String

-- The check of `__post_init__`; `clean` is `strip` and `lower`.
phase_named : (clean : String → String) → String → Result Phase
unfolding or_text
phase_named clean s =
    let name = clean (or_text s "explore") in
    if name == "explore"
    then ok explore
    else if name == "exit_sweep"
    then ok exit_sweep
    else err value_error

with_phase : EvolutionBudget → Result Phase → Result EvolutionBudget
with_phase b (ok p) = ok (record b { search_phase = p })
with_phase b (err e) = err e

-- The numbers are not negative; one that `int` would refuse is read as zero.
target_rounds : (current checkpoint_max_rounds : ℕ) → BudgetData → (max_rounds : Option ℕ) → ℕ
target_rounds current limit d (some rounds) = max rounds (current + 1)
target_rounds current limit d none =
    if d.adaptive
    then current + max 1 (or_int d.round_safety_limit (or_int limit 1))
    else max (or_int limit (or_int current 1)) current

-- The resumed budget, before its phase is read.
resumed_budget : (current checkpoint_max_rounds : ℕ) → BudgetData → Option ℕ → EvolutionBudget
unfolding fresh_budget or_text target_rounds
resumed_budget current limit d rounds =
    let target = target_rounds current limit d rounds in
    record fresh_budget {
      max_rounds = target;
      current_round = current;
      branch_factor = d.branch_factor;
      initial_candidate_count = d.initial_candidate_count;
      stop_policy = or_text d.stop_policy "llm_after_minimum";
      min_rounds_before_stop = or_int d.min_rounds_before_stop 1;
      adaptive = d.adaptive;
      round_safety_limit = if d.adaptive then target else or_int d.round_safety_limit target;
      completion_requires_stop_signal = d.completion_requires_stop_signal;
    }

unfoldable pub resume_evolution_budget :
    (clean : String → String)
    → (checkpoint_round checkpoint_max_rounds : ℕ) → BudgetData
    → (max_rounds : Option ℕ) → Result EvolutionBudget
unfolding resumed_budget or_text phase_named with_phase
resume_evolution_budget clean current limit d rounds =
    with_phase (resumed_budget current limit d rounds)
      (phase_named clean (or_text d.search_phase "explore"))
