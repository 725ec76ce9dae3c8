-- ===== src/Nexus/Budgets/Tests.antt =====
-- A run resumed from its third round.
use cognitive_evolve.Prelude.{◌<◌, ◌≡◌, refl, true, false, none, []}
use cognitive_evolve.Nexus.Loop.{explore, EvolutionBudget, round_limit}
use cognitive_evolve.Nexus.Budgets.{BudgetData, fresh_budget, resume_evolution_budget}
use cognitive_evolve.Nexus.Budgets.Resumed.{is_given, resume_evolution_budget_lem}

abbrev saved : BudgetData
saved = record {
  adaptive = true;
  round_safety_limit = 4;
  branch_factor = 2;
  initial_candidate_count = 6;
  stop_policy = "";
  min_rounds_before_stop = 0;
  completion_requires_stop_signal = false;
  search_phase = "explore";
}

program : Unit {0}
unfolding fresh_budget resume_evolution_budget round_limit is_given
program = tt

abbrev resumed : EvolutionBudget
resumed = record {
  max_rounds = 7;
  history = [];
  current_round = 3;
  branch_factor = 2;
  initial_candidate_count = 6;
  recover_model_errors = true;
  stop_policy = "llm_after_minimum";
  min_rounds_before_stop = 1;
  stop_reason = "";
  adaptive = true;
  round_safety_limit = 7;
  completion_requires_stop_signal = false;
  completion_status = "running";
  search_phase = explore;
}

resume_evolution_budget_lem_example :
    (resumed.current_round ≡ 3) × (3 < round_limit resumed) × (resumed.history ≡ [])
unfolding program
resume_evolution_budget_lem_example =
    resume_evolution_budget_lem (λ s. s) 3 9 saved none resumed refl refl
