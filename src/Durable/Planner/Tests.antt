-- ===== src/Durable/Planner/Tests.antt =====
-- Plans of small stores.
use Prim.Native.String.{String}
use cognitive_evolve.Prelude.{◌≡◌, some, List, [], ◌∷◌, ◌==◌, if◌then◌else◌, length}
use cognitive_evolve.Json.{end}
use cognitive_evolve.Durable.StepState.{
  StepState, inflight, committed, retryable_failed, StepStatus, is_known, same_state,
}
use cognitive_evolve.Durable.Planner.{ResumePlanner, plan, is_stale}
use cognitive_evolve.Durable.Planner.Counts.{
  is_committed, is_stopped, is_runnable, is_stale_inflight, plan_counts, plan_verdict,
}

abbrev planner : ResumePlanner
planner = record {
  parse_time = λ s. if s == "t0" then some 0 else some 900;
  now = 1000;
  timeout = 300;
}

abbrev status_in : StepState → String → StepStatus
status_in state time = record {
  run_id = "run";
  round_id = "r1";
  step_id = "s1";
  step_name = "seed";
  state = state;
  attempt = 1;
  input_hash = "h";
  output_hash = "";
  created_at = "t0";
  updated_at = time;
  reason = "";
  error = end;
  metadata = end;
}

abbrev store : List StepStatus
store = status_in committed "t0" ∷ status_in inflight "t0" ∷ status_in retryable_failed "t1" ∷ []

-- The last step is in flight, since 100 seconds.
abbrev busy : List StepStatus
busy = status_in committed "t0" ∷ status_in inflight "t1" ∷ []

plan_counts_example :
    ((plan planner store).committed_steps ≡ 1)
    × ((plan planner store).retryable_steps ≡ 1)
    × ((plan planner store).terminal_failed_steps ≡ 0)
    × ((plan planner store).inflight_stale_steps ≡ 1)
    × (length (plan planner store).actions ≡ 3)
unfolding is_committed is_runnable is_stopped is_stale_inflight is_stale is_known same_state
plan_counts_example = plan_counts planner store

plan_verdict_example : (plan planner store).status ≡ "resume_available"
unfolding is_committed is_runnable is_stopped is_stale_inflight is_stale is_known same_state
plan_verdict_example = plan_verdict planner store
