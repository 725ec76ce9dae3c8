-- ===== src/Durable/Reaper.antt =====
-- durable/resume_planner.py over a store: ResumePlanner.plan with CheckpointStore.iter_statuses of
-- durable/checkpoint_store.py, apply_stale_inflight, and durable/reaper.py. `sorted` is what
-- Python's sorted makes of the paths that a glob finds; the time of the planner stands still
-- during an operation.
pub mod Statuses
pub mod Kept
pub mod Reaped
mod Tests
use cognitive_evolve.Prelude.{
  String, Bool, true, false, Dict, Option, none, some, List, [], ◌∷◌, ◌==◌, if◌then◌else◌,
}
use cognitive_evolve.Json.{Python, Result, ok, err, ◌>>=◌ as ◌>>>◌}
use cognitive_evolve.Exec.{Exec, pure, lift, ◌>>=◌, ◌>>◌}
use cognitive_evolve.Durable.StepState.{inflight, same_state, StepStatus}
use cognitive_evolve.Durable.Store.{
  StepFiles, World, StepKey, files_at, decode_status, read_status, mark_failed,
}
use cognitive_evolve.Durable.Planner.{ResumePlanner, ResumeAction, ResumePlan, plan}

-- The directories of the steps.
unfoldable pub step_paths : Dict StepFiles → List String
step_paths [] = []
step_paths ((path, files) ∷ d) = path ∷ step_paths d

abbrev pub listed : Option StepStatus → List StepStatus → List StepStatus
listed none rest = rest
listed (some s) rest = s ∷ rest

unfoldable pub key_of : ResumeAction → StepKey
key_of a = record { round_id = a.round_id; step_id = a.step_id; step_name = a.step_name }

-- What `reap` returns, with the plans in place of their dictionaries.
pub record ReapReport : Type 0 where
  pub status : String
  pub before : ResumePlan
  pub after : ResumePlan
  pub policy : String

module _ (py : Python) where
  unfoldable pub statuses_at : World → List String → Result (List StepStatus)
  statuses_at w [] = ok []
  statuses_at w (path ∷ paths) =
      decode_status py w.now (files_at w.files path).status
      >>> (λ found. statuses_at w paths >>> (λ rest. ok (listed found rest)))

  -- The status that was read again, if the step is still in flight.
  unfoldable pub mark_stale : ResumeAction → Option StepStatus → Exec World Unit
  mark_stale a none = pure tt
  mark_stale a (some s) =
      if same_state s.state inflight
      then (do mark_failed py s true "StaleInflight" a.reason; pure tt)
      else pure tt

  unfoldable pub apply_action : ResumeAction → Exec World Unit
  apply_action a =
      if a.action == "mark_retryable_failed"
      then (do found ← read_status py (key_of a); mark_stale a found)
      else pure tt

  unfoldable pub apply_actions : List ResumeAction → Exec World Unit
  apply_actions [] = pure tt
  apply_actions (a ∷ rest) = do apply_action a; apply_actions rest

  module _ (sorted : List String → List String) (p : ResumePlanner) where
    unfoldable pub iter_statuses : Exec World (List StepStatus)
    iter_statuses w = (statuses_at w (sorted (step_paths w.files)), w)

    unfoldable pub plan_store : Exec World ResumePlan
    plan_store = do statuses ← iter_statuses; pure (plan p statuses)

    unfoldable pub apply_stale_inflight : Exec World ResumePlan
    apply_stale_inflight = do found ← plan_store; apply_actions found.actions; plan_store

    unfoldable pub reap : Exec World ReapReport
    reap = do
      before ← plan_store
      after ← apply_stale_inflight
      pure (record {
        status = after.status;
        before = before;
        after = after;
        policy = "stale_inflight_steps_become_retryable_failed_not_success";
      })
