-- ===== src/Durable/Planner.antt =====
-- durable/resume_planner.py: the plan that is made from the statuses found in a store.
pub mod Counts
mod Tests
use cognitive_evolve.Prelude.{
  ℕ, suc, ◌+◌, ◌-◌, String, Bool, true, false, ◌||◌, Option, none, some, List, [], ◌∷◌, ◌++◌, ltb,
  if◌then◌else◌,
}
use cognitive_evolve.Durable.StepState.{
  StepState, created, ready, inflight, committed, retryable_failed, terminal_failed, cancelled,
  resumed, other, StepStatus, state_name,
}

pub record ResumeAction : Type 0 where
  pub action : String
  pub round_id : String
  pub step_id : String
  pub step_name : String
  pub reason : String
  pub status : String

pub record ResumePlan : Type 0 where
  pub status : String
  pub actions : List ResumeAction
  pub committed_steps : ℕ
  pub retryable_steps : ℕ
  pub terminal_failed_steps : ℕ
  pub inflight_stale_steps : ℕ

-- `parse_time` is `datetime.fromisoformat` in seconds, `none` where it raises ValueError; `now` is
-- the current time and `timeout` is `inflight_timeout_seconds`.
pub record ResumePlanner : Type 0 where
  pub parse_time : String → Option ℕ
  pub now : ℕ
  pub timeout : ℕ

unfoldable pub is_stale : ResumePlanner → StepStatus → Bool
is_stale p s = elim (p.parse_time s.updated_at) [ none ↦ true | some t ↦ ltb p.timeout (p.now - t) ]

-- `_action`
unfoldable pub make_action : String → StepStatus → String → ResumeAction
unfolding state_name
make_action action s reason = record {
  action = action;
  round_id = s.round_id;
  step_id = s.step_id;
  step_name = s.step_name;
  reason = reason;
  status = state_name s.state;
}

-- The variables of the loop in `plan`.
pub record Tally : Type 0 where
  pub actions : List ResumeAction
  pub committed : ℕ
  pub retryable : ℕ
  pub terminal_failed : ℕ
  pub inflight_stale : ℕ

abbrev pub zero_tally : Tally
zero_tally = record {
  actions = [];
  committed = 0;
  retryable = 0;
  terminal_failed = 0;
  inflight_stale = 0;
}

note_action : Tally → String → StepStatus → String → List ResumeAction
unfolding make_action
note_action t action s reason = t.actions ++ make_action action s reason ∷ []

-- One round of the loop, by the state of the status.
tally_state : ResumePlanner → StepState → StepStatus → Tally → Tally
unfolding note_action
tally_state p committed s t = record t {
  committed = t.committed + 1;
  actions = note_action t "skip" s "committed_step_will_not_rerun";
}
tally_state p retryable_failed s t = record t {
  retryable = t.retryable + 1;
  actions = note_action t "retry" s "retryable_failed_step_can_resume";
}
tally_state p inflight s t =
    if is_stale p s
    then record t {
      inflight_stale = t.inflight_stale + 1;
      actions = note_action t "mark_retryable_failed" s "inflight_step_older_than_timeout";
    }
    else record t { actions = note_action t "wait" s "inflight_step_not_yet_stale" }
tally_state p terminal_failed s t = record t {
  terminal_failed = t.terminal_failed + 1;
  actions = note_action t "stop" s "terminal_failure_requires_operator_or_new_run";
}
tally_state p cancelled s t = record t {
  terminal_failed = t.terminal_failed + 1;
  actions = note_action t "stop" s "cancelled_step_is_terminal";
}
tally_state p (other name) s t = t
tally_state p _ s t = record t {
  retryable = t.retryable + 1;
  actions = note_action t "run" s "uncommitted_step_ready_to_run";
}

unfoldable pub tally_status : ResumePlanner → StepStatus → Tally → Tally
unfolding tally_state
tally_status p s t = tally_state p s.state s t

unfoldable pub tally : ResumePlanner → List StepStatus → Tally → Tally
tally p [] t = t
tally p (s ∷ rest) t = tally p rest (tally_status p s t)

unfoldable pub plan_status : Tally → String
plan_status t =
    if ltb 0 t.terminal_failed
    then "terminal_failed"
    else if ltb 0 t.inflight_stale || ltb 0 t.retryable
    then "resume_available"
    else if ltb 0 t.committed
    then "all_committed"
    else "empty"

unfoldable pub plan : ResumePlanner → List StepStatus → ResumePlan
plan p statuses =
    let t = tally p statuses zero_tally in
    record {
      status = plan_status t;
      actions = t.actions;
      committed_steps = t.committed;
      retryable_steps = t.retryable;
      terminal_failed_steps = t.terminal_failed;
      inflight_stale_steps = t.inflight_stale;
    }
