-- ===== src/Durable/Runner.antt =====
-- durable/step_runner.py: `StepRunner.run_step`, an action over the checkpoint store.
-- The step's function is an argument, given as the outcome of its one call.
pub mod Invariant
pub mod Execute
pub mod Prepare
pub mod Resume
pub mod Terminal
pub mod Fresh
pub mod Ascii
mod Tests
use cognitive_evolve.Prelude.{
  ◌+◌, String, Bool, not, ◌&&◌, ◌||◌, Option, none, some, [], ◌∷◌, ◌++◌, ◌==◌, if◌then◌else◌,
}
use cognitive_evolve.Json.{text, int, Fields, end, field, Python, raised, ok, update_fields}
use cognitive_evolve.Exec.{Exec, pure, raise, lift, ◌>>=◌, ◌>>◌}
use cognitive_evolve.Durable.StepState.{
  created, ready, committed, retryable_failed, resumed, StepStatus, same_state, state_name,
  transition,
}
use cognitive_evolve.Durable.Store.{
  World, StepKey, stable_hash, new_status, publish, write_status, read_status, read_output,
  write_input, write_inflight_status, commit_output, mark_failed,
}

-- What the call `fn()` does: return a dict, return another value, or raise.
pub data Outcome : Type 0 where
  returned : Fields → Outcome
  returned_other : Outcome
  raises : (class message : String) → Outcome

-- `retries` is `isinstance(exc, retry_exceptions)` by the class of the exception.
pub record StepRunner : Type 0 where
  pub run_id : String
  pub logging : Bool
  pub retries : String → Bool

-- self.event_log.append(…) where there is a log
unfoldable pub log_event : StepRunner → String → StepStatus → Fields → World → World
unfolding state_name update_fields
log_event r event_type s payload w =
    if r.logging
    then record w {
      log =
          w.log
          ++ record {
            event_type = event_type;
            run_id = s.run_id;
            round_id = s.round_id;
            step_id = s.step_id;
            timestamp = w.now;
            payload = update_fields (field "state" (text (state_name s.state)) end) payload;
          }
            ∷ [];
    }
    else w

unfoldable pub event : StepRunner → String → StepStatus → Fields → Exec World Unit
event r event_type s payload w = (ok tt, log_event r event_type s payload w)

-- result = fn()
unfoldable pub call : Outcome → Exec World Outcome
call fn w = (ok fn, record w { calls = w.calls + 1 })

-- status and status.state == "committed" and status.input_hash == current_hash
unfoldable pub is_committed_with : StepStatus → String → Bool
is_committed_with s hash = same_state s.state committed && (s.input_hash == hash)

module _ (py : Python) (r : StepRunner) where
  -- The status with which the step starts: fresh if a committed step has a new input, else the one
  -- that is checkpointed with the input.
  unfoldable pub fresh_status : StepKey → Fields → String → Exec World StepStatus
  fresh_status k input previous_hash w =
      let s =
        new_status w.now r.run_id k (stable_hash py input)
          (field "previous_input_hash" (text previous_hash) end) in
      (do write_status py s; pure s) w

  unfoldable pub checkpointed_status : StepKey → Fields → Exec World StepStatus
  checkpointed_status k input = do
    s ← write_input py k input r.run_id
    write_status py (record s { input_hash = stable_hash py input })
    pure (record s { input_hash = stable_hash py input })

  unfoldable pub prepare : StepKey → Fields → Option StepStatus → Exec World StepStatus
  prepare k input none = checkpointed_status k input
  prepare k input (some s) =
      if same_state s.state committed && not (s.input_hash == stable_hash py input)
      then fresh_status k input s.input_hash
      else checkpointed_status k input

  unfoldable pub to_ready : String → StepStatus → Exec World StepStatus
  to_ready reason s w = publish py (transition w.now s ready reason none end) w

  unfoldable pub make_ready : StepStatus → Exec World StepStatus
  make_ready s =
      if same_state s.state retryable_failed || same_state s.state resumed
      then to_ready "retrying_retryable_or_resumed_step" s
      else if same_state s.state created
      then to_ready "input_checkpointed" s
      else pure s

  unfoldable pub fail : StepStatus → (class message : String) → Exec World Fields
  fail s class message = do
    t ← mark_failed py s (r.retries class) class message
    event r (if r.retries class then "step_retryable_failed" else "step_terminal_failed") t
        (field "error" (text message) end)
    raise (raised class message)

  -- The `try` block and what follows it.
  unfoldable pub settle : StepStatus → Outcome → Exec World Fields
  settle s (returned d) = do
    t ← commit_output py s d
    event r "step_committed" t (field "output_hash" (text t.output_hash) end)
    pure d
  settle s returned_other = fail s "TypeError" "durable step output must be a JSON object/dict"
  settle s (raises class message) = fail s class message

  unfoldable pub execute : StepKey → Fields → Outcome → Option StepStatus → Exec World Fields
  execute k input fn found = do
    prepared ← prepare k input found
    started ← make_ready prepared
    s ← write_inflight_status py started
    event r "step_started" s (field "attempt" (int s.attempt) end)
    outcome ← call fn
    settle s outcome

  unfoldable pub resume_or_execute :
      StepKey → Fields → Outcome → Option StepStatus → Option Fields → Exec World Fields
  resume_or_execute k input fn (some s) (some d) =
      if is_committed_with s (stable_hash py input)
      then (do
        event r "step_resumed_committed" s (field "input_hash" (text (stable_hash py input)) end)
        pure d)
      else execute k input fn (some s)
  resume_or_execute k input fn found output = execute k input fn found

  unfoldable pub run_step : StepKey → Fields → Outcome → Exec World Fields
  run_step k input fn = do
    found ← read_status py k
    output ← read_output py k
    resume_or_execute k input fn found output
