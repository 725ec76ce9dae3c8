-- ===== src/Durable/Runner/Tests.antt =====
-- Runs of a step on small inputs.
use cognitive_evolve.Durable.Runner.Ascii.{ascii}
use cognitive_evolve.Prelude.{◌≡◌, refl, true, none, get, put, [], ◌==◌}
use cognitive_evolve.Json.{
  text, int, Fields, end, field, raised, ok, err, get_field, update_fields, truthy, text_field,
  int_field, dict_field,
}
use cognitive_evolve.Durable.StepState.{
  status_to_dict, status_from_dict, state_name, validate_transition, transition, same_state,
  read_state,
}
use cognitive_evolve.Durable.Store.{
  World, StepKey, files_at, read_status, read_output, write_input, write_input_file,
  write_output_file, write_status, write_inflight_status, commit_output, mark_failed, decode_status,
  touch, new_status, publish,
}
use cognitive_evolve.Durable.Paths.{step_dir}
use cognitive_evolve.Durable.Store.Invariant.{Inv}
use cognitive_evolve.Durable.Runner.{
  StepRunner, returned, raises, run_step, resume_or_execute, is_committed_with, execute, prepare,
  fresh_status, checkpointed_status, make_ready, to_ready, settle, fail, call, event, log_event,
}
use cognitive_evolve.Durable.Runner.Prepare.{IsNamed}
use cognitive_evolve.Durable.Runner.Resume.{run_step-run_step, run_step-Post}
use cognitive_evolve.Durable.Runner.Fresh.{run_step-fresh}
use cognitive_evolve.Durable.Runner.Terminal.{run_step-Closed}
use cognitive_evolve.Durable.Runner.Execute.{Done}
use cognitive_evolve.Exec.Ensures.{Post}
use cognitive_evolve.Durable.StepState.RoundTrip.{IsStorable}
use cognitive_evolve.Durable.StepState.{is_known, StepStatus, terminal_failed}
use cognitive_evolve.Prelude.{some, inl, ◌∷◌}
use cognitive_evolve.Json.{Error}
use cognitive_evolve.Durable.Store.{stable_hash, key_dir}

abbrev runner : StepRunner
runner = record { run_id = "run"; logging = true; retries = λ c. c == "TimeoutError" }

abbrev key : StepKey
key = record { round_id = "r1"; step_id = "s1"; step_name = "seed" }

abbrev empty : World
empty = record { files = []; log = []; calls = 0; now = "t0" }

abbrev question : Fields
question = field "q" (text "x") end

abbrev answer : Fields
answer = field "a" (int 7) end

-- All that a run computes with.
program : Unit {0}
unfolding run_step read_status read_output resume_or_execute is_committed_with execute prepare
    fresh_status checkpointed_status make_ready to_ready settle fail call event log_event publish
    write_input write_input_file write_output_file write_status write_inflight_status commit_output
    mark_failed decode_status touch new_status files_at get put step_dir transition
    validate_transition same_state state_name status_to_dict status_from_dict read_state get_field
    update_fields truthy text_field int_field dict_field
program = tt

abbrev after_first : World
after_first = (run_step ascii runner key question (returned answer) empty).1

first_run : (run_step ascii runner key question (returned answer) empty).0 ≡ ok answer
unfolding program
first_run = refl

-- A retryable failure can be run again.
retried :
    let failed = run_step ascii runner key question (raises "TimeoutError" "slow") empty in
    (failed.0 ≡ err (raised "TimeoutError" "slow"))
    × ((run_step ascii runner key question (returned answer) failed.1).0 ≡ ok answer)
unfolding program
retried = (refl, refl)

empty-Inv : Inv ascii empty
unfolding program
empty-Inv = record { filed = λ p. tt; clock = refl }

key-IsNamed : IsNamed runner key
key-IsNamed = record { run = refl; round = refl; step = refl; name = refl }

run_step-run_step_example :
    let (result, after) =
      run_step ascii runner key question
        (raises "OSError" "gone")
        (record after_first { now = "t9" }) in
    (result ≡ ok answer) × (after.files ≡ after_first.files) × (after.calls ≡ after_first.calls)
unfolding program
run_step-run_step_example =
    run_step-run_step ascii runner key key-IsNamed question (returned answer)
      (raises "OSError" "gone") empty after_first answer "t9" empty-Inv refl

run_step-Post_example :
    Post
      (Done ascii (key_dir ascii key) (stable_hash ascii question))
      (Inv ascii)
      (run_step ascii runner key question (returned answer) empty)
run_step-Post_example =
    run_step-Post ascii runner key key-IsNamed question (returned answer) empty-Inv

abbrev broken : StepStatus
broken = record {
  run_id = "run";
  round_id = "r1";
  step_id = "s1";
  step_name = "seed";
  state = terminal_failed;
  attempt = 1;
  input_hash = "h";
  output_hash = "";
  created_at = "t0";
  updated_at = "t0";
  reason = "ValueError";
  error = end;
  metadata = end;
}

abbrev stopped : World
stopped = record empty {
  files =
      (
        key_dir ascii key,
        record { input = none; output = none; status = some (status_to_dict broken) },
      )
      ∷ [];
}

broken-IsStorable : IsStorable broken
unfolding is_known
broken-IsStorable = record {
  run = refl;
  round = refl;
  step = refl;
  name = refl;
  known = refl;
  creation = refl;
  change = refl;
}

run_step-Closed_example :
    let (result, after) = run_step ascii runner key question (returned answer) stopped in
    ((e : Error) × (result ≡ err e)) × (after.calls ≡ 0) × (after.log ≡ [])
unfolding program
run_step-Closed_example =
    run_step-Closed ascii runner key question stopped broken broken-IsStorable (inl refl) refl
      (returned answer)

run_step-fresh_example :
    let (result, after) = run_step ascii runner key question (returned answer) empty in
    (result ≡ ok answer) × (after.calls ≡ 1)
unfolding program
run_step-fresh_example = run_step-fresh ascii runner key question answer empty refl
