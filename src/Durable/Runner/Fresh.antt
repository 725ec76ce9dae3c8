-- ===== src/Durable/Runner/Fresh.antt =====
-- `run_step` of durable/step_runner.py on a step without a status file.
use cognitive_evolve.Prelude.{◌+◌, put, Bool-cases, inl, inr, ◌≡◌, refl, ap, ◌∙◌, none, some}
use cognitive_evolve.Json.{Fields, Python, ok}
use cognitive_evolve.Durable.StepState.{same_state, validate_transition, transition}
use cognitive_evolve.Durable.Store.{
  World, StepFiles, StepKey, files_at, key_dir, new_status, read_status, read_output, write_status,
  write_input_file, write_output_file, decode_status, touch, write_input, publish,
  write_inflight_status, commit_output,
}
use cognitive_evolve.Durable.Store.Invariant.{files_at-put_self}
use cognitive_evolve.Durable.Runner.{
  StepRunner, returned, checkpointed_status, prepare, to_ready, make_ready, settle, event, call,
  log_event, execute, resume_or_execute, run_step,
}

module _ (py : Python) (r : StepRunner) (k : StepKey) (input d : Fields) (w : World) where
  -- A step without a status file whose function returns a dict is run once, and `run_step` returns
  -- that dict, whatever else the store holds.
  pub run_step-fresh :
      (files_at w.files (key_dir py k)).status ≡ none
      → let (result, after) = run_step py r k input (returned d) w in
        (result ≡ ok d) × (after.calls ≡ w.calls + 1)
  unfolding run_step read_status read_output decode_status resume_or_execute execute prepare
      checkpointed_status write_input write_input_file write_status touch new_status make_ready
      to_ready same_state publish transition validate_transition write_inflight_status event call
      settle commit_output write_output_file log_event
  run_step-fresh missing =
      let p = key_dir py k in
      let f = record (files_at w.files p) { input = some input } in
      let gone : (files_at (put w.files p f) p).status ≡ none =
        ap (λ (g : StepFiles). g.status) (files_at-put_self w.files p f) ∙ missing in
      elim (Bool-cases r.logging) [
        | inl e ↦ rw missing (rw gone (rw e (refl, refl)))
        | inr e ↦ rw missing (rw gone (rw e (refl, refl)))
      ]
