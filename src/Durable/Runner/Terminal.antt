-- ===== src/Durable/Runner/Terminal.antt =====
-- `run_step` of durable/step_runner.py on a step that failed for good or was cancelled.
use cognitive_evolve.Prelude.{put, ◌≡◌, refl, ap, ◌∙◌, ◌⊎◌, inl, inr, Option, none, some}
use cognitive_evolve.Exec.Ensures.{Post, and_then-Post}
use cognitive_evolve.Json.{Fields, Error, Python, Result, ok, err}
use cognitive_evolve.Durable.StepState.{
  StepState, terminal_failed, cancelled, same_state, StepStatus, status_to_dict,
  validate_transition, transition,
}
use cognitive_evolve.Durable.StepState.RoundTrip.{IsStorable}
use cognitive_evolve.Durable.Store.{
  World, StepFiles, StepKey, files_at, key_dir, read_status, read_output, write_status,
  write_input_file, touch, write_input, publish, write_inflight_status,
}
use cognitive_evolve.Durable.Store.Invariant.{decode_status-status_to_dict, files_at-put_self}
use cognitive_evolve.Durable.Runner.{
  StepRunner, Outcome, checkpointed_status, prepare, make_ready, execute, is_committed_with,
  resume_or_execute, run_step,
}

-- The step failed for good, or was cancelled.
abbrev pub IsClosed : StepState → Type 0
IsClosed s = (s ≡ terminal_failed) ⊎ (s ≡ cancelled)

module _ (py : Python) (r : StepRunner) (k : StepKey) (input : Fields) (w : World) where
  -- Since `w` no function was called and no event was logged.
  record Quiet (v : World) : Type 0 where
    calls : v.calls ≡ w.calls
    log : v.log ≡ w.log

  abbrev Never : Fields → World → Type 0
  Never d v = ⊥

  abbrev Closed : StepStatus → World → Type 0
  Closed s v = IsClosed s.state × Quiet v

  make_ready-Closed :
      (s : StepStatus) (v : World) → Closed s v → Post Closed Quiet (make_ready py r s v)
  unfolding make_ready same_state
  make_ready-Closed s v (inl e, q) = simp e (inl refl, q)
  make_ready-Closed s v (inr e, q) = simp e (inr refl, q)

  write_inflight_status-Closed :
      (s : StepStatus) (v : World)
      → Closed s v
      → Post (λ _ _. ⊥) Quiet (write_inflight_status py s v)
  unfolding write_inflight_status publish transition validate_transition
  write_inflight_status-Closed s v (inl e, q) = rw e q
  write_inflight_status-Closed s v (inr e, q) = rw e q

  Raised :
      (result : Result Fields) (v : World)
      → Post Never Quiet (result, v)
      → ((e : Error) × (result ≡ err e)) × (v.calls ≡ w.calls) × (v.log ≡ w.log)
  Raised (ok d) v h = absurd h
  Raised (err e) v q = ((e, refl), q.calls, q.log)

  module _ (t : StepStatus) (storable : IsStorable t) (closed : IsClosed t.state)
      (stored : (files_at w.files (key_dir py k)).status ≡ some (status_to_dict t)) where
    write_input-Closed : Post Closed Quiet (write_input py k input r.run_id w)
    unfolding write_input write_input_file read_status write_status touch
    write_input-Closed =
        let p = key_dir py k in
        let f = record (files_at w.files p) { input = some input } in
        let kept : (files_at (put w.files p f) p).status ≡ some (status_to_dict t) =
          ap (λ (g : StepFiles). g.status) (files_at-put_self w.files p f) ∙ stored in
        rw kept (
          rw (decode_status-status_to_dict py w.now t storable)
            (closed, record { calls = refl; log = refl }))

    checkpointed_status-Closed : Post Closed Quiet (checkpointed_status py r k input w)
    unfolding checkpointed_status write_status
    checkpointed_status-Closed =
        and_then-Post Closed Closed Quiet (write_input py k input r.run_id w) _ write_input-Closed
          (λ s v (c, q). (c, record { calls = q.calls; log = q.log }))

    prepare-Closed : Post Closed Quiet (prepare py r k input (some t) w)
    unfolding prepare same_state
    prepare-Closed = elim closed [
      | inl e ↦ simp e checkpointed_status-Closed
      | inr e ↦ simp e checkpointed_status-Closed
    ]

    execute-Closed : (fn : Outcome) → Post Never Quiet (execute py r k input fn (some t) w)
    unfolding execute
    execute-Closed fn =
        and_then-Post Closed Never Quiet (prepare py r k input (some t) w) _ prepare-Closed λ s v h.
          and_then-Post Closed Never Quiet (make_ready py r s v) _ (make_ready-Closed s v h)
            λ u x g.
              and_then-Post (λ _ _. ⊥) Never Quiet (write_inflight_status py u x) _
                (write_inflight_status-Closed u x g) λ _ _ never. absurd never

    resume-Closed :
        (fn : Outcome) (output : Option Fields)
        → Post Never Quiet (resume_or_execute py r k input fn (some t) output w)
    unfolding resume_or_execute is_committed_with same_state
    resume-Closed fn none = execute-Closed fn
    resume-Closed fn (some d) = elim closed [
      | inl e ↦ simp e (execute-Closed fn)
      | inr e ↦ simp e (execute-Closed fn)
    ]

    run_step-Never : (fn : Outcome) → Post Never Quiet (run_step py r k input fn w)
    unfolding run_step read_status read_output
    run_step-Never fn =
        rw stored (rw (decode_status-status_to_dict py w.now t storable) (resume-Closed fn _))

    -- A step whose stored status is terminally failed or cancelled, and can be read back as it was
    -- written, is never run again: `run_step` raises, whatever its function and its input, calls no function and logs no event.
    pub run_step-Closed :
        (fn : Outcome)
        → let (result, after) = run_step py r k input fn w in
          ((e : Error) × (result ≡ err e)) × (after.calls ≡ w.calls) × (after.log ≡ w.log)
    run_step-Closed fn =
        let (result, after) = run_step py r k input fn w in Raised result after (run_step-Never fn)
