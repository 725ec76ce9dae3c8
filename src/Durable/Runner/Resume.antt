-- ===== src/Durable/Runner/Resume.antt =====
-- `run_step` of durable/step_runner.py as a whole: the invariant, and what a second run does.
use cognitive_evolve.Prelude.{
  String, ◌≡◌, refl, sym, subst, true, Option, none, some, arith, eq_refl, eq_iff, ◌∙◌, Bool-cases,
  inl, inr,
}
use cognitive_evolve.Exec.Ensures.{Post, and_then-Post}
use cognitive_evolve.Json.{Fields, end, field, text, int, Python, Result, ok, err}
use cognitive_evolve.Durable.StepState.{committed, inflight, same_state, StepStatus, status_to_dict}
use cognitive_evolve.Durable.StepState.RoundTrip.{IsStorable}
use cognitive_evolve.Durable.Store.{
  World, StepKey, files_at, key_dir, stable_hash, read_status, read_output, decode_status,
  write_inflight_status,
}
use cognitive_evolve.Durable.Store.Invariant.{
  IsFiled, Inv, decode_status-Filed, decode_status-status_to_dict, Decoded,
}
use cognitive_evolve.Durable.Runner.{
  StepRunner, Outcome, log_event, event, call, prepare, make_ready, execute, is_committed_with,
  resume_or_execute, run_step,
}
use cognitive_evolve.Durable.Runner.Invariant.{Landed, write_inflight_status-Landed}
use cognitive_evolve.Durable.Runner.Execute.{
  log_event-quiet, Inv-same, Done, Done-same, settle-Post,
}
use cognitive_evolve.Durable.Runner.Prepare.{IsNamed, Prepared, prepare-Post, make_ready-Post}

is_committed_with_facts :
    (s : StepStatus) (hash : String)
    → is_committed_with s hash ≡ true
    → (s.state ≡ committed) × (s.input_hash ≡ hash)
unfolding is_committed_with same_state
is_committed_with_facts s hash h = ground (arith, eq_iff s.input_hash hash)

module _ (py : Python) (r : StepRunner) (k : StepKey) (named : IsNamed r k) (input : Fields)
    (fn : Outcome) where
  abbrev Ended : Fields → World → Type 0
  Ended = Done py (key_dir py k) (stable_hash py input)

  execute-Post :
      (found : Option StepStatus) {w : World}
      → Inv py w
      → Post Ended (Inv py) (execute py r k input fn found w)
  unfolding execute event call
  execute-Post found {w} inv =
      and_then-Post Ready Ended (Inv py) (prepare py r k input found w) _
        (prepare-Post py r k named input found inv)
        λ s v h.
          and_then-Post Ready Ended (Inv py) (make_ready py r s v) _
            (make_ready-Post py p hash r s h)
            λ t u g.
              and_then-Post
                (λ i x. Landed py p t.input_hash inflight (files_at u.files p).output i x) Ended
                (Inv py) (write_inflight_status py t u) _
                (write_inflight_status-Landed py t p g.inv g.is_filed)
                λ i x l.
                  let (files, now, _) =
                    log_event-quiet r "step_started" i (field "attempt" (int i.attempt) end) x in
                  let f : Inv py x = l.inv in
                  rw (sym g.same_hash ∙ sym l.same_hash)
                    (settle-Post py r p i fn (Inv-same py {w = x} files now l.inv) l.is_filed)
    where
      p : String
      p = key_dir py k

      hash : String
      hash = stable_hash py input

      Ready : StepStatus → World → Type 0
      Ready = Prepared py p hash

  -- The status that was read is in its file, in the step's directory.
  abbrev Found : Option StepStatus → World → Type 0
  Found none w = Unit
  Found (some s) w =
      IsFiled py s (key_dir py k)
      × ((files_at w.files (key_dir py k)).status ≡ some (status_to_dict s))

  committed-Done :
      (s : StepStatus) (d : Fields) {w : World}
      → Inv py w
      → Found (some s) w
      → (files_at w.files (key_dir py k)).output ≡ some d
      → is_committed_with s (stable_hash py input) ≡ true
      → Ended d w
  committed-Done s d inv h out e =
      let (state, hash) = is_committed_with_facts s (stable_hash py input) e in
      (
        s,
        record {
          inv = inv;
          is_filed = h.0;
          state = state;
          same_hash = hash;
          written = h.1;
          output = out;
        },
      )

  resume-Post :
      (found : Option StepStatus) (output : Option Fields) {w : World}
      → Inv py w
      → Found found w
      → (files_at w.files (key_dir py k)).output ≡ output
      → Post Ended (Inv py) (resume_or_execute py r k input fn found output w)
  unfolding resume_or_execute event
  resume-Post none output inv h out = execute-Post none inv
  resume-Post (some s) none inv h out = execute-Post (some s) inv
  resume-Post (some s) (some d) {w} inv h out =
      elim (Bool-cases (is_committed_with s (stable_hash py input))) [
        | inl e ↦ rw e (
            let (files, now, _) =
              log_event-quiet r "step_resumed_committed" s
                (field "input_hash" (text (stable_hash py input)) end) w in
            Done-same py files now (committed-Done s d inv h out e))
        | inr e ↦ rw e (execute-Post (some s) inv)
      ]

  Found-of_Decoded :
      (found : Result (Option StepStatus)) {w : World}
      → Inv py w
      → Decoded py found (files_at w.files (key_dir py k)).status (key_dir py k)
      → Post (λ o u. (u ≡ w) × Found o w) (Inv py) (found, w)
  Found-of_Decoded (ok none) inv h = (refl, tt)
  Found-of_Decoded (ok (some s)) inv h = (refl, h)
  Found-of_Decoded (err e) inv h = absurd h

  -- From a store whose status files are well filed, and with identifiers that are not empty: whatever
  -- the step's function does, the status files stay well filed; and if the run returns, the output
  -- that it returns is committed under the hash of the input.
  pub run_step-Post : {w : World} → Inv py w → Post Ended (Inv py) (run_step py r k input fn w)
  unfolding run_step read_status read_output
  run_step-Post {w} inv =
      let stored = (files_at w.files (key_dir py k)).status in
      and_then-Post (λ o u. (u ≡ w) × Found o w) Ended (Inv py) (decode_status py w.now stored, w) _
        (Found-of_Decoded (decode_status py w.now stored) inv
          (decode_status-Filed py w.now stored (key_dir py k) (inv.filed (key_dir py k))))
        (λ o u (same, h).
          rw same (resume-Post o (files_at w.files (key_dir py k)).output inv h refl))

is_committed_with_of :
    (s : StepStatus) (hash : String)
    → s.state ≡ committed
    → s.input_hash ≡ hash
    → is_committed_with s hash ≡ true
unfolding is_committed_with same_state
is_committed_with_of s hash e h = rw e (rw h (eq_refl hash))

-- The run on a committed step with the same input: the stored output, and one event.
run_step-committed :
    (py : Python) (r : StepRunner) (k : StepKey) (input : Fields) (fn : Outcome) (t : StepStatus)
    (d : Fields) (w : World)
    → IsStorable t
    → t.state ≡ committed
    → t.input_hash ≡ stable_hash py input
    → (files_at w.files (key_dir py k)).status ≡ some (status_to_dict t)
    → (files_at w.files (key_dir py k)).output ≡ some d
    → run_step py r k input fn w ≡ (
      ok d,
      log_event r "step_resumed_committed" t
          (field "input_hash" (text (stable_hash py input)) end)
          w,
    )
unfolding run_step read_status read_output resume_or_execute event
run_step-committed py r k input fn t d w storable state hash written output = rw written (
    rw (decode_status-status_to_dict py w.now t storable)
      (rw output (rw (is_committed_with_of t (stable_hash py input) state hash))))

module _ (py : Python) (r : StepRunner) (k : StepKey) (named : IsNamed r k) (input : Fields) where
  -- Once a run of a step has returned, every later run of the step with the same input returns the
  -- same output, calls no function and changes no file, whatever its function would do and whenever
  -- it comes. The first run started from a store whose status files are well filed, and the
  -- identifiers are not empty.
  pub run_step-run_step :
      (fn fn' : Outcome) (w v : World) (d : Fields) (now : String)
      → Inv py w
      → run_step py r k input fn w ≡ (ok d, v)
      → let (result, after) = run_step py r k input fn' (record v { now = now }) in
        (result ≡ ok d) × (after.files ≡ v.files) × (after.calls ≡ v.calls)
  run_step-run_step fn fn' w v d now inv e =
      let (t, l) =
        subst (Post (Done py (key_dir py k) (stable_hash py input)) (Inv py)) e
          (run_step-Post py r k named input fn inv) in
      let v' : World = record v { now = now } in
      let (files, _, calls) =
        log_event-quiet r "step_resumed_committed" t
          (field "input_hash" (text (stable_hash py input)) end) v' in
      rw
        (run_step-committed py r k input fn' t d v' l.is_filed.storable l.state l.same_hash
          l.written l.output)
        (refl, files, calls)
