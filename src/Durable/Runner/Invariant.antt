-- ===== src/Durable/Runner/Invariant.antt =====
-- Each part of `run_step` keeps the store's invariant, whatever it returns or raises.
use cognitive_evolve.Prelude.{
  ◌+◌, put, String, ◌≡◌, ap, subst, Bool, Option, none, some, if◌then◌else◌,
}
use cognitive_evolve.Exec.Ensures.{Post}
use cognitive_evolve.Json.{Fields, end, Python, Result, ok, err}
use cognitive_evolve.Durable.StepState.{
  StepState, ready, inflight, committed, retryable_failed, terminal_failed, StepStatus,
  status_to_dict, transition,
}
use cognitive_evolve.Durable.StepState.RoundTrip.{IsStorable-edit}
use cognitive_evolve.Durable.StepState.Changes.{Changed, OkImplies, transition-Changed}
use cognitive_evolve.Durable.Store.{
  World, StepFiles, files_at, status_dir, stable_hash, write_status, publish, write_inflight_status,
  commit_output, mark_failed, write_output_file,
}
use cognitive_evolve.Durable.Store.Invariant.{
  IsFiled, Inv, Inv-put, files_at-put_self, write_status-Post,
}
use cognitive_evolve.Durable.Runner.{StepRunner, to_ready}

-- The status `t` in state `new` is in its file, beside the output `out`.
pub record Landed (py : Python) (p hash : String) (new : StepState) (out : Option Fields)
    (t : StepStatus) (v : World) : Type 0 where
  pub inv : Inv py v
  pub is_filed : IsFiled py t p
  pub state : t.state ≡ new
  pub same_hash : t.input_hash ≡ hash
  pub written : (files_at v.files p).status ≡ some (status_to_dict t)
  pub output : (files_at v.files p).output ≡ out

module _ (py : Python) where
  pub IsFiled-of_Changed :
      {s t : StepStatus} {p : String} {new : StepState}
      → IsFiled py s p
      → Changed s t new
      → IsFiled py t p
  IsFiled-of_Changed h c = record {
    storable = c.storable;
    dir = rw (c.round, c.step, c.name) h.dir;
  }

  pub publish-Landed :
      (s : StepStatus) (p : String) (new : StepState) (r : Result StepStatus) {w : World}
      → Inv py w
      → IsFiled py s p
      → OkImplies (λ t. Changed s t new) r
      → Post (Landed py p s.input_hash new (files_at w.files p).output) (Inv py) (publish py r w)
  unfolding publish write_status
  publish-Landed s p new (err e) inv h c = inv
  publish-Landed s p new (ok t) inv h c =
      let f : IsFiled py t p = IsFiled-of_Changed h c in
      let (kept, written, output) = write_status-Post py t p inv f in
      record {
        inv = kept;
        is_filed = f;
        state = c.state;
        same_hash = c.input_hash;
        written = written;
        output = output;
      }

  module _ (s : StepStatus) (p : String) {w : World} (inv : Inv py w) (h : IsFiled py s p) where
    pub to_ready-Landed :
        (r : StepRunner) (reason : String)
        → Post
            (Landed py p s.input_hash ready (files_at w.files p).output)
            (Inv py)
            (to_ready py r reason s w)
    unfolding to_ready
    to_ready-Landed r reason =
        publish-Landed s p ready _ inv h
          (transition-Changed w.now s ready _ _ _ inv.clock h.storable)

    pub write_inflight_status-Landed :
        Post
          (Landed py p s.input_hash inflight (files_at w.files p).output)
          (Inv py)
          (write_inflight_status py s w)
    unfolding write_inflight_status
    write_inflight_status-Landed =
        let next = record s { attempt = s.attempt + 1 } in
        let f : IsFiled py next p = record {
          storable = IsStorable-edit _ _ _ h.storable;
          dir = h.dir;
        } in
        publish-Landed next p inflight _ inv f
          (transition-Changed w.now next inflight _ _ _ inv.clock f.storable)

    pub mark_failed-Landed :
        (retryable : Bool) (class message : String)
        → Post
            (Landed py p s.input_hash
              (if retryable then retryable_failed else terminal_failed)
              (files_at w.files p).output)
            (Inv py)
            (mark_failed py s retryable class message w)
    unfolding mark_failed
    mark_failed-Landed retryable class message =
        publish-Landed s p (if retryable then retryable_failed else terminal_failed) _ inv h
          (transition-Changed w.now s _ _ _ _ inv.clock h.storable)

    pub commit_output-Landed :
        (d : Fields)
        → Post (Landed py p s.input_hash committed (some d)) (Inv py) (commit_output py s d w)
    unfolding commit_output write_output_file
    commit_output-Landed d =
        let next = record s { output_hash = stable_hash py d } in
        let f : IsFiled py next p = record {
          storable = IsStorable-edit _ _ _ h.storable;
          dir = h.dir;
        } in
        let old = files_at w.files (status_dir py s) in
        let v : World = record w {
          files = put w.files (status_dir py s) (record old { output = some d });
        } in
        let kept : Inv py v =
          Inv-put py (status_dir py s) (record old { output = some d }) inv
            (inv.filed (status_dir py s)) in
        let e : (files_at v.files p).output ≡ some d =
          subst (λ q. (files_at v.files q).output ≡ some d) h.dir
            (ap (λ (g : StepFiles). g.output) (files_at-put_self w.files (status_dir py s) _)) in
        subst
          (λ out. Post (Landed py p s.input_hash committed out) (Inv py) (
            publish py
              (transition w.now next committed "output_validated_and_atomically_committed" none end)
              v))
          e
          (publish-Landed next p committed _ kept f
            (transition-Changed w.now next committed _ _ _ inv.clock f.storable))
