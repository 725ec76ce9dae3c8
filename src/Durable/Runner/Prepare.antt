-- ===== src/Durable/Runner/Prepare.antt =====
-- The start of `run_step`: the status with which a step starts is stored and filed.
use cognitive_evolve.Prelude.{
  put, String, ◌≡◌, refl, false, not, ◌&&◌, ◌||◌, Option, none, some, ◌==◌, Bool-cases, inl, inr,
}
use cognitive_evolve.Exec.Ensures.{Post, and_then-Post, Post-weaken}
use cognitive_evolve.Json.{Fields, end, field, text, Python, Result, ok, err}
use cognitive_evolve.Durable.StepState.{
  StepState, is_known, created, ready, committed, retryable_failed, resumed, same_state, StepStatus,
}
use cognitive_evolve.Durable.StepState.RoundTrip.{IsStorable-edit, IsStorable-touch}
use cognitive_evolve.Durable.Store.{
  World, StepKey, files_at, key_dir, stable_hash, new_status, touch, write_input_file, read_status,
  decode_status, write_status, write_input,
}
use cognitive_evolve.Durable.Store.Invariant.{
  IsFiled, Inv, Inv-put, write_status-Post, decode_status-Filed, Decoded,
}
use cognitive_evolve.Durable.Runner.{
  StepRunner, fresh_status, checkpointed_status, prepare, make_ready, to_ready,
}
use cognitive_evolve.Durable.Runner.Invariant.{Landed, to_ready-Landed}

-- The identifiers of the run and of the step are not empty.
pub record IsNamed (r : StepRunner) (k : StepKey) : Type 0 where
  pub run : (r.run_id == "") ≡ false
  pub round : (k.round_id == "") ≡ false
  pub step : (k.step_id == "") ≡ false
  pub name : (k.step_name == "") ≡ false

module _ (py : Python) (p hash : String) where
  -- The status with which a step may start.
  pub record Prepared (t : StepStatus) (v : World) : Type 0 where
    pub inv : Inv py v
    pub is_filed : IsFiled py t p
    pub same_hash : t.input_hash ≡ hash

  Prepared-of_Landed :
      {new : StepState} {out : Option Fields} {t : StepStatus} {v : World}
      → Landed py p hash new out t v
      → Prepared t v
  Prepared-of_Landed l = record { inv = l.inv; is_filed = l.is_filed; same_hash = l.same_hash }

  to_ready-Post :
      (r : StepRunner) (reason : String) (s : StepStatus) {w : World}
      → Prepared s w
      → Post Prepared (Inv py) (to_ready py r reason s w)
  to_ready-Post r reason s {w} h =
      Post-weaken (Landed py p s.input_hash ready (files_at w.files p).output) Prepared (Inv py)
        (to_ready py r reason s w) (λ t v l. Prepared-of_Landed (rw h.same_hash at l))
        (to_ready-Landed py s p h.inv h.is_filed r reason)

  pub make_ready-Post :
      (r : StepRunner) (s : StepStatus) {w : World}
      → Prepared s w
      → Post Prepared (Inv py) (make_ready py r s w)
  unfolding make_ready
  make_ready-Post r s h =
      elim (Bool-cases (same_state s.state retryable_failed || same_state s.state resumed)) [
        | inl e ↦ rw e (to_ready-Post r "retrying_retryable_or_resumed_step" s h)
        | inr e ↦ rw e (elim (Bool-cases (same_state s.state created)) [
          | inl c ↦ rw c (to_ready-Post r "input_checkpointed" s h)
          | inr c ↦ rw c h
        ])
      ]

input_hash-new_status :
    (now run_id : String) (k : StepKey) (hash : String) (d : Fields)
    → (new_status now run_id k hash d).input_hash ≡ hash
unfolding new_status
input_hash-new_status now run_id k hash d = refl

module _ (py : Python) (r : StepRunner) (k : StepKey) (named : IsNamed r k) where
  new_status-IsFiled :
      (now hash : String) (d : Fields)
      → (now == "") ≡ false
      → IsFiled py (new_status now r.run_id k hash d) (key_dir py k)
  unfolding new_status is_known
  new_status-IsFiled now hash d clock = record {
    storable = record {
      run = named.run;
      round = named.round;
      step = named.step;
      name = named.name;
      known = refl;
      creation = clock;
      change = clock;
    };
    dir = refl;
  }

  fresh_status-Post :
      (input : Fields) (previous : String) {w : World}
      → Inv py w
      → Post
          (Prepared py (key_dir py k) (stable_hash py input))
          (Inv py)
          (fresh_status py r k input previous w)
  unfolding fresh_status write_status
  fresh_status-Post input previous {w} inv =
      let d = field "previous_input_hash" (text previous) end in
      let t = new_status w.now r.run_id k (stable_hash py input) d in
      let f = new_status-IsFiled w.now (stable_hash py input) d inv.clock in
      record {
        inv = (write_status-Post py t (key_dir py k) inv f).0;
        is_filed = f;
        same_hash = input_hash-new_status w.now r.run_id k (stable_hash py input) d;
      }

  -- A status that was found is filed under the step's directory.
  abbrev Known : Option StepStatus → Type 0
  Known none = Unit
  Known (some s) = IsFiled py s (key_dir py k)

  touch-IsFiled :
      (now : String) (input : Fields) (found : Option StepStatus)
      → (now == "") ≡ false
      → Known found
      → IsFiled py (touch py now r.run_id k input found) (key_dir py k)
  unfolding touch
  touch-IsFiled now input none clock h = new_status-IsFiled now (stable_hash py input) end clock
  touch-IsFiled now input (some s) clock h = record {
    storable = IsStorable-edit _ _ _ (IsStorable-touch now clock h.storable);
    dir = h.dir;
  }

  Known-of_Decoded :
      (found : Result (Option StepStatus)) (f : Option Fields) {v : World}
      → Inv py v
      → Decoded py found f (key_dir py k)
      → Post (λ o u. Inv py u × Known o) (Inv py) (found, v)
  Known-of_Decoded (ok none) f inv h = (inv, tt)
  Known-of_Decoded (ok (some s)) f inv h = (inv, h.0)
  Known-of_Decoded (err e) f inv h = absurd h

  write_input-Post :
      (input : Fields) {w : World}
      → Inv py w
      → Post
          (λ t v. Inv py v × IsFiled py t (key_dir py k))
          (Inv py)
          (write_input py k input r.run_id w)
  unfolding write_input write_input_file read_status write_status
  write_input-Post input {w} inv =
      let p = key_dir py k in
      let f = record (files_at w.files p) { input = some input } in
      let v : World = record w { files = put w.files p f } in
      let kept : Inv py v = Inv-put py p f inv (inv.filed p) in
      let stored = (files_at v.files p).status in
      and_then-Post (λ o u. Inv py u × Known o) (λ t u. Inv py u × IsFiled py t p) (Inv py)
        (decode_status py v.now stored, v) _
        (Known-of_Decoded (decode_status py v.now stored) stored kept
          (decode_status-Filed py v.now stored p (kept.filed p)))
        (λ o u (i, h).
          let t = touch-IsFiled w.now input o inv.clock h in
          ((write_status-Post py (touch py w.now r.run_id k input o) p i t).0, t))

  checkpointed_status-Post :
      (input : Fields) {w : World}
      → Inv py w
      → Post
          (Prepared py (key_dir py k) (stable_hash py input))
          (Inv py)
          (checkpointed_status py r k input w)
  unfolding checkpointed_status write_status
  checkpointed_status-Post input {w} inv =
      and_then-Post (λ t u. Inv py u × IsFiled py t (key_dir py k))
        (Prepared py (key_dir py k) (stable_hash py input)) (Inv py)
        (write_input py k input r.run_id w) _ (write_input-Post input inv)
        (λ s u (i, h).
          let t = record s { input_hash = stable_hash py input } in
          let f : IsFiled py t (key_dir py k) = record {
            storable = IsStorable-edit _ _ _ h.storable;
            dir = h.dir;
          } in
          record {
            inv = (write_status-Post py t (key_dir py k) i f).0;
            is_filed = f;
            same_hash = refl;
          })

  pub prepare-Post :
      (input : Fields) (found : Option StepStatus) {w : World}
      → Inv py w
      → Post
          (Prepared py (key_dir py k) (stable_hash py input))
          (Inv py)
          (prepare py r k input found w)
  unfolding prepare
  prepare-Post input none inv = checkpointed_status-Post input inv
  prepare-Post input (some s) inv =
      elim (Bool-cases
        (same_state s.state committed && not (s.input_hash == stable_hash py input))) [
          | inl e ↦ rw e (fresh_status-Post input s.input_hash inv)
          | inr e ↦ rw e (checkpointed_status-Post input inv)
        ]
