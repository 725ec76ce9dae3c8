-- ===== src/Durable/StepState/RoundTrip.antt =====
-- The status record survives `to_dict` and `from_dict` of durable/step_state.py.
use cognitive_evolve.Prelude.{ℕ, String, ◌≡◌, refl, true, false, some, arith, ◌==◌, eq_iff}
use cognitive_evolve.Json.{
  text, truthy, Python, ok, or_else, str, text_field, int_field, dict_field,
}
use cognitive_evolve.Durable.StepState.{
  StepState, other, StepStatus, read_state, state_name, status_to_dict, status_from_dict, is_known,
  name_or_id,
}

-- What `from_dict` would replace by a default is not empty, and the state is a known one.
pub record IsStorable (s : StepStatus) : Type 0 where
  pub run : (s.run_id == "") ≡ false
  pub round : (s.round_id == "") ≡ false
  pub step : (s.step_id == "") ≡ false
  pub name : (s.step_name == "") ≡ false
  pub known : is_known s.state ≡ true
  pub creation : (s.created_at == "") ≡ false
  pub change : (s.updated_at == "") ≡ false

-- The attempts and the hashes do not matter.
pub IsStorable-edit :
    {s : StepStatus} (attempt : ℕ) (input_hash output_hash : String)
    → IsStorable s
    → IsStorable
        (record s { attempt = attempt; input_hash = input_hash; output_hash = output_hash })
IsStorable-edit attempt input_hash output_hash h = record {
  run = h.run;
  round = h.round;
  step = h.step;
  name = h.name;
  known = h.known;
  creation = h.creation;
  change = h.change;
}

-- A new time of change may be written.
pub IsStorable-touch :
    {s : StepStatus} (now : String)
    → (now == "") ≡ false
    → IsStorable s
    → IsStorable (record s { updated_at = now })
IsStorable-touch now clock h = record {
  run = h.run;
  round = h.round;
  step = h.step;
  name = h.name;
  known = h.known;
  creation = h.creation;
  change = clock;
}

pub read-state_name : (s : StepState) → is_known s ≡ true → read_state (state_name s) ≡ s
unfolding read_state state_name is_known
read-state_name (other s) h = cc
read-state_name _ h = refl

state_name_nonempty : (s : StepState) → is_known s ≡ true → (state_name s == "") ≡ false
unfolding state_name is_known
state_name_nonempty (other s) h = cc
state_name_nonempty _ h = refl

str-or_else :
    (py : Python) (s d : String)
    → (s == "") ≡ false
    → str py (or_else py (some (text s)) (text d)) ≡ s
unfolding truthy
str-or_else py s d h = rw h

str-or_else_nil : (py : Python) (s : String) → str py (or_else py (some (text s)) (text "")) ≡ s
unfolding truthy
str-or_else_nil py s = ground (arith, eq_iff s "")

module _ (py : Python) (s : StepStatus) where
  attempt-stored : int_field py (status_to_dict s) "attempt" ≡ ok s.attempt
  unfolding int_field status_to_dict
  attempt-stored = ground arith

  error-stored : dict_field py (status_to_dict s) "error" ≡ ok s.error
  unfolding dict_field status_to_dict
  error-stored = ground arith

  metadata-stored : dict_field py (status_to_dict s) "metadata" ≡ ok s.metadata
  unfolding dict_field status_to_dict
  metadata-stored = ground arith

  state-stored :
      is_known s.state ≡ true
      → read_state (text_field py (status_to_dict s) "state" "created") ≡ s.state
  unfolding text_field status_to_dict
  state-stored h =
      rw (str-or_else py (state_name s.state) "created" (state_name_nonempty s.state h))
        (read-state_name s.state h)

  name-stored :
      (s.step_name == "") ≡ false
      → name_or_id
          (text_field py (status_to_dict s) "step_name" "")
          (text_field py (status_to_dict s) "step_id" "")
        ≡ s.step_name
  unfolding text_field status_to_dict
  name-stored h = rw (str-or_else_nil py s.step_name, h)

-- A status with non-empty identifiers and times and a known state is read back as it was written,
-- whatever the clock shows at the reading.
pub status_from_dict-status_to_dict :
    (py : Python) (now : String) (s : StepStatus)
    → IsStorable s
    → status_from_dict py now (status_to_dict s) ≡ ok s
unfolding status_from_dict text_field status_to_dict
status_from_dict-status_to_dict py now s h =
    rw (attempt-stored py s, error-stored py s, metadata-stored py s)
      (λ i. ok (record {
        run_id = str-or_else py s.run_id "run" h.run i;
        round_id = str-or_else py s.round_id "round" h.round i;
        step_id = str-or_else py s.step_id "step" h.step i;
        step_name = name-stored py s h.name i;
        state = state-stored py s h.known i;
        attempt = s.attempt;
        input_hash = str-or_else_nil py s.input_hash i;
        output_hash = str-or_else_nil py s.output_hash i;
        created_at = str-or_else py s.created_at now h.creation i;
        updated_at = str-or_else py s.updated_at now h.change i;
        reason = str-or_else_nil py s.reason i;
        error = s.error;
        metadata = s.metadata;
      }))
