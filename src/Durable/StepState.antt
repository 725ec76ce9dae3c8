-- ===== src/Durable/StepState.antt =====
-- durable/step_state.py: the states of a durable step and the status record that is checkpointed.
-- A state is one of the eight texts of `ALL_STEP_STATES`, or `other` for any other text.
pub mod Graph
pub mod RoundTrip
pub mod Changes
mod Tests
use cognitive_evolve.Prelude.{
  ℕ, String, ◌≡◌, refl, Bool, true, false, Option, none, some, ◌==◌, if◌then◌else◌,
}
use cognitive_evolve.Json.{
  Value, int, text, object, Fields, end, field, Python, Error, Result, ok, err, value_error, ◌>>=◌,
  ◌>>◌, text_field, int_field, dict_field, update_fields,
}

pub data StepState : Type 0 where
  created ready inflight committed retryable_failed terminal_failed cancelled resumed : StepState
  other : String → StepState

unfoldable pub state_name : StepState → String
state_name created = "created"
state_name ready = "ready"
state_name inflight = "inflight"
state_name committed = "committed"
state_name retryable_failed = "retryable_failed"
state_name terminal_failed = "terminal_failed"
state_name cancelled = "cancelled"
state_name resumed = "resumed"
state_name (other s) = s

unfoldable pub read_state : String → StepState
read_state s =
    if s == "created"
    then created
    else if s == "ready"
    then ready
    else if s == "inflight"
    then inflight
    else if s == "committed"
    then committed
    else if s == "retryable_failed"
    then retryable_failed
    else if s == "terminal_failed"
    then terminal_failed
    else if s == "cancelled"
    then cancelled
    else if s == "resumed"
    then resumed
    else other s

-- state in TERMINAL_STATES
unfoldable pub is_terminal : StepState → Bool
is_terminal committed = true
is_terminal terminal_failed = true
is_terminal cancelled = true
is_terminal _ = false

-- state in ALL_STEP_STATES
unfoldable pub is_known : StepState → Bool
is_known (other s) = false
is_known _ = true

-- new in _ALLOWED_TRANSITIONS.get(old, set())
unfoldable pub is_allowed : StepState → StepState → Bool
is_allowed created ready = true
is_allowed created inflight = true
is_allowed created cancelled = true
is_allowed created terminal_failed = true
is_allowed ready inflight = true
is_allowed ready cancelled = true
is_allowed ready terminal_failed = true
is_allowed inflight committed = true
is_allowed inflight retryable_failed = true
is_allowed inflight terminal_failed = true
is_allowed inflight cancelled = true
is_allowed retryable_failed ready = true
is_allowed retryable_failed inflight = true
is_allowed retryable_failed resumed = true
is_allowed retryable_failed terminal_failed = true
is_allowed retryable_failed cancelled = true
is_allowed resumed ready = true
is_allowed resumed inflight = true
is_allowed resumed terminal_failed = true
is_allowed resumed cancelled = true
is_allowed _ _ = false

-- old == new
unfoldable pub same_state : StepState → StepState → Bool
same_state created created = true
same_state ready ready = true
same_state inflight inflight = true
same_state committed committed = true
same_state retryable_failed retryable_failed = true
same_state terminal_failed terminal_failed = true
same_state cancelled cancelled = true
same_state resumed resumed = true
same_state (other s) (other t) = s == t
same_state _ _ = false

unfoldable pub validate_state : StepState → Result StepState
unfolding is_known
validate_state s = if is_known s then ok s else err value_error

check_edge : StepState → StepState → Result (Unit {0})
check_edge old new =
    if same_state old new
    then ok tt
    else if is_terminal old
    then err value_error
    else if is_allowed old new
    then ok tt
    else err value_error

unfoldable pub validate_transition : StepState → StepState → Result (Unit {0})
unfolding validate_state check_edge same_state is_terminal is_allowed
validate_transition old new = do validate_state old; validate_state new; check_edge old new

pub record StepStatus : Type 0 where
  pub run_id : String
  pub round_id : String
  pub step_id : String
  pub step_name : String
  pub state : StepState
  pub attempt : ℕ
  pub input_hash : String
  pub output_hash : String
  pub created_at : String
  pub updated_at : String
  pub reason : String
  pub error : Fields
  pub metadata : Fields

-- `now` is the reading of `utc_now()`; `none` for the error leaves the old one.
unfoldable pub transition :
    String → StepStatus → StepState → String → Option Fields → Fields → Result StepStatus
unfolding validate_transition
transition now s new reason error metadata = do
  validate_transition s.state new
  ok (record s {
    state = new;
    reason = if reason == "" then s.reason else reason;
    error = elim error [ none ↦ s.error | some e ↦ e ];
    metadata = update_fields s.metadata metadata;
    updated_at = now;
  })

unfoldable pub status_to_dict : StepStatus → Fields
unfolding state_name
status_to_dict s = field "run_id" (text s.run_id) (
    field "round_id" (text s.round_id) (
      field "step_id" (text s.step_id) (
        field "step_name" (text s.step_name) (
          field "state" (text (state_name s.state)) (
            field "attempt" (int s.attempt) (
              field "input_hash" (text s.input_hash) (
                field "output_hash" (text s.output_hash) (
                  field "created_at" (text s.created_at) (
                    field "updated_at" (text s.updated_at) (
                      field "reason" (text s.reason) (
                        field "error" (object s.error)
                          (field "metadata" (object s.metadata) end))))))))))))

-- str(data.get("step_name") or data.get("step_id") or "step")
abbrev name_or_id : String → String → String
name_or_id name id = if name == "" then (if id == "" then "step" else id) else name

unfoldable pub status_from_dict : Python → String → Fields → Result StepStatus
status_from_dict py now d = do
  attempt ← int_field py d "attempt"
  error ← dict_field py d "error"
  metadata ← dict_field py d "metadata"
  ok (record {
    run_id = text_field py d "run_id" "run";
    round_id = text_field py d "round_id" "round";
    step_id = text_field py d "step_id" "step";
    step_name = name_or_id (text_field py d "step_name" "") (text_field py d "step_id" "");
    state = read_state (text_field py d "state" "created");
    attempt = attempt;
    input_hash = text_field py d "input_hash" "";
    output_hash = text_field py d "output_hash" "";
    created_at = text_field py d "created_at" now;
    updated_at = text_field py d "updated_at" now;
    reason = text_field py d "reason" "";
    error = error;
    metadata = metadata;
  })
