-- ===== src/Durable/EventLog.antt =====
-- durable/event_log.py: the state that is rebuilt from the durable log. Its lines, as `read_jsonl`
-- reads them, are a list of objects.
pub mod Rebuilt
mod Tests
use Prim.Native.String.{◌++◌}
use cognitive_evolve.Prelude.{String, Option, none, some, List, [], ◌∷◌, Dict, get, put}
use cognitive_evolve.Json.{
  Python, Value, null, Fields, end, get_field, set_field, update_fields, str, dict_field, Result,
  ok, err, ◌>>=◌,
}

module _ (py : Python) where
  -- str(event.get(k)) in a format string
  formatted : Option Value → String
  formatted none = "None"
  formatted (some v) = str py v

  unfoldable pub event_key : Fields → String
  unfolding formatted
  event_key event =
      formatted (get_field event "run_id")
      ++ ("::"
          ++ (formatted (get_field event "round_id")
              ++ ("::" ++ formatted (get_field event "step_id"))))

  unfoldable pub given_or_null : Option Value → Value
  given_or_null none = null
  given_or_null (some v) = v

  -- state.setdefault(key, {})
  entry_of : Option Fields → Fields
  entry_of none = end
  entry_of (some d) = d

  -- The entry of a step after an event with a payload.
  unfoldable pub updated_entry : (entry payload event : Fields) → Fields
  unfolding given_or_null
  updated_entry entry payload event =
      set_field
        (set_field (update_fields entry payload) "last_event_type"
          (given_or_null (get_field event "event_type")))
        "last_event_at" (given_or_null (get_field event "timestamp"))

  -- The body of the loop of `rebuild`; `dict` of a payload that is none raises.
  unfoldable pub rebuild_event : Fields → Dict Fields → Result (Dict Fields)
  unfolding entry_of
  rebuild_event event state = dict_field py event "payload" >>= λ payload. ok (
      put state (event_key event)
        (updated_entry (entry_of (get state (event_key event))) payload event))

  unfoldable pub rebuild_from : List Fields → Dict Fields → Result (Dict Fields)
  rebuild_from [] state = ok state
  rebuild_from (e ∷ es) state = rebuild_event e state >>= rebuild_from es

  unfoldable pub rebuild : List Fields → Result (Dict Fields)
  rebuild events = rebuild_from events []
