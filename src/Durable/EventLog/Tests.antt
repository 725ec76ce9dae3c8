-- ===== src/Durable/EventLog/Tests.antt =====
-- A log of two events of one step.
use cognitive_evolve.Prelude.{◌≡◌, refl, some, [], ◌∷◌, get, put}
use cognitive_evolve.Json.{
  Value, text, int, object, Fields, end, field, get_field, set_field, update_fields, truthy,
  dict_field, ok,
}
use cognitive_evolve.Durable.Runner.Ascii.{ascii}
use cognitive_evolve.Durable.EventLog.{
  event_key, given_or_null, updated_entry, rebuild_event, rebuild_from, rebuild,
}
use cognitive_evolve.Durable.EventLog.Rebuilt.{rebuild-updated_entry}

abbrev log_line : (kind time : Value) → Fields → Fields
log_line kind time payload = field "run_id" (text "run") (
    field "round_id" (text "1") (
      field "step_id" (text "s")
        (field "event_type" kind (field "timestamp" time (field "payload" (object payload) end)))))

abbrev started : Fields
started = log_line (text "started") (int 1) (field "input" (text "i") end)

abbrev committed_line : Fields
committed_line = log_line (text "committed") (int 2) (field "output" (text "o") end)

program : Unit {0}
unfolding get_field set_field update_fields truthy dict_field event_key given_or_null updated_entry
    rebuild_event rebuild_from rebuild get put
program = tt

abbrev entry : Fields
entry = field "input" (text "i") (
    field "last_event_type" (text "committed")
      (field "last_event_at" (int 2) (field "output" (text "o") end)))

rebuilt : rebuild ascii (started ∷ committed_line ∷ []) ≡ ok (("run::1::s", entry) ∷ [])
unfolding program
rebuilt = refl

rebuild-updated_entry_example :
    (e : Fields) × (get (("run::1::s", entry) ∷ []) "run::1::s" ≡ some e)
    × (get_field e "last_event_type" ≡ some (text "committed"))
    × (get_field e "last_event_at" ≡ some (int 2))
unfolding program
rebuild-updated_entry_example =
    rebuild-updated_entry ascii (started ∷ []) committed_line (("run::1::s", entry) ∷ []) rebuilt
