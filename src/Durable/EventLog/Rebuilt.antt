-- ===== src/Durable/EventLog/Rebuilt.antt =====
-- What a rebuild of durable/event_log.py says of the last event.
use cognitive_evolve.Prelude.{
  ◌≡◌, refl, ◌∙◌, subst, some, List, [], ◌∷◌, ◌++◌, Dict, get, put, get-put, eq_refl,
}
use cognitive_evolve.Json.{
  Python, Fields, get_field, set_field, update_fields, get_field-set_field, dict_field, Result, ok,
  err, ◌>>=◌,
}
use cognitive_evolve.Durable.EventLog.{
  event_key, given_or_null, updated_entry, rebuild_event, rebuild_from, rebuild,
}

module _ (py : Python) where
  OkImplies : (Dict Fields → Type 0) → Result (Dict Fields) → Type 0
  OkImplies P (ok d) = P d
  OkImplies P (err e) = Unit

  -- The last event of its step is that event.
  IsLast : Fields → Dict Fields → Type 0
  IsLast event d =
      (entry : Fields) × (get d (event_key py event) ≡ some entry)
      × (get_field entry "last_event_type" ≡ some (given_or_null py (get_field event "event_type")))
      × (get_field entry "last_event_at" ≡ some (given_or_null py (get_field event "timestamp")))

  put_lem :
      (event payload : Fields) (state : Dict Fields) (old : Fields)
      → IsLast event (put state (event_key py event) (updated_entry py old payload event))
  unfolding IsLast updated_entry
  put_lem event payload state old =
      let kind = given_or_null py (get_field event "event_type") in
      let time = given_or_null py (get_field event "timestamp") in
      let base = update_fields old payload in
      let typed = set_field base "last_event_type" kind in
      (
        set_field typed "last_event_at" time,
        get-put state (event_key py event) (event_key py event) _
            ∙ rw (eq_refl (event_key py event)) refl,
        get_field-set_field typed "last_event_at" "last_event_type" time
            ∙ get_field-set_field base "last_event_type" "last_event_type" kind,
        get_field-set_field typed "last_event_at" "last_event_at" time,
      )

  bind_ok :
      {A : Type 0} (P : Dict Fields → Type 0) (r : Result A) (f : A → Result (Dict Fields))
      → ((a : A) → OkImplies P (f a))
      → OkImplies P (r >>= f)
  unfolding OkImplies
  bind_ok P (ok a) f h = h a
  bind_ok P (err e) f h = tt

  bind_id :
      (P : Dict Fields → Type 0) (r : Result (Dict Fields))
      → OkImplies P r
      → OkImplies P (r >>= λ d. ok d)
  unfolding OkImplies
  bind_id P (ok d) h = h
  bind_id P (err e) h = tt

  rebuild_event-IsLast :
      (event : Fields) (state : Dict Fields)
      → OkImplies (IsLast event) (rebuild_event py event state)
  unfolding rebuild_event OkImplies
  rebuild_event-IsLast event state =
      bind_ok (IsLast event) (dict_field py event "payload") _
        (λ payload. put_lem event payload state _)

  rebuild_from-IsLast :
      (es : List Fields) (event : Fields) (state : Dict Fields)
      → OkImplies (IsLast event) (rebuild_from py (es ++ (event ∷ [])) state)
  unfolding rebuild_from
  rebuild_from-IsLast [] event state =
      bind_id (IsLast event) (rebuild_event py event state) (rebuild_event-IsLast event state)
  rebuild_from-IsLast (e ∷ es) event state =
      bind_ok (IsLast event) (rebuild_event py e state) (rebuild_from py (es ++ (event ∷ [])))
        (rebuild_from-IsLast es event)

  -- If a rebuild of a log does not raise, the state of the step that the last event is about has the
  -- type and the time of that event, whatever the payloads and the earlier events are.
  pub rebuild-updated_entry :
      (es : List Fields) (event : Fields) (d : Dict Fields)
      → rebuild py (es ++ (event ∷ [])) ≡ ok d
      → (entry : Fields) × (get d (event_key py event) ≡ some entry)
        × (get_field entry "last_event_type"
            ≡ some (given_or_null py (get_field event "event_type")))
        × (get_field entry "last_event_at" ≡ some (given_or_null py (get_field event "timestamp")))
  unfolding rebuild OkImplies IsLast
  rebuild-updated_entry es event d h =
      subst (OkImplies (IsLast event)) h (rebuild_from-IsLast es event [])
