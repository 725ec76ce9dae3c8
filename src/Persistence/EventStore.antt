-- ===== src/Persistence/EventStore.antt =====
-- persistence/event_store.py: the append-only log of events, one line of JSON each. The file is a
-- list of bytes, or none if it does not exist; the lock is taken for each whole operation.
pub mod Offsets
pub mod Replay
pub mod Once
pub mod Audit
mod Tests
use cognitive_evolve.Prelude.{
  ℕ, zero, suc, ◌+◌, ◌-◌, ◌≤◌, String, Bool, true, false, not, ◌&&◌, ◌||◌, Option, none, some, List,
  [], ◌∷◌, ◌++◌, length, take, drop, ltb, leb, eqb, ◌==◌, if◌then◌else◌,
}
use cognitive_evolve.Json.{
  Value, text, int, object, Fields, end, field, Error, raised, value_error, Result, ok, err, ◌>>=◌,
  get_field, set_field,
}

abbrev pub Bytes : Type 0
Bytes = List ℕ

-- `json_line` is `json.dumps(…)` of an event, in UTF-8; `parse` is `json.loads`, none where that
-- raises; `decodes` tells that `read_text(encoding="utf-8")` does not raise, `text_lines` is its
-- `splitlines()`, each line in UTF-8, and `is_blank` tells that
-- `strip()` leaves nothing of it. `redact` is that of core/redaction.py, and `canonical` is
-- `stable_json(redact(value))`.
pub record Codec : Type 0 where
  pub json_line : Fields → Bytes
  pub parse : Bytes → Option Value
  pub decodes : Bytes → Bool
  pub text_lines : Bytes → List Bytes
  pub is_blank : Bytes → Bool
  pub redact : Fields → Fields
  pub canonical : Value → String

unfoldable pub ends_line : Bytes → Bool
ends_line [] = false
ends_line (b ∷ []) = eqb b 10
ends_line (b ∷ c ∷ bs) = ends_line (c ∷ bs)

-- The bytes of the file, if it exists.
abbrev pub contents : Option Bytes → Bytes
contents none = []
contents (some bs) = bs

-- What a replay raises for a file that is not UTF-8, as one that ends inside a character.
abbrev pub undecodable : Error
undecodable = raised "UnicodeDecodeError" ""

module _ (c : Codec) where
  -- `_event_line`
  abbrev pub event_line : Fields → Bytes
  event_line e = c.json_line e ++ (10 ∷ [])

  unfoldable pub event_lines : List Fields → Bytes
  event_lines [] = []
  event_lines (e ∷ es) = event_line e ++ event_lines es

  -- The event that marks an unterminated tail.
  unfoldable pub marker : (now : String) → (tail_end_offset : ℕ) → Fields
  marker now tail_end_offset = field "at" (text now) (
      field "reason" (text "unterminated_jsonl_tail") (
        field "tail_end_offset" (int tail_end_offset)
          (field "type" (text "event_store_tail_quarantined") end)))

  -- What is written before the events: nothing, or the end of the tail's line and the marker.
  unfoldable pub quarantine : (now : String) → Bytes → Bytes
  quarantine now [] = []
  quarantine now (b ∷ bs) =
      if ends_line (b ∷ bs) then [] else 10 ∷ event_line (marker now (length (b ∷ bs)))

  unfoldable pub append_unlocked : (now : String) → List Fields → Option Bytes → Option Bytes
  append_unlocked now [] file = file
  append_unlocked now (e ∷ es) file =
      some (contents file ++ (quarantine now (contents file) ++ event_lines (e ∷ es)))

  -- payload = redact(event); payload.setdefault("at", utc_now())
  with_time : String → Fields → Option Value → Fields
  with_time now e none = set_field e "at" (text now)
  with_time now e (some v) = e

  unfoldable pub payload_of : String → Fields → Fields
  unfolding with_time
  payload_of now event = with_time now (c.redact event) (get_field (c.redact event) "at")

  unfoldable pub append : (now : String) → Fields → Option Bytes → Fields × Option Bytes
  append now event file =
      (payload_of now event, append_unlocked now (payload_of now event ∷ []) file)

  keep_event : Option Value → List Fields → List Fields
  keep_event (some (object e)) rest = e ∷ rest
  keep_event _ rest = rest

  -- The events of the lines that can be read; blank and corrupted lines are skipped.
  unfoldable pub events_of : List Bytes → List Fields
  unfolding keep_event
  events_of [] = []
  events_of (l ∷ ls) = if c.is_blank l then events_of ls else keep_event (c.parse l) (events_of ls)

  unfoldable pub replay : Option Bytes → Result (List Fields)
  replay none = ok []
  replay (some bs) = if c.decodes bs then ok (events_of (c.text_lines bs)) else err undecodable

  -- `_event_signature`
  present : String → Option Value → List (String × String) → List (String × String)
  present key none rest = rest
  present key (some v) rest = (key, c.canonical v) ∷ rest

  unfoldable pub event_signature : List String → Fields → List (String × String)
  unfolding present
  event_signature [] event = []
  event_signature (k ∷ ks) event = present k (get_field event k) (event_signature ks event)

unfoldable pub same_signature : List (String × String) → List (String × String) → Bool
same_signature [] [] = true
same_signature ((k, v) ∷ s) ((j, w) ∷ t) = (k == j) && (v == w) && same_signature s t
same_signature _ _ = false

unfoldable pub seen_in : List (List (String × String)) → List (String × String) → Bool
seen_in [] s = false
seen_in (t ∷ ts) s = same_signature t s || seen_in ts s

abbrev pub default_keys : List String
default_keys = "type" ∷ "round" ∷ "stage" ∷ "stage_index" ∷ "stage_count" ∷ []

module _ (c : Codec) (keys : List String) where
  unfoldable pub signatures : List Fields → List (List (String × String))
  signatures [] = []
  signatures (e ∷ es) = event_signature c keys e ∷ signatures es

  -- The payloads of the events whose signature is new, in order.
  unfoldable pub new_payloads :
      (now : String) → List (List (String × String)) → List Fields → List Fields
  new_payloads now seen [] = []
  new_payloads now seen (e ∷ es) =
      let s = event_signature c keys e in
      let skipped = new_payloads now seen es in
      let taken = payload_of c now e ∷ new_payloads now (s ∷ seen) es in
      if seen_in seen s then skipped else taken

  unfoldable pub append_many_once :
      (now : String) → List Fields → Option Bytes → Result (List Fields × Option Bytes)
  append_many_once now events file = do
    old ← replay c file
    let appended = new_payloads now (signatures old) events
    ok (appended, append_unlocked c now appended file)

  unfoldable pub append_once :
      (now : String) → Fields → Option Bytes → Result (Option Fields × Option Bytes)
  append_once now event file = do
    old ← replay c file
    let written = append_unlocked c now (payload_of c now event ∷ []) file
    ok (
        if seen_in (signatures old) (event_signature c keys event)
        then (none, file)
        else (some (payload_of c now event), written))

-- chunk.rfind(b"\n")
later : Bool → Option ℕ → Option ℕ
later true none = some 0
later false none = none
later b (some i) = some (i + 1)

unfoldable pub rfind : Bytes → Option ℕ
unfolding later
rfind [] = none
rfind (b ∷ bs) = later (eqb b 10) (rfind bs)

-- What a chunk tells: the end of its last newline, or the answer of the earlier chunks.
scanned : (start : ℕ) → Option ℕ → Option ℕ → Option ℕ
scanned start (some i) earlier = some (start + i + 1)
scanned start none earlier = earlier

-- The loop of `_committed_offset_unlocked` from a position, chunk by chunk towards the start; none
-- if the fuel runs out.
unfoldable pub scan_back : (fuel : ℕ) → Bytes → (position : ℕ) → Option ℕ
unfolding scanned
scan_back zero bs position = none
scan_back (suc fuel) bs position =
    let start = position - 8192 in
    let earlier = scan_back fuel bs start in
    if eqb position 0
    then some 0
    else scanned start (rfind (take (position - start) (drop start bs))) earlier

unfoldable pub committed_offset : Option Bytes → Option ℕ
committed_offset none = some 0
committed_offset (some []) = some 0
committed_offset (some (b ∷ bs)) =
    if ends_line (b ∷ bs)
    then some (length (b ∷ bs))
    else scan_back (suc (length (b ∷ bs))) (b ∷ bs) (length (b ∷ bs))

-- An entry of the report's list of truncated records.
pub data Truncation : Type 0 where
  shorter : (expected_offset actual_offset : ℕ) → Truncation
  unread : (reason : String) → (start_offset end_offset : ℕ) → Truncation

pub record Report : Type 0 where
  pub committed : List Fields
  pub post_snapshot : List Fields
  pub truncated : List Truncation

-- The lines of a binary file, each with its newline.
glue : Bool → ℕ → List Bytes → List Bytes
glue true b ls = (b ∷ []) ∷ ls
glue false b [] = (b ∷ []) ∷ []
glue false b (l ∷ ls) = (b ∷ l) ∷ ls

unfoldable pub raw_lines : Bytes → List Bytes
unfolding glue
raw_lines [] = []
raw_lines (b ∷ bs) = glue (eqb b 10) b (raw_lines bs)

module _ (c : Codec) (offset : ℕ) where
  truncate : String → (start cursor : ℕ) → Report → Report
  truncate reason start cursor r = record r { truncated = unread reason start cursor ∷ r.truncated }

  classify_event : (start cursor : ℕ) → Option Value → Report → Report
  unfolding truncate
  classify_event start cursor none r = truncate "invalid_json" start cursor r
  classify_event start cursor (some (object e)) r =
      if leb cursor offset
      then record r { committed = e ∷ r.committed }
      else if leb offset start
      then record r { post_snapshot = e ∷ r.post_snapshot }
      else truncate "watermark_splits_line" start cursor r
  classify_event start cursor (some v) r = truncate "invalid_event" start cursor r

  classify_line : (start : ℕ) → Bytes → Report → Report
  unfolding truncate classify_event
  classify_line start l r =
      if ends_line l
      then classify_event start (start + length l) (c.parse l) r
      else truncate "incomplete_line" start (start + length l) r

  -- The loop over the lines: each puts its entry before those of the later lines.
  unfoldable pub audit : (cursor : ℕ) → List Bytes → Report
  unfolding classify_line
  audit cursor [] = record { committed = []; post_snapshot = []; truncated = [] }
  audit cursor (l ∷ ls) = classify_line cursor l (audit (cursor + length l) ls)

  unfoldable pub report_of : Option Bytes → Report
  report_of none = record {
    committed = [];
    post_snapshot = [];
    truncated = if ltb 0 offset then shorter offset 0 ∷ [] else [];
  }
  report_of (some bs) =
      let r = audit 0 (raw_lines bs) in
      if ltb (length bs) offset
      then record r { truncated = shorter offset (length bs) ∷ r.truncated }
      else r

-- A watermark of another file is refused.
unfoldable pub reconcile :
    Codec → (name path : String) → (offset : ℕ) → Option Bytes → Result Report
reconcile c name path offset file =
    if path == name then ok (report_of c offset file) else err value_error
