-- ===== src/Persistence/EventStore/Audit.antt =====
-- The audit of persistence/event_store.py against a watermark: `reconcile`.
use cognitive_evolve.Prelude.{
  ℕ, ◌+◌, ◌≤◌, ◌<◌, ◌≡◌, refl, ap, ◌∙◌, inl, inr, Bool, true, false, Option, none, some, List, [],
  ◌∷◌, ◌++◌, length, length-append, All, ltb, eqb, if◌then◌else◌, arith, Bool-cases,
}
use cognitive_evolve.Json.{Value, null, bool, int, text, array, object, Fields}
use cognitive_evolve.Persistence.EventStore.{
  Codec, Bytes, ends_line, glue, raw_lines, Report, truncate, classify_event, classify_line, audit,
  report_of,
}

-- The event of a line, put before others if the line is complete and holds an object.
add_event : Option Value → List Fields → List Fields
add_event none es = es
add_event (some (object e)) es = e ∷ es
add_event (some v) es = es

-- The events of the complete lines, in order.
unfoldable pub complete_events : Codec → List Bytes → List Fields
unfolding add_event
complete_events c [] = []
complete_events c (l ∷ ls) =
    let rest = complete_events c ls in if ends_line l then add_event (c.parse l) rest else rest

total : List Bytes → ℕ
total [] = 0
total (l ∷ ls) = length l + total ls

glue-glue :
    (s t : Bool) (a b : ℕ) (ls rest : List Bytes)
    → glue s a (glue t b ls ++ rest) ≡ glue s a (glue t b ls) ++ rest
unfolding glue
glue-glue true t a b ls rest = refl
glue-glue false true a b ls rest = refl
glue-glue false false a b [] rest = refl
glue-glue false false a b (l ∷ ls) rest = refl

total-glue : (t : Bool) (b : ℕ) (ls : List Bytes) → total (glue t b ls) ≡ 1 + total ls
unfolding total glue
total-glue true b ls = refl
total-glue false b [] = refl
total-glue false b (l ∷ ls) = omega arith

glue_positive :
    (t : Bool) (b : ℕ) (ls : List Bytes)
    → All (λ l. 0 < length l) ls
    → All (λ l. 0 < length l) (glue t b ls)
unfolding glue
glue_positive true b ls h = (omega arith, h)
glue_positive false b [] h = (omega arith, h)
glue_positive false b (l ∷ ls) h = (omega arith, h.1)

raw_lines-append :
    (xs ys : Bytes) → ends_line xs ≡ true → raw_lines (xs ++ ys) ≡ raw_lines xs ++ raw_lines ys
unfolding raw_lines ends_line glue
raw_lines-append [] ys h = cc
raw_lines-append (x ∷ []) ys h = rw h refl
raw_lines-append (x ∷ z ∷ xs) ys h =
    ap (glue (eqb x 10) x) (raw_lines-append (z ∷ xs) ys h)
    ∙ glue-glue (eqb x 10) (eqb z 10) x z (raw_lines xs) (raw_lines ys)

total-raw_lines : (bs : Bytes) → total (raw_lines bs) ≡ length bs
unfolding total raw_lines glue
total-raw_lines [] = refl
total-raw_lines (b ∷ bs) = omega (arith, total-glue (eqb b 10) b (raw_lines bs), total-raw_lines bs)

raw_lines_positive : (bs : Bytes) → All (λ l. 0 < length l) (raw_lines bs)
unfolding raw_lines glue
raw_lines_positive [] = tt
raw_lines_positive (b ∷ bs) = glue_positive (eqb b 10) b (raw_lines bs) (raw_lines_positive bs)

module _ (c : Codec) (offset : ℕ) where
  event_before :
      (start cursor : ℕ) (v : Option Value) (r : Report)
      → cursor ≤ offset
      → ((classify_event c offset start cursor v r).committed ≡ add_event v r.committed)
        × ((classify_event c offset start cursor v r).post_snapshot ≡ r.post_snapshot)
  unfolding classify_event truncate add_event
  event_before start cursor none r h = (refl, refl)
  event_before start cursor (some (object e)) r h = ground arith
  event_before start cursor (some null) r h = (refl, refl)
  event_before start cursor (some (bool x)) r h = (refl, refl)
  event_before start cursor (some (int x)) r h = (refl, refl)
  event_before start cursor (some (text x)) r h = (refl, refl)
  event_before start cursor (some (array x)) r h = (refl, refl)

  event_after :
      (start cursor : ℕ) (v : Option Value) (r : Report)
      → offset < cursor
      → offset ≤ start
      → ((classify_event c offset start cursor v r).committed ≡ r.committed)
        × ((classify_event c offset start cursor v r).post_snapshot ≡ add_event v r.post_snapshot)
  unfolding classify_event truncate add_event
  event_after start cursor none r h k = (refl, refl)
  event_after start cursor (some (object e)) r h k = ground arith
  event_after start cursor (some null) r h k = (refl, refl)
  event_after start cursor (some (bool x)) r h k = (refl, refl)
  event_after start cursor (some (int x)) r h k = (refl, refl)
  event_after start cursor (some (text x)) r h k = (refl, refl)
  event_after start cursor (some (array x)) r h k = (refl, refl)

  line_before :
      (start : ℕ) (l : Bytes) (r : Report)
      → start + length l ≤ offset
      → ((classify_line c offset start l r).committed
          ≡ (if ends_line l then add_event (c.parse l) r.committed else r.committed))
        × ((classify_line c offset start l r).post_snapshot ≡ r.post_snapshot)
  unfolding classify_line truncate
  line_before start l r h = elim (Bool-cases (ends_line l)) [
    | inl t ↦ rw t (event_before start (start + length l) (c.parse l) r h)
    | inr t ↦ rw t (refl, refl)
  ]

  line_after :
      (start : ℕ) (l : Bytes) (r : Report)
      → 0 < length l
      → offset ≤ start
      → ((classify_line c offset start l r).committed ≡ r.committed)
        × ((classify_line c offset start l r).post_snapshot
            ≡ (if ends_line l then add_event (c.parse l) r.post_snapshot else r.post_snapshot))
  unfolding classify_line truncate
  line_after start l r p h = elim (Bool-cases (ends_line l)) [
    | inl t ↦ rw t (event_after start (start + length l) (c.parse l) r (omega arith) h)
    | inr t ↦ rw t (refl, refl)
  ]

  audit_after :
      (cursor : ℕ) (ls : List Bytes)
      → All (λ l. 0 < length l) ls
      → offset ≤ cursor
      → ((audit c offset cursor ls).committed ≡ [])
        × ((audit c offset cursor ls).post_snapshot ≡ complete_events c ls)
  unfolding audit complete_events
  audit_after cursor [] p h = (refl, refl)
  audit_after cursor (l ∷ ls) p h =
      let rest = audit c offset (cursor + length l) ls in
      let now = line_after cursor l rest p.0 h in
      let later = audit_after (cursor + length l) ls p.1 (omega arith) in
      (now.0 ∙ later.0, now.1 ∙ rw later.1 refl)

  audit_before :
      (cursor : ℕ) (xs ys : List Bytes)
      → All (λ l. 0 < length l) ys
      → cursor + total xs ≡ offset
      → ((audit c offset cursor (xs ++ ys)).committed ≡ complete_events c xs)
        × ((audit c offset cursor (xs ++ ys)).post_snapshot ≡ complete_events c ys)
  unfolding audit complete_events total
  audit_before cursor [] ys p h = audit_after cursor ys p (omega arith)
  audit_before cursor (l ∷ xs) ys p h =
      let rest = audit c offset (cursor + length l) (xs ++ ys) in
      let now = line_before cursor l rest (omega arith) in
      let later = audit_before (cursor + length l) xs ys p (omega arith) in
      (now.0 ∙ rw later.0 refl, now.1 ∙ later.1)

longer : (old more : Bytes) → ltb (length (old ++ more)) (length old) ≡ false
longer old more = ground (arith, length-append old more)

-- Where the watermark is the length of an earlier file that ended with a newline, and more bytes
-- were appended since, the audit lists the events of the earlier file's lines as committed and those
-- of the complete later lines as post-snapshot, each in the order of the file.
pub report_of_lem :
    (c : Codec) (old more : Bytes)
    → ends_line old ≡ true
    → ((report_of c (length old) (some (old ++ more))).committed
        ≡ complete_events c (raw_lines old))
      × ((report_of c (length old) (some (old ++ more))).post_snapshot
          ≡ complete_events c (raw_lines more))
unfolding report_of
report_of_lem c old more h =
    rw (longer old more, raw_lines-append old more h)
      (audit_before c (length old) 0 (raw_lines old) (raw_lines more) (raw_lines_positive more)
        (omega (arith, total-raw_lines old)))
