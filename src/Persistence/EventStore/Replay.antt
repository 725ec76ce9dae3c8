-- ===== src/Persistence/EventStore/Replay.antt =====
-- Round trip of persistence/event_store.py: what an append writes, a replay reads.
use cognitive_evolve.Prelude.{
  ℕ, ◌≡◌, refl, sym, ap, Bool, ◌&&◌, ◌∙◌, ◌⊎◌, inl, inr, true, false, Option, none, some, List, [],
  ◌∷◌, ◌++◌, map, All, length, eqb, String, if◌then◌else◌, arith, Bool-cases,
}
use mathlib.Core.List.{append_assoc, append-nil}
use cognitive_evolve.Json.{Value, null, bool, int, text, array, object, Fields, ok, ◌>>=◌}
use cognitive_evolve.Persistence.EventStore.{
  Codec, Bytes, ends_line, contents, event_line, event_lines, marker, quarantine, append_unlocked,
  payload_of, append, keep_event, events_of, replay,
}

-- What the code relies on: the byte of a newline is never part of another character, a newline ends a line, wherever it stands, and put at the end of a text
-- it adds at most a blank line.
pub record Splits (c : Codec) : Type 0 where
  pub empty : c.text_lines [] ≡ []
  pub decodes_empty : c.decodes [] ≡ true
  pub decodes_after_newline :
      (xs ys : Bytes) → c.decodes (xs ++ (10 ∷ ys)) ≡ (c.decodes xs && c.decodes ys)
  pub after_newline :
      (xs ys : Bytes)
      → c.text_lines (xs ++ (10 ∷ ys)) ≡ c.text_lines (xs ++ (10 ∷ [])) ++ c.text_lines ys
  pub end_of_text :
      (xs : Bytes)
      → (c.text_lines (xs ++ (10 ∷ [])) ≡ c.text_lines xs)
        ⊎ ((b : Bytes) × (c.is_blank b ≡ true)
            × (c.text_lines (xs ++ (10 ∷ [])) ≡ c.text_lines xs ++ (b ∷ [])))

-- An event whose line is one line of the text in UTF-8, and is read as the event given.
unfoldable pub IsReadAs : Codec → Fields → Fields → Type 0
IsReadAs c e r =
    (c.text_lines (event_line c e) ≡ c.json_line e ∷ [])
    × (c.is_blank (c.json_line e) ≡ false)
    × (c.parse (c.json_line e) ≡ some (object r))
    × (c.decodes (c.json_line e) ≡ true)

eqb→eq : (a b : ℕ) → eqb a b ≡ true → a ≡ b
eqb→eq a b h = ground arith

module _ (c : Codec) where
  -- The marker that an append leaves, as it is read.
  unfoldable pub tail_mark : (read : Fields → Fields) → (now : String) → Bytes → List Fields
  tail_mark read now [] = []
  tail_mark read now (b ∷ bs) =
      if ends_line (b ∷ bs) then [] else read (marker c now (length (b ∷ bs))) ∷ []

  ends_line_lem : (bs : Bytes) → ends_line bs ≡ true → (zs : Bytes) × (bs ≡ zs ++ (10 ∷ []))
  unfolding ends_line
  ends_line_lem [] h = cc
  ends_line_lem (b ∷ []) h = ([], ap (λ x. x ∷ []) (eqb→eq b 10 h))
  ends_line_lem (b ∷ d ∷ bs) h = let k = ends_line_lem (d ∷ bs) h in (b ∷ k.0, ap (λ x. b ∷ x) k.1)

  kept_append :
      (v : Option Value) (a b : List Fields) → keep_event c v (a ++ b) ≡ keep_event c v a ++ b
  unfolding keep_event
  kept_append none a b = refl
  kept_append (some (object e)) a b = refl
  kept_append (some null) a b = refl
  kept_append (some (bool x)) a b = refl
  kept_append (some (int x)) a b = refl
  kept_append (some (text x)) a b = refl
  kept_append (some (array x)) a b = refl

  events_of-append :
      (xs ys : List Bytes) → events_of c (xs ++ ys) ≡ events_of c xs ++ events_of c ys
  unfolding events_of
  events_of-append [] ys = refl
  events_of-append (x ∷ xs) ys =
      ground
        (arith, events_of-append xs ys, kept_append (c.parse x) (events_of c xs) (events_of c ys))

  -- A blank line more changes nothing.
  end_of_text_lem :
      Splits c
      → (xs : Bytes) → events_of c (c.text_lines (xs ++ (10 ∷ []))) ≡ events_of c (c.text_lines xs)
  unfolding events_of
  end_of_text_lem w xs = elim (w.end_of_text xs) [
    | inl e ↦ ap (events_of c) e
    | inr (b, blank, e) ↦
        rw (e, events_of-append (c.text_lines xs) (b ∷ []), blank)
          (append-nil (events_of c (c.text_lines xs)))
  ]

  ended_lem :
      Splits c
      → (xs ys : Bytes) → ends_line xs ≡ true
      → c.text_lines (xs ++ ys) ≡ c.text_lines xs ++ c.text_lines ys
  ended_lem w xs ys h =
      let z = ends_line_lem xs h in rw (z.1, append_assoc z.0 (10 ∷ []) ys) (w.after_newline z.0 ys)

  -- The events of the lines that an append writes.
  event_lines_lem :
      Splits c
      → (read : Fields → Fields) (es : List Fields) → All (λ e. IsReadAs c e (read e)) es
      → events_of c (c.text_lines (event_lines c es)) ≡ map read es
  unfolding event_lines events_of keep_event IsReadAs
  event_lines_lem w read [] h = rw w.empty refl
  event_lines_lem w read (e ∷ es) h =
      rw
        (
          append_assoc (c.json_line e) (10 ∷ []) (event_lines c es),
          w.after_newline (c.json_line e) (event_lines c es),
          h.0.0,
          h.0.1,
          h.0.2,
        )
        (ap (λ r. read e ∷ r) (event_lines_lem w read es h.1))

  and_true : (b : Bool) → (b && true) ≡ b
  and_true true = refl
  and_true false = refl

  decodes_lines :
      Splits c
      → (read : Fields → Fields) (es : List Fields) → All (λ e. IsReadAs c e (read e)) es
      → c.decodes (event_lines c es) ≡ true
  unfolding event_lines IsReadAs
  decodes_lines w read [] h = w.decodes_empty
  decodes_lines w read (e ∷ es) h =
      rw
        (
          append_assoc (c.json_line e) (10 ∷ []) (event_lines c es),
          w.decodes_after_newline (c.json_line e) (event_lines c es),
          h.0.3,
        )
        (decodes_lines w read es h.1)

  -- Lines that are put behind a newline leave a text as decodable as it was.
  decodes_next :
      Splits c → (xs ys : Bytes) → c.decodes ys ≡ true → c.decodes (xs ++ (10 ∷ ys)) ≡ c.decodes xs
  decodes_next w xs ys d = rw (w.decodes_after_newline xs ys, d) (and_true (c.decodes xs))

  decodes_ended :
      Splits c
      → (xs ys : Bytes) → ends_line xs ≡ true
      → c.decodes ys ≡ true
      → c.decodes (xs ++ ys) ≡ c.decodes xs
  decodes_ended w xs ys h d =
      let z = ends_line_lem xs h in
      rw (z.1, append_assoc z.0 (10 ∷ []) ys)
        (decodes_next w z.0 ys d ∙ sym (decodes_next w z.0 [] w.decodes_empty))

  -- A replay after the replay of a text that it extends.
  replay_more :
      (xs ys : Bytes) (more : List Fields)
      → c.decodes ys ≡ c.decodes xs
      → events_of c (c.text_lines ys) ≡ events_of c (c.text_lines xs) ++ more
      → replay c (some ys) ≡ (replay c (some xs) >>= λ old. ok (old ++ more))
  unfolding replay
  replay_more xs ys more d e = elim (Bool-cases (c.decodes xs)) [
    | inl t ↦ rw (d, t) (ap ok e)
    | inr t ↦ rw (d, t) refl
  ]

  -- The same for the marker and the lines.
  marked_decodes :
      Splits c
      → (read : Fields → Fields) (mark e : Fields) (es : List Fields) → IsReadAs c mark (read mark)
      → All (λ e. IsReadAs c e (read e)) (e ∷ es)
      → c.decodes (event_line c mark ++ event_lines c (e ∷ es)) ≡ true
  unfolding event_lines
  marked_decodes w read mark e es m h = decodes_lines w read (mark ∷ e ∷ es) (m, h)

  marked_lem :
      Splits c
      → (read : Fields → Fields) (mark e : Fields) (es : List Fields) → IsReadAs c mark (read mark)
      → All (λ e. IsReadAs c e (read e)) (e ∷ es)
      → events_of c (c.text_lines (event_line c mark ++ event_lines c (e ∷ es)))
        ≡ map read (mark ∷ e ∷ es)
  unfolding event_lines
  marked_lem w read mark e es m h = event_lines_lem w read (mark ∷ e ∷ es) (m, h)

  -- Without an unterminated line, a replay of what `append` wrote gives what a replay gave before,
  -- then the payloads; with one, the marker of that line stands between them. Where the replay
  -- before raises, this one raises as well.
  pub append_unlocked_lem :
      Splits c
      → (read : Fields → Fields) (now : String) (e : Fields) (es : List Fields)
        (file : Option Bytes)
      → All (λ e. IsReadAs c e (read e)) (e ∷ es)
      → IsReadAs c
          (marker c now (length (contents file)))
          (read (marker c now (length (contents file))))
      → replay c (append_unlocked c now (e ∷ es) file) ≡ (
          replay c file >>= λ old.
          ok (old ++ (tail_mark read now (contents file) ++ map read (e ∷ es))))
  unfolding append_unlocked replay tail_mark quarantine events_of
  append_unlocked_lem w read now e es none h m =
      rw (decodes_lines w read (e ∷ es) h) (ap ok (event_lines_lem w read (e ∷ es) h))
  append_unlocked_lem w read now e es (some []) h m =
      rw (decodes_lines w read (e ∷ es) h, w.decodes_empty, w.empty)
        (ap ok (event_lines_lem w read (e ∷ es) h))
  append_unlocked_lem w read now e es (some (b ∷ bs)) h m =
      let mark = marker c now (length (b ∷ bs)) in
      let lines = event_lines c (e ∷ es) in
      let marked = event_line c mark ++ lines in
      elim (Bool-cases (ends_line (b ∷ bs))) [
        | inl t ↦ rw t (
            replay_more (b ∷ bs) ((b ∷ bs) ++ lines) (map read (e ∷ es))
              (decodes_ended w (b ∷ bs) lines t (decodes_lines w read (e ∷ es) h))
              (ap (events_of c) (ended_lem w (b ∷ bs) lines t)
                ∙ events_of-append (c.text_lines (b ∷ bs)) (c.text_lines lines)
                ∙ ap (λ r. events_of c (c.text_lines (b ∷ bs)) ++ r)
                    (event_lines_lem w read (e ∷ es) h)))
        | inr t ↦ rw t (
            replay_more (b ∷ bs) ((b ∷ bs) ++ (10 ∷ marked)) (map read (mark ∷ e ∷ es))
              (decodes_next w (b ∷ bs) marked (marked_decodes w read mark e es m h))
              (ap (events_of c) (w.after_newline (b ∷ bs) marked)
                ∙ events_of-append (c.text_lines ((b ∷ bs) ++ (10 ∷ []))) (c.text_lines marked)
                ∙ ap (λ r. r ++ events_of c (c.text_lines marked)) (end_of_text_lem w (b ∷ bs))
                ∙ ap (λ r. events_of c (c.text_lines (b ∷ bs)) ++ r)
                    (marked_lem w read mark e es m h)))
      ]

  -- An event that `append` writes is what the next replay reads last: a replay gives what it gave
  -- before, then the marker of an unterminated line if the file ended with one, then the event
  -- returned, as it is read. Where the replay before raises, because the file is not UTF-8, the one
  -- after raises too. It is assumed that the event's line and the marker's are read back, that lines
  -- of text end at each newline, and that no newline stands inside a character.
  pub append-replay :
      (w : Splits c) (read : Fields → Fields) (now : String) (event : Fields) (file : Option Bytes)
      → IsReadAs c (payload_of c now event) (read (payload_of c now event))
      → IsReadAs c
          (marker c now (length (contents file)))
          (read (marker c now (length (contents file))))
      → replay c ((append c now event file).1) ≡ (
          replay c file >>= λ old. ok (
            old
            ++ (tail_mark read now (contents file) ++ (read ((append c now event file).0) ∷ []))))
  unfolding append
  append-replay w read now event file h m =
      append_unlocked_lem w read now (payload_of c now event) [] file (h, tt) m
