-- ===== src/Persistence/EventStore/Tests.antt =====
-- persistence/event_store.py on small files, with a toy codec: two kinds of event, a byte each.
use cognitive_evolve.Prelude.{
  ℕ, ◌≡◌, refl, sym, ap, ◌∙◌, ◌⊎◌, inl, inr, Bool, true, false, Option, none, some, List, [], ◌∷◌,
  ◌++◌, eqb, ltb, ◌&&◌, arith, String, if◌then◌else◌,
}
use cognitive_evolve.Json.{
  Value, text, object, Fields, end, field, get_field, set_field, ok, err, value_error,
}
use cognitive_evolve.Persistence.EventStore.{
  Codec, Bytes, undecodable, ends_line, event_lines, marker, quarantine, append_unlocked,
  payload_of, with_time, append, keep_event, events_of, replay, present, event_signature,
  same_signature, seen_in, signatures, new_payloads, append_many_once, default_keys, rfind, later,
  scanned, scan_back, committed_offset, glue, raw_lines, truncate, classify_event, classify_line,
  audit, report_of, reconcile,
}
use cognitive_evolve.Persistence.EventStore.Replay.{Splits, IsReadAs, tail_mark, append-replay}
use cognitive_evolve.Persistence.EventStore.Once.{IsStable, append_many_once-idempotent}
use cognitive_evolve.Persistence.EventStore.Audit.{complete_events, report_of_lem}
use cognitive_evolve.Persistence.EventStore.Offsets.{after_last_newline, committed_offset_lem}

-- Lines that end at each newline.
put_byte : Bool → ℕ → List Bytes → List Bytes
put_byte true b ls = [] ∷ ls
put_byte false b [] = (b ∷ []) ∷ []
put_byte false b (l ∷ ls) = (b ∷ l) ∷ ls

split : Bytes → List Bytes
unfolding put_byte
split [] = []
split (b ∷ bs) = put_byte (eqb b 10) b (split bs)

put_byte-append :
    (t : Bool) (b : ℕ) (l : Bytes) (ls rest : List Bytes)
    → put_byte t b ((l ∷ ls) ++ rest) ≡ put_byte t b (l ∷ ls) ++ rest
unfolding put_byte
put_byte-append true b l ls rest = refl
put_byte-append false b l ls rest = refl

put_byte_some :
    (t : Bool) (b : ℕ) (ls : List Bytes)
    → (l : Bytes) × (rest : List Bytes) × (put_byte t b ls ≡ l ∷ rest)
unfolding put_byte
put_byte_some true b ls = ([], ls, refl)
put_byte_some false b [] = (b ∷ [], [], refl)
put_byte_some false b (l ∷ ls) = (b ∷ l, ls, refl)

some_line : (xs : Bytes) → (l : Bytes) × (ls : List Bytes) × (split (xs ++ (10 ∷ [])) ≡ l ∷ ls)
unfolding split put_byte
some_line [] = ([], [], refl)
some_line (x ∷ xs) = put_byte_some (eqb x 10) x (split (xs ++ (10 ∷ [])))

split_after : (xs ys : Bytes) → split (xs ++ (10 ∷ ys)) ≡ split (xs ++ (10 ∷ [])) ++ split ys
unfolding split put_byte
split_after [] ys = refl
split_after (x ∷ xs) ys =
    let s = some_line xs in
    let t = eqb x 10 in
    ap (put_byte t x) (split_after xs ys ∙ ap (λ r. r ++ split ys) s.2)
    ∙ put_byte-append t x s.0 s.1 (split ys)
    ∙ ap (λ r. put_byte t x r ++ split ys) (sym s.2)

put_byte_blank :
    (t : Bool) (b : ℕ) (ls : List Bytes)
    → (put_byte t b (ls ++ ([] ∷ [])) ≡ put_byte t b ls)
      ⊎ (put_byte t b (ls ++ ([] ∷ [])) ≡ put_byte t b ls ++ ([] ∷ []))
unfolding put_byte
put_byte_blank true b ls = inr refl
put_byte_blank false b [] = inl refl
put_byte_blank false b (l ∷ ls) = inr refl

split_end :
    (xs : Bytes)
    → (split (xs ++ (10 ∷ [])) ≡ split xs) ⊎ (split (xs ++ (10 ∷ [])) ≡ split xs ++ ([] ∷ []))
unfolding split put_byte
split_end [] = inr refl
split_end (x ∷ xs) = elim (split_end xs) [
  | inl e ↦ inl (ap (put_byte (eqb x 10) x) e)
  | inr e ↦ elim (put_byte_blank (eqb x 10) x (split xs)) [
    | inl k ↦ inl (ap (put_byte (eqb x 10) x) e ∙ k)
    | inr k ↦ inr (ap (put_byte (eqb x 10) x) e ∙ k)
  ]
]

round_event : Fields
round_event = field "type" (text "round") (field "at" (text "noon") end)

mark_event : Fields
mark_event = field "type" (text "mark") end

of_kind {ℓ} : {A : Type ℓ} → A → A → Option Value → A
of_kind mark other none = other
of_kind mark other (some v) = mark

toy_read : Fields → Fields
unfolding of_kind
toy_read e = of_kind mark_event round_event (get_field e "reason")

toy_parse : Bytes → Option Value
toy_parse [] = none
toy_parse (b ∷ bs) =
    if eqb b 5
    then some (object round_event)
    else if eqb b 7
    then some (object mark_event)
    else none

toy_blank : Bytes → Bool
toy_blank [] = true
toy_blank (b ∷ bs) = false

toy_text : Value → String
toy_text (text s) = s
toy_text _ = ""

-- The bytes of the toy file, of which none is above 127.
ascii : Bytes → Bool
ascii [] = true
ascii (b ∷ bs) = ltb b 128 && ascii bs

ascii_after : (xs ys : Bytes) → ascii (xs ++ (10 ∷ ys)) ≡ (ascii xs && ascii ys)
unfolding ascii
ascii_after [] ys = refl
ascii_after (x ∷ xs) ys = ground (arith, ascii_after xs ys)

abbrev toy : Codec
toy = record {
  json_line = λ e. of_kind (7 ∷ []) (5 ∷ []) (get_field e "reason");
  parse = toy_parse;
  decodes = ascii;
  text_lines = split;
  is_blank = toy_blank;
  redact = λ e. e;
  canonical = toy_text;
}

toy-Splits : Splits toy
unfolding split toy_blank ascii
toy-Splits = record {
  empty = refl;
  decodes_empty = refl;
  decodes_after_newline = ascii_after;
  after_newline = split_after;
  end_of_text = λ xs. elim (split_end xs) [ inl e ↦ inl e | inr e ↦ inr ([], refl, e) ];
}

-- The definitions, to run them.
program : Unit {0}
unfolding split put_byte of_kind toy_read toy_parse toy_blank toy_text round_event mark_event
    get_field set_field ends_line event_lines marker quarantine append_unlocked with_time payload_of
    append keep_event events_of replay present event_signature same_signature seen_in signatures
    new_payloads append_many_once later rfind scanned scan_back committed_offset glue raw_lines
    truncate classify_event classify_line audit report_of reconcile tail_mark IsReadAs IsStable
    complete_events ascii
program = tt

-- An unterminated line, then an append.
torn :
    replay toy ((append toy "noon" round_event (some (9 ∷ []))).1)
    ≡ ok (mark_event ∷ round_event ∷ [])
unfolding program
torn = refl

-- A file that ends inside a character is not read, nor is it after the next append.
torn_character :
    (replay toy (some (195 ∷ [])) ≡ err undecodable)
    × (replay toy ((append toy "noon" round_event (some (195 ∷ []))).1) ≡ err undecodable)
unfolding program
torn_character = (refl, refl)

offset_of_torn : committed_offset (some (5 ∷ 10 ∷ 5 ∷ [])) ≡ some 2
unfolding program
offset_of_torn = refl

other_file : reconcile toy "a" "b" 0 none ≡ err value_error
unfolding program
other_file = refl

append-replay_example :
    replay toy ((append toy "noon" round_event (some (9 ∷ []))).1)
    ≡ ok (mark_event ∷ round_event ∷ [])
unfolding program
append-replay_example =
    append-replay toy toy-Splits toy_read "noon" round_event (some (9 ∷ []))
      (refl, refl, refl, refl) (refl, refl, refl, refl)

append_many_once-idempotent_example :
    (append_many_once toy default_keys "noon" (round_event ∷ []) none
      ≡ ok (round_event ∷ [], some (5 ∷ 10 ∷ [])))
    × (append_many_once toy default_keys "night" (round_event ∷ []) (some (5 ∷ 10 ∷ []))
        ≡ ok ([], some (5 ∷ 10 ∷ [])))
unfolding program
append_many_once-idempotent_example =
    append_many_once-idempotent toy default_keys toy_read "noon" toy-Splits "night"
      (round_event ∷ []) [] none refl (refl, tt) ((refl, refl, refl, refl), tt)
      (refl, refl, refl, refl)

committed_offset_lem_example : committed_offset (some (5 ∷ 10 ∷ 5 ∷ [])) ≡ some 2
unfolding program after_last_newline
committed_offset_lem_example = committed_offset_lem (some (5 ∷ 10 ∷ 5 ∷ []))

report_of_lem_example :
    ((report_of toy 2 (some (5 ∷ 10 ∷ 5 ∷ 10 ∷ []))).committed ≡ round_event ∷ [])
    × ((report_of toy 2 (some (5 ∷ 10 ∷ 5 ∷ 10 ∷ []))).post_snapshot ≡ round_event ∷ [])
unfolding program
report_of_lem_example = report_of_lem toy (5 ∷ 10 ∷ []) (5 ∷ 10 ∷ []) refl
