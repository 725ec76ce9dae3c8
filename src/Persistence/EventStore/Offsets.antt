-- ===== src/Persistence/EventStore/Offsets.antt =====
-- The watermark of persistence/event_store.py: the backward scan finds the end of the last line.
use cognitive_evolve.Prelude.{
  ℕ, zero, suc, ◌+◌, ◌-◌, ◌≤◌, ◌<◌, ◌≡◌, refl, sym, ap, ◌∙◌, Bool, true, false, Option, none, some,
  [], ◌∷◌, ◌++◌, length, take, drop, length-take, arith, ltb, eqb, if◌then◌else◌, Bool-cases,
  Option-cases, inl, inr, ◌⊎◌,
}
use cognitive_evolve.Persistence.EventStore.{
  Bytes, ends_line, contents, later, rfind, scan_back, scanned, committed_offset,
}

-- The length up to and with the last newline, zero if there is none.
unfoldable pub after_last_newline : Bytes → ℕ
after_last_newline [] = 0
after_last_newline (b ∷ bs) =
    let rest = after_last_newline bs in if ltb 0 rest then rest + 1 else if eqb b 10 then 1 else 0

-- A newline in the second part decides.
pub after_last_newline-append :
    (xs ys : Bytes)
    → after_last_newline (xs ++ ys) ≡ (
        if ltb 0 (after_last_newline ys)
        then length xs + after_last_newline ys
        else after_last_newline xs)
unfolding after_last_newline
after_last_newline-append [] ys = ground arith
after_last_newline-append (x ∷ xs) ys = ground (arith, after_last_newline-append xs ys)

later-some :
    (b : Bool) (o : Option ℕ) (i : ℕ)
    → later b o ≡ some i
    → ((o ≡ none) × (b ≡ true) × (i ≡ 0)) ⊎ ((j : ℕ) × (o ≡ some j) × (i ≡ j + 1))
unfolding later
later-some true none i h = inl (refl, refl, cc)
later-some false none i h = cc
later-some true (some j) i h = inr (j, refl, cc)
later-some false (some j) i h = inr (j, refl, cc)

later-none : (b : Bool) (o : Option ℕ) → later b o ≡ none → (o ≡ none) × (b ≡ false)
unfolding later
later-none true none h = (refl, cc)
later-none false none h = (refl, refl)
later-none true (some j) h = (cc, cc)
later-none false (some j) h = (cc, cc)

rfind-none : (bs : Bytes) → rfind bs ≡ none → after_last_newline bs ≡ 0
unfolding rfind after_last_newline
rfind-none [] h = refl
rfind-none (b ∷ bs) h = let k = later-none (eqb b 10) (rfind bs) h in rw (rfind-none bs k.0, k.1)

rfind-some : (bs : Bytes) (i : ℕ) → rfind bs ≡ some i → after_last_newline bs ≡ i + 1
unfolding rfind after_last_newline
rfind-some [] i h = cc
rfind-some (b ∷ bs) i h = elim (later-some (eqb b 10) (rfind bs) i h) [
  | inl (e, t, z) ↦ rw (rfind-none bs e, t, z)
  | inr (j, e, z) ↦ ground (arith, rfind-some bs j e)
]

take_empty : (n : ℕ) → take {A = ℕ} n [] ≡ []
take_empty zero = refl
take_empty (suc n) = refl

same_take : (m n : ℕ) (bs : Bytes) → m ≡ n → take m bs ≡ take n bs
same_take m n bs e = rw e

take_split : (s p : ℕ) (bs : Bytes) → s ≤ p → take p bs ≡ take s bs ++ take (p - s) (drop s bs)
take_split zero p bs h = same_take p (p - 0) bs (omega arith)
take_split (suc s) zero bs h = absurd (omega arith)
take_split (suc s) (suc p) [] h = sym (take_empty (suc p - suc s))
take_split (suc s) (suc p) (b ∷ bs) h =
    ap (λ r. b ∷ r)
      (take_split s p bs (omega arith)
        ∙ ap (λ r. take s bs ++ r) (same_take (p - s) (suc p - suc s) (drop s bs) (omega arith)))

take_all : (bs : Bytes) → take (length bs) bs ≡ bs
take_all [] = refl
take_all (b ∷ bs) = ap (λ r. b ∷ r) (take_all bs)

-- The part of the file before a position, and the chunk that ends there.
before :
    (bs : Bytes) (start position : ℕ)
    → start ≤ position
    → after_last_newline (take position bs) ≡ (
        if ltb 0 (after_last_newline (take (position - start) (drop start bs)))
        then length (take start bs) + after_last_newline (take (position - start) (drop start bs))
        else after_last_newline (take start bs))
before bs start position h =
    rw (take_split start position bs h)
      (after_last_newline-append (take start bs) (take (position - start) (drop start bs)))

not_zero : (q : ℕ) → eqb (suc q) 0 ≡ false
not_zero q = ground arith

found_lem :
    (start i : ℕ) (bs : Bytes)
    → start ≤ length bs
    → some (start + i + 1)
      ≡ some (
          if ltb 0 (i + 1)
          then length (take start bs) + (i + 1)
          else after_last_newline (take start bs))
found_lem start i bs h = ap some (ground (arith, length-take start bs))

scan_back_lem :
    (fuel : ℕ) (bs : Bytes) (position : ℕ)
    → position < fuel
    → position ≤ length bs
    → scan_back fuel bs position ≡ some (after_last_newline (take position bs))
unfolding scan_back scanned after_last_newline rfind
scan_back_lem zero bs position h l = absurd (omega arith)
scan_back_lem (suc fuel) bs zero h l = refl
scan_back_lem (suc fuel) bs (suc q) h l =
    let start = suc q - 8192 in
    let chunk = take (suc q - start) (drop start bs) in
    elim (Option-cases (rfind chunk)) [
      | inl e ↦
          rw (not_zero q, e, before bs start (suc q) (omega arith), rfind-none chunk e)
            (scan_back_lem fuel bs start (omega arith) (omega arith))
      | inr (i, e) ↦
          rw (not_zero q, e, before bs start (suc q) (omega arith), rfind-some chunk i e)
            (found_lem start i bs (omega arith))
    ]

-- If a file ends with a newline, it is whole.
ends_line_lem : (bs : Bytes) → ends_line bs ≡ true → after_last_newline bs ≡ length bs
unfolding ends_line after_last_newline
ends_line_lem [] h = cc
ends_line_lem (b ∷ []) h = ground arith
ends_line_lem (b ∷ c ∷ bs) h = ground (arith, ends_line_lem (c ∷ bs) h)

-- The watermark's offset, which the code finds by reading chunks of 8192 bytes from the end of the
-- file, is always found: it is the number of bytes of the file up to and with its last newline,
-- zero if the file has none or does not exist.
pub committed_offset_lem :
    (file : Option Bytes) → committed_offset file ≡ some (after_last_newline (contents file))
unfolding committed_offset after_last_newline
committed_offset_lem none = refl
committed_offset_lem (some []) = refl
committed_offset_lem (some (b ∷ bs)) = elim (Bool-cases (ends_line (b ∷ bs))) [
  | inl e ↦ rw e (ap some (sym (ends_line_lem (b ∷ bs) e)))
  | inr e ↦ rw e (
      scan_back_lem (suc (length (b ∷ bs))) (b ∷ bs) (length (b ∷ bs)) (omega arith) (omega arith)
      ∙ ap (λ r. some (after_last_newline r)) (take_all (b ∷ bs)))
]
