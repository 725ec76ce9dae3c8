-- ===== src/Persistence/EventStore/Once.antt =====
-- Idempotence of persistence/event_store.py: events appended once are not appended again.
use cognitive_evolve.Prelude.{
  ◌≡◌, refl, subst, ap, ◌∙◌, ◌⊎◌, inl, inr, Bool, true, false, ◌||◌, Option, List, [], ◌∷◌, ◌++◌,
  map, All, length, String, eq_refl, arith, Bool-cases,
}
use cognitive_evolve.Json.{Fields, ok}
use cognitive_evolve.Persistence.EventStore.{
  Codec, Bytes, contents, marker, append_unlocked, payload_of, replay, event_signature,
  same_signature, seen_in, signatures, new_payloads, append_many_once,
}
use cognitive_evolve.Persistence.EventStore.Replay.{
  Splits, IsReadAs, tail_mark, append_unlocked_lem,
}

abbrev Signatures : Type 0
Signatures = List (List (String × String))

same_signature_refl : (s : List (String × String)) → same_signature s s ≡ true
unfolding same_signature
same_signature_refl [] = refl
same_signature_refl ((k, v) ∷ s) = rw (eq_refl k, eq_refl v) (same_signature_refl s)

or_cases : (a b : Bool) → (a || b) ≡ true → (a ≡ true) ⊎ (b ≡ true)
or_cases true b h = inl refl
or_cases false b h = inr h

or_true : (a : Bool) → (a || true) ≡ true
or_true true = refl
or_true false = refl

or_false : {a : Bool} → (a || false) ≡ true → a ≡ true
or_false {a = true} h = refl
or_false {a = false} h = h

or_between : (a m b : Bool) → (a || b) ≡ true → (a || (m || b)) ≡ true
or_between true m b h = refl
or_between false true b h = refl
or_between false false b h = h

first :
    (s : List (String × String)) (rest : List (List (String × String)))
    → seen_in (s ∷ rest) s ≡ true
unfolding seen_in
first s rest = rw (same_signature_refl s) refl

-- The signatures of the first list are also in the second.
Includes : Signatures → Signatures → Type 0
Includes xs ys = (s : List (String × String)) → seen_in xs s ≡ true → seen_in ys s ≡ true

seen_in-append :
    (xs ys : Signatures) (s : List (String × String))
    → seen_in (xs ++ ys) s ≡ (seen_in xs s || seen_in ys s)
unfolding seen_in
seen_in-append [] ys s = refl
seen_in-append (x ∷ xs) ys s = ground (arith, seen_in-append xs ys s)

signatures-append :
    (c : Codec) (keys : List String) (xs ys : List Fields)
    → signatures c keys (xs ++ ys) ≡ signatures c keys xs ++ signatures c keys ys
unfolding signatures
signatures-append c keys [] ys = refl
signatures-append c keys (x ∷ xs) ys =
    ap (λ r. event_signature c keys x ∷ r) (signatures-append c keys xs ys)

module _ (c : Codec) (keys : List String) (read : Fields → Fields) (now : String) where
  -- What is written of the event has, when it is read, the event's signature.
  unfoldable pub IsStable : Fields → Type 0
  IsStable e = event_signature c keys (read (payload_of c now e)) ≡ event_signature c keys e

  -- An event whose signature is in a list.
  IsSeen : Signatures → Fields → Type 0
  IsSeen seen e = seen_in seen (event_signature c keys e) ≡ true

  skipped :
      (seen : Signatures) (e : Fields) (es : List Fields)
      → seen_in seen (event_signature c keys e) ≡ true
      → new_payloads c keys now seen (e ∷ es) ≡ new_payloads c keys now seen es
  unfolding new_payloads
  skipped seen e es t = rw t refl

  taken :
      (seen : Signatures) (e : Fields) (es : List Fields)
      → seen_in seen (event_signature c keys e) ≡ false
      → new_payloads c keys now seen (e ∷ es)
        ≡ payload_of c now e ∷ new_payloads c keys now (event_signature c keys e ∷ seen) es
  unfolding new_payloads
  taken seen e es t = rw t refl

  -- The events are all seen where the known signatures and those of the new payloads are.
  new_payloads_lem :
      (all seen : Signatures) (es : List Fields)
      → All IsStable es
      → Includes seen all
      → Includes (signatures c keys (map read (new_payloads c keys now seen es))) all
      → All (IsSeen all) es
  unfolding new_payloads signatures IsStable IsSeen Includes seen_in
  new_payloads_lem all seen [] h i j = tt
  new_payloads_lem all seen (e ∷ es) h i j =
      let s = event_signature c keys e in
      let rest = signatures c keys (map read (new_payloads c keys now (s ∷ seen) es)) in
      elim (Bool-cases (seen_in seen s)) [
        | inl t ↦ (
          i s t,
          new_payloads_lem all seen es h.1 i
              (subst (λ p. Includes (signatures c keys (map read p)) all) (skipped seen e es t) j),
        )
        | inr t ↦
            let k =
              subst (λ x. Includes (x ∷ rest) all) h.0
                (subst (λ p. Includes (signatures c keys (map read p)) all) (taken seen e es t)
                  j) in
            (
              k s (first s rest),
              new_payloads_lem all (s ∷ seen) es h.1
                  (λ u m. elim (or_cases (same_signature s u) (seen_in seen u) m) [
                    | inl a ↦ k u (rw a refl)
                    | inr a ↦ i u a
                  ])
                  (λ u m. k u (rw m (or_true (same_signature s u)))),
            )
      ]

  nothing_new :
      (later : String) (seen : Signatures) (es : List Fields)
      → All (IsSeen seen) es
      → new_payloads c keys later seen es ≡ []
  unfolding new_payloads IsSeen
  nothing_new later seen [] h = refl
  nothing_new later seen (e ∷ es) h = rw h.0 (nothing_new later seen es h.1)

  -- What a replay gives after an append to a file that a replay reads as `old`.
  reread : List Fields → List Fields → Option Bytes → List Fields
  reread old [] file = old
  reread old (p ∷ ps) file = old ++ (tail_mark c read now (contents file) ++ map read (p ∷ ps))

  replay-append_unlocked :
      (w : Splits c) (ps old : List Fields) (file : Option Bytes)
      → replay c file ≡ ok old
      → All (λ e. IsReadAs c e (read e)) ps
      → IsReadAs c
          (marker c now (length (contents file)))
          (read (marker c now (length (contents file))))
      → replay c (append_unlocked c now ps file) ≡ ok (reread old ps file)
  unfolding append_unlocked reread
  replay-append_unlocked w [] old file e r m = e
  replay-append_unlocked w (p ∷ ps) old file e r m =
      append_unlocked_lem c w read now p ps file r m ∙ rw e refl

  -- After an append, what was in the file and what was appended is seen.
  written :
      (ps old : List Fields) (file : Option Bytes) (u : List (String × String))
      → (seen_in (signatures c keys old) u || seen_in (signatures c keys (map read ps)) u) ≡ true
      → seen_in (signatures c keys (reread old ps file)) u ≡ true
  unfolding reread signatures seen_in
  written [] old file u h = or_false h
  written (p ∷ ps) old file u h =
      let mark = tail_mark c read now (contents file) in
      rw
        (
          signatures-append c keys old (mark ++ map read (p ∷ ps)),
          signatures-append c keys mark (map read (p ∷ ps)),
          seen_in-append (signatures c keys old)
              (signatures c keys mark ++ signatures c keys (map read (p ∷ ps))) u,
          seen_in-append (signatures c keys mark) (signatures c keys (map read (p ∷ ps))) u,
        )
        (or_between (seen_in (signatures c keys old) u) (seen_in (signatures c keys mark) u) _ h)

  -- On a file that is read, `append_many_once` returns, and its second run on the same events
  -- appends nothing: it returns no event and leaves the file as the first run left it. It is assumed
  -- that the lines of the first run, and of its marker, are read back, with the signatures of the
  -- events that they were written for.
  pub append_many_once-idempotent :
      (w : Splits c) (later : String) (es old : List Fields) (file : Option Bytes)
      → replay c file ≡ ok old
      → All IsStable es
      → All (λ e. IsReadAs c e (read e)) (new_payloads c keys now (signatures c keys old) es)
      → IsReadAs c
          (marker c now (length (contents file)))
          (read (marker c now (length (contents file))))
      → let ps = new_payloads c keys now (signatures c keys old) es in
        let after = append_unlocked c now ps file in
        (append_many_once c keys now es file ≡ ok (ps, after))
        × (append_many_once c keys later es after ≡ ok ([], after))
  unfolding append_many_once append_unlocked Includes
  append_many_once-idempotent w later es old file e h r m =
      let seen = signatures c keys old in
      let ps = new_payloads c keys now seen es in
      let again = signatures c keys (reread old ps file) in
      let nothing : new_payloads c keys later again es ≡ [] = nothing_new later again es (
        new_payloads_lem again seen es h (λ u k. written ps old file u (rw k refl))
          (λ u k. written ps old file u (rw k (or_true (seen_in seen u))))) in
      (rw e refl, rw (replay-append_unlocked w ps old file e r m) (rw nothing refl))
