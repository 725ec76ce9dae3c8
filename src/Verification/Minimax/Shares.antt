-- ===== src/Verification/Minimax/Shares.antt =====
-- The lists and dictionaries of verification/minimax_budget.py.
use cognitive_evolve.Prelude.{
  ℕ, zero, suc, ◌+◌, String, ◌≡◌, refl, ap, sym, ◌∙◌, Bool, true, false, ◌||◌, List, [], ◌∷◌, ◌++◌,
  length, take, sum, All, contains, eq_iff, Dict, put, arith, eq_refl, Bool-cases, inl, inr, subst,
}
use mathlib.Core.List.{append-nil, append_assoc}
use cognitive_evolve.Verification.Minimax.{sorted, insert, bump, bump_all, values, keys, collect}

module _ {ℓ κ} {A : Type ℓ} (P : A → Type κ) (before : A → A → Bool) where
  All-insert : (x : A) (ys : List A) → P x → All P ys → All P (insert before x ys)
  unfolding insert
  All-insert x [] p h = (p, tt)
  All-insert x (y ∷ ys) p h = elim (Bool-cases (before y x)) [
    | inl e ↦ rw e (h.0, All-insert x ys p h.1)
    | inr e ↦ rw e (p, h)
  ]

  pub All-sorted : (xs : List A) → All P xs → All P (sorted before xs)
  unfolding sorted
  All-sorted [] h = tt
  All-sorted (x ∷ xs) h = All-insert x (sorted before xs) h.0 (All-sorted xs h.1)

  pub All-take : (n : ℕ) (xs : List A) → All P xs → All P (take n xs)
  All-take zero xs h = tt
  All-take (suc n) [] h = tt
  All-take (suc n) (x ∷ xs) h = (h.0, All-take n xs h.1)

module _ {ℓ} {A : Type ℓ} (before : A → A → Bool) where
  length-insert : (x : A) (ys : List A) → length (insert before x ys) ≡ suc (length ys)
  unfolding insert
  length-insert x [] = refl
  length-insert x (y ∷ ys) = elim (Bool-cases (before y x)) [
    | inl e ↦ rw e (ap suc (length-insert x ys))
    | inr e ↦ rw e refl
  ]

  pub length-sorted : (xs : List A) → length (sorted before xs) ≡ length xs
  unfolding sorted
  length-sorted [] = refl
  length-sorted (x ∷ xs) = length-insert x (sorted before xs) ∙ ap suc (length-sorted xs)

abbrev pub Known : Dict ℕ → String → Type 0
Known d k = contains (keys d) k ≡ true

keys-bump : (k : String) (d : Dict ℕ) → keys (bump k d) ≡ keys d
unfolding keys bump
keys-bump k [] = refl
keys-bump k ((j, n) ∷ d) = ground (arith, keys-bump k d)

sum-bump : (k : String) (d : Dict ℕ) → Known d k → sum (values (bump k d)) ≡ sum (values d) + 1
unfolding keys values bump
sum-bump k [] h = cc
sum-bump k ((j, n) ∷ d) h = ground (arith, sum-bump k d)

-- Each raised entry adds one to the sum.
pub sum-bump_all :
    (ks : List String) (d : Dict ℕ)
    → All (Known d) ks
    → sum (values (bump_all ks d)) ≡ sum (values d) + length ks
unfolding bump_all
sum-bump_all [] d h = omega arith
sum-bump_all (k ∷ ks) d h =
    let later : All (Known (bump k d)) ks =
      subst (λ js. All (λ i. contains js i ≡ true) ks) (sym (keys-bump k d)) h.1 in
    omega (arith, sum-bump k d h.0, sum-bump_all ks (bump k d) later)

abbrev pub IsDistinct : List String → Type 0
IsDistinct [] = Unit
IsDistinct (x ∷ xs) = (contains xs x ≡ false) × IsDistinct xs

put_new :
    (d : Dict ℕ) (k : String) (v : ℕ) → contains (keys d) k ≡ false → put d k v ≡ d ++ ((k, v) ∷ [])
unfolding keys put
put_new [] k v h = refl
put_new ((j, w) ∷ d) k v h = ground (arith, put_new d k v)

contains-append :
    (d e : Dict ℕ) (j : String)
    → contains (keys (d ++ e)) j ≡ (contains (keys d) j || contains (keys e) j)
unfolding keys
contains-append [] e j = refl
contains-append ((i, w) ∷ d) e j = ground (arith, contains-append d e j)

-- The first part of a dictionary without repetitions lacks the keys that come after it.
first_part_lacks :
    (d : Dict ℕ) (k : String) (v : ℕ) (ps : Dict ℕ)
    → IsDistinct (keys (d ++ ((k, v) ∷ ps)))
    → contains (keys d) k ≡ false
unfolding keys
first_part_lacks [] k v ps h = refl
first_part_lacks ((j, w) ∷ d) k v ps h = ground (
  arith,
  first_part_lacks d k v ps h.1,
  h.0,
  contains-append d ((k, v) ∷ ps) j,
  eq_iff j k,
  eq_refl k,
)

collect-append : (ps d : Dict ℕ) → IsDistinct (keys (d ++ ps)) → collect ps d ≡ d ++ ps
unfolding collect
collect-append [] d h = sym (append-nil d)
collect-append ((k, v) ∷ ps) d h =
    let new = put_new d k v (first_part_lacks d k v ps h) in
    let join : (d ++ ((k, v) ∷ [])) ++ ps ≡ d ++ ((k, v) ∷ ps) = append_assoc d ((k, v) ∷ []) ps in
    rw new (
      collect-append ps (d ++ ((k, v) ∷ [])) (subst (λ e. IsDistinct (keys e)) (sym join) h) ∙ join)

-- A comprehension without repeated keys has the pairs in their order.
pub collect_distinct : (ps : Dict ℕ) → IsDistinct (keys ps) → collect ps [] ≡ ps
collect_distinct ps h = collect-append ps [] h

Known-weaken :
    (j : String) (n : ℕ) (d : Dict ℕ) (ks : List String)
    → All (Known d) ks
    → All (Known ((j, n) ∷ d)) ks
unfolding keys
Known-weaken j n d [] h = tt
Known-weaken j n d (k ∷ ks) h = (ground (arith, h.0), Known-weaken j n d ks h.1)

-- Every key of a dictionary is known.
pub keys-Known : (d : Dict ℕ) → All (Known d) (keys d)
unfolding keys
keys-Known [] = tt
keys-Known ((j, n) ∷ d) = (ground (arith, eq_refl j), Known-weaken j n d (keys d) (keys-Known d))
