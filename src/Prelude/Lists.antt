-- ===== src/Prelude/Lists.antt =====
-- Lists measured by native numbers, under the library's names, and predicates on their members.
use Prim.Native.Nat.{ℕ, zero, suc, ◌+◌, ◌-◌, min}
use Prim.Native.String.{String}
use mathlib.Core.Path.{◌≡◌, refl, ap}
use mathlib.Core.Bool.{Bool, false, ◌||◌}
use mathlib.Core.List.{List, [], ◌∷◌, ◌++◌, map}
use native.Mathlib.Omega.{arith}
use text.Mathlib.Text.{◌==◌}
use cognitive_evolve.Prelude.Bools.{if◌then◌else◌}

module _ {ℓ} {A : Type ℓ} where
  abbrev pub length : List A → ℕ
  length [] = 0
  length (x ∷ xs) = suc (length xs)

  abbrev pub take : ℕ → List A → List A
  take zero xs = []
  take (suc n) [] = []
  take (suc n) (x ∷ xs) = x ∷ take n xs

  abbrev pub drop : ℕ → List A → List A
  drop zero xs = xs
  drop (suc n) [] = []
  drop (suc n) (x ∷ xs) = drop n xs

  abbrev pub All {κ} : (A → Type κ) → List A → Type κ
  All P [] = Unit
  All P (x ∷ xs) = P x × All P xs

  -- The items that pass a Boolean test, as in a comprehension.
  abbrev pub keep : (A → Bool) → List A → List A
  keep p [] = []
  keep p (x ∷ xs) = let rest = keep p xs in if p x then x ∷ rest else rest

  abbrev pub count : (A → Bool) → List A → ℕ
  count p [] = 0
  count p (x ∷ xs) = let rest = count p xs in if p x then suc rest else rest

  pub length-append : (xs ys : List A) → length (xs ++ ys) ≡ length xs + length ys
  length-append [] ys = omega arith
  length-append (x ∷ xs) ys = omega (arith, length-append xs ys)

  pub length-take : (n : ℕ) (xs : List A) → length (take n xs) ≡ min n (length xs)
  length-take zero xs = omega arith
  length-take (suc n) [] = omega arith
  length-take (suc n) (x ∷ xs) = omega (arith, length-take n xs)

  pub length-drop : (n : ℕ) (xs : List A) → length (drop n xs) ≡ length xs - n
  length-drop zero xs = omega arith
  length-drop (suc n) [] = omega arith
  length-drop (suc n) (x ∷ xs) = omega (arith, length-drop n xs)

pub length-map {ℓ κ} :
    {A : Type ℓ} {B : Type κ} (f : A → B) (xs : List A) → length (map f xs) ≡ length xs
length-map f [] = refl
length-map f (x ∷ xs) = ap suc (length-map f xs)

pub count_none {ℓ} :
    {A : Type ℓ} (p : A → Bool) (xs : List A) → All (λ x. p x ≡ false) xs → count p xs ≡ 0
count_none p [] h = refl
count_none p (x ∷ xs) h = rw (h.0, count_none p xs h.1)

pub All-map {ℓ κ μ} :
    {A : Type ℓ} (P : A → Type κ) (Q : A → Type μ) (xs : List A)
    → ((x : A) → P x → Q x)
    → All P xs
    → All Q xs
All-map P Q [] f h = tt
All-map P Q (x ∷ xs) f h = (f x h.0, All-map P Q xs f h.1)

abbrev pub sum : List ℕ → ℕ
sum [] = 0
sum (x ∷ xs) = x + sum xs

pub sum-append : (xs ys : List ℕ) → sum (xs ++ ys) ≡ sum xs + sum ys
sum-append [] ys = omega arith
sum-append (x ∷ xs) ys = omega (arith, sum-append xs ys)

abbrev pub contains : List String → String → Bool
contains [] s = false
contains (x ∷ xs) s = (x == s) || contains xs s
