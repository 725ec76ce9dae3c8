-- ===== src/Verification/Minimax/Total.antt =====
-- The shares that verification/minimax_budget.py gives out add up to the total budget.
use native.Mathlib.Nat.{
  mul-add, mul_comm, div-add-mod, mod-lt, mul-le-mul_left, le_of_mul-le-mul_left,
}
use cognitive_evolve.Prelude.{
  ℕ, suc, ◌+◌, ◌-◌, ◌*◌, ◌/◌, ◌%◌, ◌^◌, ◌≤◌, ◌<◌, String, ◌≡◌, refl, ap, ◌∙◌, subst, true, List, [],
  ◌∷◌, length, take, length-take, sum, All, Dict, arith,
}
use cognitive_evolve.Verification.Minimax.{
  ShareKey, Numbers, bump_all, values, keys, base_shares, share_keys, key_ids, share_order,
}
use cognitive_evolve.Verification.Minimax.Shares.{
  All-sorted, All-take, length-sorted, Known, sum-bump_all, keys-Known,
}

-- Below 2^53 the truncated quotient of a float division is the quotient.
pub record IsExact (py : Numbers) : Type 0 where
  pub exact : (a b : ℕ) → 0 < b → a < 2 ^ 53 → b < 2 ^ 53 → py.int_div a b ≡ a / b

module _ (r s : ℕ) where
  -- The truncated parts of r * value / s, and what the truncation loses, in units of 1 / s.
  unfoldable pub quotients : Dict ℕ → ℕ
  quotients [] = 0
  quotients ((k, v) ∷ d) = r * v / s + quotients d

  losses : Dict ℕ → ℕ
  losses [] = 0
  losses ((k, v) ∷ d) = (r * v) % s + losses d

  quotients-losses : (d : Dict ℕ) → s * quotients d + losses d ≡ r * sum (values d)
  unfolding quotients losses values
  quotients-losses [] = omega arith
  quotients-losses ((k, v) ∷ d) = omega (
    arith,
    quotients-losses d,
    div-add-mod (r * v) s,
    mul-add s (r * v / s) (quotients d),
    mul-add r v (sum (values d)),
  )

  losses-le : 0 < s → (d : Dict ℕ) → losses d ≤ s * length d
  unfolding losses
  losses-le p [] = omega arith
  losses-le p ((k, v) ∷ d) = omega (arith, losses-le p d, mod-lt (r * v) p, mul-add s 1 (length d))

-- Truncation loses less than one for each share.
module _ (r : ℕ) (d : Dict ℕ) (p : 0 < sum (values d)) where
  pub quotients-le : quotients r (sum (values d)) d ≤ r
  quotients-le =
      let s = sum (values d) in
      le_of_mul-le-mul_left {k = s} (omega (arith, quotients-losses r s d, mul_comm r s)) p

  pub rest-le : r ≤ quotients r (sum (values d)) d + length d
  rest-le =
      let s = sum (values d) in
      le_of_mul-le-mul_left {k = s}
        (omega (
          arith,
          quotients-losses r s d,
          losses-le r s p d,
          mul_comm r s,
          mul-add s (quotients r s d) (length d),
        ))
        p

entry-le : (v : ℕ) (d : Dict ℕ) (m : ℕ) → v + sum (values d) ≤ m → v ≤ m
entry-le v d m h = omega arith

pub sum-base_shares :
    (py : Numbers) (floor r s : ℕ) (d : Dict ℕ)
    → IsExact py
    → 0 < s
    → s < 2 ^ 53
    → sum (values d) ≤ s
    → r * s < 2 ^ 53
    → sum (values (base_shares py floor r s d)) ≡ floor * length d + quotients r s d
unfolding base_shares quotients values
sum-base_shares py floor r s [] x p q h k = omega arith
sum-base_shares py floor r s ((j, v) ∷ d) x p q h k =
    let bound : r * v ≤ r * s = mul-le-mul_left {m = v} {n = s} r (omega (arith, h)) in
    let rest : sum (values d) ≤ s = omega (arith, h) in
    omega (
      arith,
      x.exact (r * v) s p (omega (arith, bound, k)) q,
      sum-base_shares py floor r s d x p q rest k,
      mul-add floor 1 (length d),
    )

pub keys-base_shares :
    (py : Numbers) (floor r s : ℕ) (d : Dict ℕ) → keys (base_shares py floor r s d) ≡ keys d
unfolding base_shares keys
keys-base_shares py floor r s [] = refl
keys-base_shares py floor r s ((k, v) ∷ d) =
    ap {B = List String} (λ ks. k ∷ ks) (keys-base_shares py floor r s d)

module _ {κ} (P : String → Type κ) where
  All-share_keys : (r s : ℕ) (d : Dict ℕ) → All P (keys d) → All (λ t. P t.cid) (share_keys r s d)
  unfolding share_keys keys
  All-share_keys r s [] h = tt
  All-share_keys r s ((k, v) ∷ d) h = (h.0, All-share_keys r s d h.1)

  All-key_ids : (ts : List ShareKey) → All (λ t. P t.cid) ts → All P (key_ids ts)
  unfolding key_ids
  All-key_ids [] h = tt
  All-key_ids (t ∷ ts) h = (h.0, All-key_ids ts h.1)

length-key_ids : (ts : List ShareKey) → length (key_ids ts) ≡ length ts
unfolding key_ids
length-key_ids [] = refl
length-key_ids (t ∷ ts) = ap suc (length-key_ids ts)

length-share_keys : (r s : ℕ) (d : Dict ℕ) → length (share_keys r s d) ≡ length d
unfolding share_keys
length-share_keys r s [] = refl
length-share_keys r s ((k, v) ∷ d) = ap suc (length-share_keys r s d)

pub length-share_order :
    (py : Numbers) (r s : ℕ) (d : Dict ℕ) → length (share_order py r s d) ≡ length d
unfolding share_order
length-share_order py r s d =
    length-key_ids _
    ∙ length-sorted (λ x y. py.key_less y x) (share_keys r s d)
    ∙ length-share_keys r s d

pub share_order-Known :
    (py : Numbers) (r s : ℕ) (d e : Dict ℕ) → keys e ≡ keys d → All (Known e) (share_order py r s d)
unfolding share_order
share_order-Known py r s d e same = All-key_ids (Known e) _ (
    All-sorted _ (λ x y. py.key_less y x) (share_keys r s d)
      (All-share_keys (Known e) r s d (subst (All (Known e)) same (keys-Known e))))

-- Topping up known entries one by one reaches the total.
pub topped_up :
    (total : ℕ) (out : Dict ℕ) (order : List String)
    → All (Known out) order
    → sum (values out) ≤ total
    → total ≤ sum (values out) + length order
    → sum (values (bump_all (take (total - sum (values out)) order) out)) ≡ total
topped_up total out order known low high =
    let n = total - sum (values out) in
    omega (
      arith,
      sum-bump_all (take n order) out (All-take (Known out) (λ x y. true) n order known),
      length-take n order,
      low,
      high,
    )
