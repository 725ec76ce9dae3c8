-- ===== src/Verification/Minimax/Budget.antt =====
-- The whole of `_allocate_adversarial_budget` of verification/minimax_budget.py.
use native.Mathlib.Nat.{mul-add, mul_comm, div-add-mod, mod-lt, mul-le-mul_left, div-mul-le_self}
use cognitive_evolve.Prelude.{
  ℕ, suc, ◌+◌, ◌-◌, ◌*◌, ◌/◌, ◌^◌, ◌≤◌, ◌<◌, max, String, ◌≡◌, refl, ap, sym, ◌∙◌, subst, Option,
  none, some, List, [], ◌∷◌, length, take, sum, All, eqb, Dict, arith, Bool-cases, inl, inr, ◌⊎◌,
}
use cognitive_evolve.Verification.Minimax.{
  Candidate, Numbers, sorted, values, keys, collect, with_id, ids_of, strengths, scores_of,
  constants, uniform_budget, base_shares, slice_to, share_order, weighted_budget, allocated_total,
  share_out, allocate_adversarial_budget,
}
use cognitive_evolve.Verification.Minimax.Shares.{
  All-sorted, length-sorted, Known, IsDistinct, collect_distinct, keys-Known,
}
use cognitive_evolve.Verification.Minimax.Total.{
  IsExact, quotients, quotients-le, rest-le, sum-base_shares, keys-base_shares, length-share_order,
  share_order-Known, topped_up,
}

sum-constants :
    (base : ℕ) (ids : List String) → sum (values (constants base ids)) ≡ base * length ids
unfolding constants values
sum-constants base [] = omega arith
sum-constants base (k ∷ ks) = omega (arith, sum-constants base ks, mul-add base 1 (length ks))

keys-constants : (base : ℕ) (ids : List String) → keys (constants base ids) ≡ ids
unfolding constants keys
keys-constants base [] = refl
keys-constants base (k ∷ ks) = ap {B = List String} (λ js. k ∷ js) (keys-constants base ks)

keys-strengths : (cs : List Candidate) → keys (strengths cs) ≡ ids_of cs
unfolding strengths keys ids_of
keys-strengths [] = refl
keys-strengths (c ∷ cs) = ap {B = List String} (λ js. c.id ∷ js) (keys-strengths cs)

length-strengths : (cs : List Candidate) → length (strengths cs) ≡ length cs
unfolding strengths
length-strengths [] = refl
length-strengths (c ∷ cs) = ap suc (length-strengths cs)

length-ids_of : (cs : List Candidate) → length (ids_of cs) ≡ length cs
unfolding ids_of
length-ids_of [] = refl
length-ids_of (c ∷ cs) = ap suc (length-ids_of cs)

max_cases : (a b : ℕ) → ((max a b ≡ a) × (b ≤ a)) ⊎ ((max a b ≡ b) × (a ≤ b))
max_cases a b = ground arith

-- The uniform part never exceeds the total, and falls short of it by less than one a candidate.
uniform_base :
    (n total floor : ℕ)
    → 0 < n
    → floor * n ≤ total
    → (max floor (total / n) * n ≤ total) × (total ≤ max floor (total / n) * n + n)
uniform_base n total floor p h =
    let q = total / n in
    let below : q * n ≤ total = div-mul-le_self total n in
    let above : total ≤ q * n + n =
      omega (arith, div-add-mod total n, mod-lt total p, mul_comm n q) in
    elim (max_cases floor q) [
      | inl (e, le) ↦ rw e (
        h,
        omega (
          arith,
          above,
          mul-le-mul_left {m = q} {n = floor} n le,
          mul_comm n q,
          mul_comm n floor,
        ),
      )
      | inr (e, le) ↦ rw e (below, above)
    ]

-- The uniform budget of distinct ids.
uniform_total :
    (py : Numbers) (ids : List String) (total floor : ℕ)
    → 0 < length ids
    → IsDistinct ids
    → floor * length ids ≤ total
    → sum (values (uniform_budget py ids total floor)) ≡ total
unfolding uniform_budget
uniform_total py [] total floor p distinct h = omega (arith, p)
uniform_total py (k ∷ ks) total floor p distinct h =
    let ids = k ∷ ks in
    let base = max floor (total / length ids) in
    let names : keys (constants base ids) ≡ ids = keys-constants base ids in
    let same : collect (constants base ids) [] ≡ constants base ids =
      collect_distinct (constants base ids) (subst IsDistinct (sym names) distinct) in
    let amount = sum-constants base ids in
    let (low, high) = uniform_base (length ids) total floor p h in
    rw same (
      topped_up total (constants base ids) (sorted py.text_less ids)
        (All-sorted _ py.text_less ids
          (subst (All (Known (constants base ids))) names (keys-Known (constants base ids))))
        (omega (arith, amount, low)) (omega (arith, amount, high, length-sorted py.text_less ids)))

slice_to-le {ℓ} :
    {A : Type ℓ} (total used : ℕ) (xs : List A)
    → used ≤ total
    → slice_to total used xs ≡ take (total - used) xs
unfolding slice_to
slice_to-le total used xs h = ground arith

weighted_total :
    (py : Numbers) (total floor : ℕ) (d : Dict ℕ)
    → IsExact py
    → 0 < sum (values d)
    → floor * length d ≤ total
    → (total + 1) * sum (values d) < 2 ^ 53
    → sum (values (weighted_budget py total (floor * length d) floor d)) ≡ total
unfolding weighted_budget
weighted_total py total floor d x p h k =
    let s = sum (values d) in
    let r = total - floor * length d in
    let out = base_shares py floor r s d in
    let grown : s * (r + 1) ≤ s * (total + 1) =
      mul-le-mul_left {m = r + 1} {n = total + 1} s (omega arith) in
    let small : r * s + s < 2 ^ 53 =
      omega (arith, grown, k, mul-add s r 1, mul_comm s (total + 1), mul_comm s r) in
    let amount : sum (values out) ≡ floor * length d + quotients r s d =
      sum-base_shares py floor r s d x p (omega (arith, small)) (omega arith)
        (omega (arith, small)) in
    let low : sum (values out) ≤ total = omega (arith, amount, quotients-le r d p, h) in
    rw (slice_to-le total (sum (values out)) (share_order py r s d) low) (
      topped_up total out (share_order py r s d)
        (share_order-Known py r s d out (keys-base_shares py floor r s d)) low
        (omega (arith, amount, rest-le r d p, length-share_order py r s d)))

floor-allocated_total :
    (floor base_budget : ℕ) (total_override : Option ℕ) (n : ℕ)
    → floor * n ≤ allocated_total floor base_budget total_override n
unfolding allocated_total
floor-allocated_total floor base_budget none n = omega arith
floor-allocated_total floor base_budget (some t) n = omega arith

module _ (py : Numbers) (candidates : List Candidate) (base_budget floor : ℕ)
    (total_override : Option ℕ) where
  -- If some candidate has an id, no two of those have the same id and the numbers are small enough
  -- for exact float quotients, then the shares add up to the total budget exactly.
  pub allocate_total :
      0 < length (with_id candidates)
      → IsDistinct (ids_of (with_id candidates))
      → IsExact py
      → (allocated_total floor base_budget total_override (length (with_id candidates)) + 1)
          * sum (values (scores_of (with_id candidates)))
        < 2 ^ 53
      → sum (values (allocate_adversarial_budget py candidates base_budget floor total_override))
        ≡ allocated_total floor base_budget total_override (length (with_id candidates))
  unfolding allocate_adversarial_budget share_out scores_of
  allocate_total some_id distinct exact small =
      let ordered = with_id candidates in
      let total = allocated_total floor base_budget total_override (length ordered) in
      let enough : floor * length ordered ≤ total =
        floor-allocated_total floor base_budget total_override (length ordered) in
      let d = collect (strengths ordered) [] in
      let same : d ≡ strengths ordered =
        collect_distinct (strengths ordered)
          (subst IsDistinct (sym (keys-strengths ordered)) distinct) in
      let size : length d ≡ length ordered = ap length same ∙ length-strengths ordered in
      elim (Bool-cases (eqb (sum (values d)) 0)) [
        | inl e ↦ rw e (
            uniform_total py (ids_of ordered) total floor
              (omega (arith, some_id, length-ids_of ordered)) distinct
              (rw (length-ids_of ordered) enough))
        | inr e ↦
            rw (e, sym size)
              (weighted_total py (allocated_total floor base_budget total_override (length d)) floor
                d exact (ground arith)
                (floor-allocated_total floor base_budget total_override (length d)) (rw size small))
      ]
