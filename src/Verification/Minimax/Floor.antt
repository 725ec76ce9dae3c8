-- ===== src/Verification/Minimax/Floor.antt =====
-- Each share of verification/minimax_budget.py is at least the floor.
use cognitive_evolve.Prelude.{
  ℕ, ◌*◌, ◌≤◌, String, Option, List, [], ◌∷◌, length, sum, All, eqb, Dict, put, ◌==◌, arith,
  Bool-cases, inl, inr,
}
use cognitive_evolve.Verification.Minimax.{
  Candidate, Numbers, bump, bump_all, values, collect, with_id, ids_of, scores_of, constants,
  uniform_budget, base_shares, weighted_budget, allocated_total, share_out,
  allocate_adversarial_budget,
}

module _ (floor : ℕ) where
  -- Every value of a dictionary is at least the floor.
  unfoldable pub AboveFloor : Dict ℕ → Type 0
  AboveFloor d = All (λ n. floor ≤ n) (values d)

  AboveFloor-bump : (k : String) (d : Dict ℕ) → AboveFloor d → AboveFloor (bump k d)
  unfolding AboveFloor bump values
  AboveFloor-bump k [] h = tt
  AboveFloor-bump k ((j, n) ∷ d) h = elim (Bool-cases (j == k)) [
    | inl e ↦ rw e (omega (arith, h.0), h.1)
    | inr e ↦ rw e (h.0, AboveFloor-bump k d h.1)
  ]

  AboveFloor-bump_all : (ks : List String) (d : Dict ℕ) → AboveFloor d → AboveFloor (bump_all ks d)
  unfolding bump_all
  AboveFloor-bump_all [] d h = h
  AboveFloor-bump_all (k ∷ ks) d h = AboveFloor-bump_all ks (bump k d) (AboveFloor-bump k d h)

  AboveFloor-put :
      (k : String) (v : ℕ) (d : Dict ℕ) → floor ≤ v → AboveFloor d → AboveFloor (put d k v)
  unfolding AboveFloor put values
  AboveFloor-put k v [] p h = (p, tt)
  AboveFloor-put k v ((j, n) ∷ d) p h = elim (Bool-cases (j == k)) [
    | inl e ↦ rw e (p, h.1)
    | inr e ↦ rw e (h.0, AboveFloor-put k v d p h.1)
  ]

  AboveFloor-constants :
      (base : ℕ) (ids : List String) (d : Dict ℕ)
      → floor ≤ base
      → AboveFloor d
      → AboveFloor (collect (constants base ids) d)
  unfolding collect constants
  AboveFloor-constants base [] d p h = h
  AboveFloor-constants base (k ∷ ks) d p h =
      AboveFloor-constants base ks (put d k base) p (AboveFloor-put k base d p h)

  AboveFloor-base_shares :
      (py : Numbers) (r s : ℕ) (d : Dict ℕ) → AboveFloor (base_shares py floor r s d)
  unfolding AboveFloor base_shares values
  AboveFloor-base_shares py r s [] = tt
  AboveFloor-base_shares py r s ((k, v) ∷ d) = (omega arith, AboveFloor-base_shares py r s d)

uniform_floor :
    (py : Numbers) (ids : List String) (total floor : ℕ)
    → AboveFloor floor (uniform_budget py ids total floor)
unfolding uniform_budget AboveFloor values
uniform_floor py [] total floor = tt
uniform_floor py (k ∷ ks) total floor =
    AboveFloor-bump_all floor _ _ (AboveFloor-constants floor _ (k ∷ ks) [] (omega arith) tt)

weighted_floor :
    (py : Numbers) (total base_total floor : ℕ) (d : Dict ℕ)
    → AboveFloor floor (weighted_budget py total base_total floor d)
unfolding weighted_budget
weighted_floor py total base_total floor d =
    AboveFloor-bump_all floor _ _ (AboveFloor-base_shares floor py _ _ d)

module _ (py : Numbers) (candidates : List Candidate) (base_budget floor : ℕ)
    (total_override : Option ℕ) where
  -- No share is below the floor, whatever the candidates and the totals are.
  pub allocate_floor :
      AboveFloor floor (allocate_adversarial_budget py candidates base_budget floor total_override)
  unfolding allocate_adversarial_budget share_out
  allocate_floor =
      let ordered = with_id candidates in
      let total = allocated_total floor base_budget total_override (length ordered) in
      elim (Bool-cases (eqb (sum (values (scores_of ordered))) 0)) [
        | inl e ↦ rw e (uniform_floor py (ids_of ordered) total floor)
        | inr e ↦ rw e (weighted_floor py total (floor * length ordered) floor (scores_of ordered))
      ]
