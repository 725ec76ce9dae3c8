-- ===== src/Verification/Obligations/Checks.antt =====
-- Which checks verification/obligation_runner.py makes within its budget.
use cognitive_evolve.Prelude.{
  ℕ, zero, suc, ◌+◌, ◌-◌, ◌≡◌, refl, ap, sym, ◌∙◌, subst, List, [], ◌∷◌, ◌++◌, length, take, leb,
  leb→le, Dict, arith, Bool-cases, inl, inr,
}
use cognitive_evolve.Json.{Python, Fields}
use cognitive_evolve.Verification.Minimax.{Candidate, Numbers}
use cognitive_evolve.Verification.Obligations.{
  CheckRecord, obligation_budget_exhausted, obligation_checked, batch_records, check_batch,
  run_obligations, run_obligations_for_population,
}

-- The pairs to check: every candidate for the first obligation, then for the next one.
unfoldable pub pairs_for : Fields → List Candidate → List (Fields × Candidate)
pairs_for o [] = []
pairs_for o (c ∷ cs) = (o, c) ∷ pairs_for o cs

unfoldable pub all_pairs : List Candidate → List Fields → List (Fields × Candidate)
all_pairs cs [] = []
all_pairs cs (o ∷ os) = pairs_for o cs ++ all_pairs cs os

take-nothing : {A : Type 0} (xs : List A) → take 0 xs ≡ []
take-nothing [] = refl
take-nothing (x ∷ xs) = refl

take-none : {A : Type 0} (limit : ℕ) → take {A = A} limit [] ≡ []
take-none zero = refl
take-none (suc limit) = refl

-- A budget that runs through one obligation and on into the next ones.
take-pairs_for :
    (limit : ℕ) (o : Fields) (cs : List Candidate) (rest : List (Fields × Candidate))
    → take limit (pairs_for o cs ++ rest)
      ≡ pairs_for o (take limit cs) ++ take (limit - length (take limit cs)) rest
unfolding pairs_for
take-pairs_for zero o [] rest = refl
take-pairs_for zero o (c ∷ cs) rest = sym (take-nothing rest)
take-pairs_for (suc limit) o [] rest =
    let k : suc limit ≡ suc limit - 0 = omega arith in ap (λ j. take j rest) k
take-pairs_for (suc limit) o (c ∷ cs) rest =
    let left : limit - length (take limit cs) ≡ suc limit - suc (length (take limit cs)) =
      omega arith in
    ap (λ l. (o, c) ∷ l) (take-pairs_for limit o cs rest)
    ∙ ap (λ k. (o, c) ∷ (pairs_for o (take limit cs) ++ take k rest)) left

module _ {R : Type 0} (check_one : Candidate → Fields → (adversarial_budget : ℕ) → R) where
  -- The checks among the records are these pairs in this order, each with the result of the check
  -- of its own candidate and obligation.
  unfoldable pub AreChecks : List (CheckRecord R) → List (Fields × Candidate) → Type 0
  AreChecks [] [] = Unit
  AreChecks [] (p ∷ ps) = ⊥
  AreChecks (obligation_budget_exhausted o ∷ rs) ps = AreChecks rs ps
  AreChecks (obligation_checked id o b r ∷ rs) [] = ⊥
  AreChecks (obligation_checked id o b r ∷ rs) (p ∷ ps) =
      (id ≡ p.1.id) × (o ≡ p.0) × (r ≡ check_one p.1 p.0 b) × AreChecks rs ps

  AreChecks-append :
      (rs ss : List (CheckRecord R)) (ps qs : List (Fields × Candidate))
      → AreChecks rs ps
      → AreChecks ss qs
      → AreChecks (rs ++ ss) (ps ++ qs)
  unfolding AreChecks
  AreChecks-append [] ss [] qs h k = k
  AreChecks-append [] ss (p ∷ ps) qs h k = absurd h
  AreChecks-append (obligation_budget_exhausted o ∷ rs) ss ps qs h k =
      AreChecks-append rs ss ps qs h k
  AreChecks-append (obligation_checked id o b r ∷ rs) ss [] qs h k = absurd h
  AreChecks-append (obligation_checked id o b r ∷ rs) ss (p ∷ ps) qs (i, e, t, h) k =
      (i, e, t, AreChecks-append rs ss ps qs h k)

  module _ (py : Python) (n : Numbers) (min_budget : ℕ) where
    batch_records-AreChecks :
        (o : Fields) (allocation : Dict ℕ) (base : ℕ) (cs : List Candidate)
        → AreChecks (batch_records py n min_budget check_one o allocation base cs) (pairs_for o cs)
    unfolding batch_records AreChecks pairs_for
    batch_records-AreChecks o allocation base [] = tt
    batch_records-AreChecks o allocation base (c ∷ cs) =
        (refl, refl, refl, batch_records-AreChecks o allocation base cs)

    check_batch-AreChecks :
        (o : Fields) (cs : List Candidate)
        → AreChecks (check_batch py n min_budget check_one o cs) (pairs_for o cs)
    unfolding check_batch
    check_batch-AreChecks o cs = batch_records-AreChecks o _ _ cs

    run_obligations-AreChecks :
        (limit checks : ℕ) (cs : List Candidate) (os : List Fields)
        → AreChecks
            (run_obligations py n min_budget check_one limit checks cs os)
            (take (limit - checks) (all_pairs cs os))
    unfolding run_obligations AreChecks all_pairs
    run_obligations-AreChecks limit checks cs [] =
        subst (AreChecks []) (sym (take-none (limit - checks))) tt
    run_obligations-AreChecks limit checks cs (o ∷ os) = elim (Bool-cases (leb limit checks)) [
      | inl e ↦
          let nothing : limit - checks ≡ 0 = omega (arith, leb→le _ _ e) in
          let skipped = run_obligations py n min_budget check_one limit checks cs os in
          let same : take (limit - checks) (all_pairs cs os)
              ≡ take (limit - checks) (pairs_for o cs ++ all_pairs cs os) =
            ap (λ k. take k (all_pairs cs os)) nothing
            ∙ take-nothing (all_pairs cs os)
            ∙ sym (take-nothing (pairs_for o cs ++ all_pairs cs os))
            ∙ sym (ap (λ k. take k (pairs_for o cs ++ all_pairs cs os)) nothing) in
          rw e (subst (AreChecks skipped) same (run_obligations-AreChecks limit checks cs os))
      | inr e ↦
          let batch = take (limit - checks) cs in
          let made = check_batch py n min_budget check_one o batch in
          let later =
            run_obligations py n min_budget check_one limit (checks + length batch) cs os in
          let left : limit - (checks + length batch) ≡ limit - checks - length batch =
            omega arith in
          let rest = take (limit - checks - length batch) (all_pairs cs os) in
          let checked_later : AreChecks later rest =
            subst (λ k. AreChecks later (take k (all_pairs cs os))) left
              (run_obligations-AreChecks limit (checks + length batch) cs os) in
          rw e (
            subst (AreChecks (made ++ later))
              (sym (take-pairs_for (limit - checks) o cs (all_pairs cs os)))
              (AreChecks-append made later (pairs_for o batch) rest (check_batch-AreChecks o batch)
                checked_later))
    ]

    -- The runner checks every candidate against every obligation, obligation by obligation and in
    -- the order of the population, until the budget of checks is spent: the records that are checks
    -- are the first `max_checks` of these pairs, each with the candidate's id, the obligation and
    -- the result of checking just this candidate against it.
    pub run_obligations_for_population-AreChecks :
        (max_checks : ℕ) (cs : List Candidate) (os : List Fields)
        → AreChecks
            (run_obligations_for_population py n min_budget check_one max_checks cs os)
            (take max_checks (all_pairs cs os))
    unfolding run_obligations_for_population
    run_obligations_for_population-AreChecks max_checks cs os =
        subst
          (λ k.
            AreChecks (run_obligations py n min_budget check_one max_checks 0 cs os)
              (take k (all_pairs cs os)))
          (omega arith) (run_obligations-AreChecks max_checks 0 cs os)
