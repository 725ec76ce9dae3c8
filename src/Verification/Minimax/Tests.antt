-- ===== src/Verification/Minimax/Tests.antt =====
-- A budget for three candidates.
use cognitive_evolve.Prelude.{
  ◌*◌, ◌/◌, ◌%◌, ◌≡◌, refl, none, some, List, [], ◌∷◌, arith, sum, ltb, put,
}
use cognitive_evolve.Verification.Ladder.{unverified, decomposed, executable}
use cognitive_evolve.Verification.Minimax.{
  Candidate, Numbers, values, with_id, ids_of, scores_of, strengths, collect, allocated_total,
  allocate_adversarial_budget, share_out, weighted_budget, base_shares, share_order, slice_to, bump,
  bump_all, sorted, uniform_budget,
}
use cognitive_evolve.Verification.Minimax.Total.{IsExact}
use cognitive_evolve.Verification.Minimax.Budget.{allocate_total}
use cognitive_evolve.Verification.Minimax.Floor.{AboveFloor, allocate_floor}

-- Exact quotients, and shares ordered by the fraction alone.
abbrev exact_numbers : Numbers
exact_numbers = record {
  int_div = λ a b. a / b;
  key_less = λ x y. ltb (x.num % x.den * y.den) (y.num % y.den * x.den);
  text_less = λ x y. ltb 1 0;
}

exact_numbers-IsExact : IsExact exact_numbers
exact_numbers-IsExact = record { exact = λ a b p h k. refl }

abbrev candidates : List Candidate
candidates =
    record { id = "a"; strength = executable }
    ∷ record { id = ""; strength = executable }
    ∷ record { id = "b"; strength = decomposed }
    ∷ record { id = "c"; strength = unverified }
    ∷ []

program : Unit {0}
unfolding allocate_adversarial_budget share_out weighted_budget base_shares share_order slice_to
    bump bump_all sorted with_id ids_of scores_of strengths collect allocated_total values put
    uniform_budget
program = tt

shares :
    allocate_adversarial_budget exact_numbers candidates 4 1 none
    ≡ (("a", 7) ∷ ("b", 4) ∷ ("c", 1) ∷ [])
unfolding program
shares = refl

allocate_total_example :
    sum (values (allocate_adversarial_budget exact_numbers candidates 4 1 none)) ≡ 12
unfolding program
allocate_total_example =
    allocate_total exact_numbers candidates 4 1 none (omega arith) (refl, (refl, (refl, tt)))
      exact_numbers-IsExact (omega arith)

allocate_floor_example :
    AboveFloor 1 (allocate_adversarial_budget exact_numbers candidates 4 1 (some 2))
allocate_floor_example = allocate_floor exact_numbers candidates 4 1 (some 2)
