-- ===== src/Verification/Obligations/Tests.antt =====
-- Two obligations and three candidates, with four checks.
use cognitive_evolve.Prelude.{
  ◌*◌, ◌/◌, ◌%◌, ◌≡◌, refl, true, none, List, [], ◌∷◌, take, ltb, put, get,
}
use cognitive_evolve.Json.{Python, int, object, Fields, end, field, get_field, truthy}
use cognitive_evolve.Verification.Ladder.{unverified, executable}
use cognitive_evolve.Verification.Minimax.{
  Candidate, Numbers, values, with_id, ids_of, scores_of, strengths, collect, allocated_total,
  allocate_adversarial_budget, share_out, weighted_budget, base_shares, share_order, slice_to, bump,
  bump_all, sorted, uniform_budget,
}
use cognitive_evolve.Verification.Obligations.{
  obligation_budget_exhausted, obligation_checked, obligation_base_budget, budget_total_override,
  budget_for, batch_records, check_batch, run_obligations, run_obligations_for_population,
}
use cognitive_evolve.Verification.Obligations.Checks.{
  AreChecks, all_pairs, run_obligations_for_population-AreChecks,
}

abbrev plain : Python
plain = record {
  str_of = λ _. "value";
  parse_int = λ _. none;
  dict_of = λ _. none;
  is_alnum = λ _. true;
  is_space = λ _. true;
  upper = λ s. s;
  lower = λ s. s;
  sha256_json = λ _. "h";
}

abbrev numbers : Numbers
numbers = record {
  int_div = λ a b. a / b;
  key_less = λ x y. ltb (x.num % x.den * y.den) (y.num % y.den * x.den);
  text_less = λ x y. ltb 1 0;
}

abbrev population : List Candidate
population =
    record { id = "a"; strength = executable }
    ∷ record { id = "b"; strength = executable }
    ∷ record { id = "c"; strength = unverified }
    ∷ []

abbrev first : Fields
first = field "falsification_budget" (object (field "count" (int 4) end)) end

program : Unit {0}
unfolding get_field truthy get allocate_adversarial_budget share_out weighted_budget base_shares
    share_order slice_to bump bump_all sorted with_id ids_of scores_of strengths collect
    allocated_total values put uniform_budget obligation_base_budget budget_total_override
    budget_for batch_records check_batch run_obligations run_obligations_for_population
program = tt

-- The second obligation has one check left, the third none.
checks :
    run_obligations_for_population plain numbers 1
      (λ c o b. b)
      4
      population
      (first ∷ end ∷ end ∷ [])
    ≡ (obligation_checked "a" first 6 6
        ∷ obligation_checked "b" first 5 5
        ∷ obligation_checked "c" first 1 1
        ∷ obligation_checked "a" end 1 1
        ∷ obligation_budget_exhausted end
        ∷ [])
unfolding program
checks = refl

run_obligations_for_population-AreChecks_example :
    AreChecks
      (λ c o b. b)
      (run_obligations_for_population plain numbers 1
        (λ c o b. b)
        4
        population
        (first ∷ end ∷ end ∷ []))
      (take 4 (all_pairs population (first ∷ end ∷ end ∷ [])))
run_obligations_for_population-AreChecks_example =
    run_obligations_for_population-AreChecks (λ c o b. b) plain numbers 1 4 population
      (first ∷ end ∷ end ∷ [])
