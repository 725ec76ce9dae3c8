-- ===== src/Verification/Obligations.antt =====
-- verification/obligation_runner.py: the checks of a population against its obligations, within a
-- budget of checks. The result of one check, `_check_one`, is an argument.
pub mod Checks
mod Tests
use cognitive_evolve.Prelude.{
  ℕ, suc, ◌+◌, ◌-◌, max, String, Bool, true, false, Option, none, some, List, [], ◌∷◌, ◌++◌, length,
  take, leb, ◌==◌, Dict, get, if◌then◌else◌,
}
use cognitive_evolve.Json.{
  Python, Value, null, object, Fields, get_field, either_field, to_int, Result, ok, err,
}
use cognitive_evolve.Verification.Minimax.{Candidate, Numbers, allocate_adversarial_budget}

-- A record of the run: an obligation past the budget, or a check with its adversarial budget and its
-- result.
pub data CheckRecord (R : Type 0) : Type 0 where
  obligation_budget_exhausted : (obligation : Fields) → CheckRecord R
  obligation_checked :
      (candidate_id : String) → (obligation : Fields) → (adversarial_budget : ℕ) → R → CheckRecord R

module _ (py : Python) where
  -- The count of a budget that is a dict, or the budget.
  budget_value : Value → Value
  budget_value (object d) = either_field py d "count" "budget"
  budget_value v = v

  -- max(1, int(value)), one where `int` raises
  at_least_one : Result ℕ → ℕ
  at_least_one (ok n) = max 1 n
  at_least_one (err e) = 1

  unfoldable pub obligation_base_budget : Fields → ℕ
  unfolding budget_value at_least_one
  obligation_base_budget d =
      at_least_one
        (to_int py (budget_value (either_field py d "falsification_budget" "adversarial_budget")))

  -- d.get(k)
  or_null : Option Value → Value
  or_null none = null
  or_null (some v) = v

  positive : Result ℕ → Option ℕ
  positive (err e) = none
  positive (ok n) = if leb n 0 then none else some n

  unfoldable pub budget_total_override : Fields → Option ℕ
  unfolding positive or_null
  budget_total_override d = positive (to_int py (or_null (get_field d "adversarial_total_budget")))

given_or : ℕ → Option ℕ → ℕ
given_or base none = base
given_or base (some k) = k

-- allocation.get(id, base_budget)
unfoldable pub budget_for : Dict ℕ → (base_budget : ℕ) → Candidate → ℕ
unfolding given_or get
budget_for allocation base c = given_or base (get allocation c.id)

module _ {R : Type 0} (py : Python) (n : Numbers) (min_budget : ℕ)
    (check_one : Candidate → Fields → (adversarial_budget : ℕ) → R) where
  -- The checks of a batch, in its order, whatever order the workers finish in.
  unfoldable pub batch_records :
      Fields → Dict ℕ → (base_budget : ℕ) → List Candidate → List (CheckRecord R)
  batch_records obligation allocation base [] = []
  batch_records obligation allocation base (c ∷ cs) =
      obligation_checked c.id obligation (budget_for allocation base c)
        (check_one c obligation (budget_for allocation base c))
      ∷ batch_records obligation allocation base cs

  unfoldable pub check_batch : Fields → List Candidate → List (CheckRecord R)
  check_batch obligation batch =
      let base = obligation_base_budget py obligation in
      let allocation =
        allocate_adversarial_budget n batch base min_budget (budget_total_override py obligation) in
      batch_records obligation allocation base batch

  -- The loop over the obligations, from the number of checks made.
  unfoldable pub run_obligations :
      (max_checks checks : ℕ) → List Candidate → List Fields → List (CheckRecord R)
  run_obligations max_checks checks candidates [] = []
  run_obligations max_checks checks candidates (o ∷ os) =
      let batch = take (max_checks - checks) candidates in
      let skipped = run_obligations max_checks checks candidates os in
      let later = run_obligations max_checks (checks + length batch) candidates os in
      if leb max_checks checks
      then obligation_budget_exhausted o ∷ skipped
      else check_batch o batch ++ later

  unfoldable pub run_obligations_for_population :
      (max_checks : ℕ) → List Candidate → List Fields → List (CheckRecord R)
  run_obligations_for_population max_checks candidates obligations =
      run_obligations max_checks 0 candidates obligations
