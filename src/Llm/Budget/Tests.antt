-- ===== src/Llm/Budget/Tests.antt =====
-- A budget of ten micro-dollars.
use cognitive_evolve.Prelude.{ℕ, ◌≤◌, ◌≡◌, refl, true, false, some, List, [], ◌∷◌, sum, max}
use cognitive_evolve.Json.{err, raised}
use cognitive_evolve.Llm.Budget.{
  CallEvent, record_event, costs, charge, largest, reserve, release, call_at, mark_at, without,
  Action, starts, records, ends, admitted, recorded, ended, act, acts, new_flight, within,
  is_expected, are_expected, total_estimated_cost, enforce_budget,
}
use cognitive_evolve.Llm.Budget.Sums.{reserved}
use cognitive_evolve.Llm.Budget.Reserved.{acts-reserved}

abbrev priced_event : ℕ → CallEvent
priced_event cost = record {
  estimated_cost = some cost;
  cache_replayed = false;
  physical_call_id = "p";
}

-- An unpriced call keeps others out until it ends; then two calls run side by side.
abbrev trace : List Action
trace =
    starts
    ∷ starts
    ∷ records 0 (priced_event 3)
    ∷ ends 0
    ∷ starts
    ∷ starts
    ∷ starts
    ∷ records 1 (priced_event 3)
    ∷ ends 0
    ∷ starts
    ∷ []

program : Unit {0}
unfolding record_event costs charge largest reserve release call_at mark_at without admitted
    recorded ended act acts within is_expected are_expected reserved total_estimated_cost
    enforce_budget
program = tt

-- One call is in flight at the end: a third beside the two would not fit.
at_end : (acts 10 trace new_flight).session.budget_reservation ≡ 3
unfolding program
at_end = refl

-- The same physical call is counted once.
counted_once : total_estimated_cost (acts 10 trace new_flight).session ≡ 3
unfolding program
counted_once = refl

-- Before a call, the budget is exhausted when it is reached.
is_over :
    enforce_budget (some 3) true (acts 10 trace new_flight).session
    ≡ err (raised "LLMResponseError" "LLM cost budget")
unfolding program
is_over = refl

acts-reserved_example :
    (sum (costs (acts 10 trace new_flight).session.events) ≤ max 10 4)
    × ((acts 10 trace new_flight).session.budget_reservation
        ≡ reserved (acts 10 trace new_flight).calls)
unfolding program
acts-reserved_example = acts-reserved 10 4 trace refl
