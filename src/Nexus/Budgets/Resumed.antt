-- ===== src/Nexus/Budgets/Resumed.antt =====
-- What a resumed budget of nexus/budget_factory.py leaves to run.
use cognitive_evolve.Prelude.{
  ℕ, ◌<◌, ◌≡◌, refl, subst, String, Bool, true, false, ◌||◌, Option, none, some, [], max,
  if◌then◌else◌, arith,
}
use cognitive_evolve.Json.{Result, ok, err}
use cognitive_evolve.Nexus.Loop.{Phase, EvolutionBudget, round_limit, or_int}
use cognitive_evolve.Nexus.Budgets.{
  BudgetData, resume_evolution_budget, fresh_budget, with_phase, phase_named, target_rounds,
  or_text, resumed_budget,
}

unfoldable pub is_given : Option ℕ → Bool
is_given none = false
is_given (some n) = true

OkImplies : (EvolutionBudget → Type 0) → Result EvolutionBudget → Type 0
OkImplies P (ok b) = P b
OkImplies P (err e) = Unit

IsResumed : ℕ → EvolutionBudget → Type 0
IsResumed current b = (b.current_round ≡ current) × (current < round_limit b) × (b.history ≡ [])

target_lem :
    (current limit : ℕ) (d : BudgetData) (rounds : Option ℕ)
    → (is_given rounds || d.adaptive) ≡ true
    → current < target_rounds current limit d rounds
unfolding target_rounds is_given
target_lem current limit d (some n) h = omega arith
target_lem current limit d none h = rw h (omega arith)

with_phase_lem :
    (P : EvolutionBudget → Type 0) (b : EvolutionBudget) (p : Result Phase)
    → ((q : Phase) → P (record b { search_phase = q }))
    → OkImplies P (with_phase b p)
unfolding with_phase OkImplies
with_phase_lem P b (ok q) h = h q
with_phase_lem P b (err e) h = tt

limit_lem :
    (current target n : ℕ) (adaptive : Bool)
    → current < target
    → current < (
        if adaptive
        then max 1 (or_int (if adaptive then target else n) (or_int target 1))
        else max 1 (or_int target 1))
limit_lem current target n true h = ground arith
limit_lem current target n false h = ground arith

resumed_lem :
    (clean : String → String) (current limit : ℕ) (d : BudgetData) (rounds : Option ℕ)
    → (is_given rounds || d.adaptive) ≡ true
    → OkImplies (IsResumed current) (resume_evolution_budget clean current limit d rounds)
unfolding resume_evolution_budget IsResumed round_limit resumed_budget fresh_budget
resumed_lem clean current limit d rounds h =
    let target = target_rounds current limit d rounds in
    with_phase_lem (IsResumed current) (resumed_budget current limit d rounds)
      (phase_named clean (or_text d.search_phase "explore"))
      (λ q.
        (refl, limit_lem current target _ d.adaptive (target_lem current limit d rounds h), refl))

-- A budget resumed with a limit of rounds, or an adaptive one, starts at the checkpoint's round with
-- no history, and has at least one round left to run.
pub resume_evolution_budget_lem :
    (clean : String → String) (current limit : ℕ) (d : BudgetData) (rounds : Option ℕ)
    (b : EvolutionBudget)
    → (is_given rounds || d.adaptive) ≡ true
    → resume_evolution_budget clean current limit d rounds ≡ ok b
    → (b.current_round ≡ current) × (current < round_limit b) × (b.history ≡ [])
unfolding OkImplies IsResumed
resume_evolution_budget_lem clean current limit d rounds b h r =
    subst (OkImplies (IsResumed current)) r (resumed_lem clean current limit d rounds h)
