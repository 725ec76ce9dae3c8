-- ===== src/Nexus/Stop/Reasons.antt =====
-- nexus/stop_reasons.py: the stop reasons, and what the code asks of Python to read them.
use cognitive_evolve.Prelude.{String, Bool, not, ◌||◌, Option, ◌==◌, if◌then◌else◌}
use cognitive_evolve.Json.{Python, Value, text, truthy, str, or_else}

-- `str.strip`; `underscored` is `replace("-", "_").replace(" ", "_")`, and `has`
-- is the test `part in text`.
pub record Words : Type 0 where
  pub python : Python
  pub strip : String → String
  pub underscored : String → String
  pub has : (part text : String) → Bool

abbrev pub candidate_ready_for_external_review : String
candidate_ready_for_external_review = "candidate_ready_for_external_review"

abbrev pub diminishing_returns_checkpoint : String
diminishing_returns_checkpoint = "diminishing_returns_checkpoint"

-- EXTERNAL_REVIEW_STOP_REASONS
unfoldable pub is_review_reason : String → Bool
is_review_reason s =
    (s == candidate_ready_for_external_review) || (s == diminishing_returns_checkpoint)

-- aliases.get(text, text)
unfoldable pub alias : String → String
alias s =
    if s == "ready_for_external_review"
      || (s == "candidate_ready" || (s == "external_review_ready" || (s == "human_review_ready")))
    then candidate_ready_for_external_review
    else if s == "diminishing_returns"
        || (s == "low_marginal_gain_checkpoint" || (s == "low_expected_gain_checkpoint"))
    then diminishing_returns_checkpoint
    else s

module _ (w : Words) where
  -- str(value or "").strip().lower()
  unfoldable pub lowered : Option Value → String
  unfolding truthy
  lowered value = w.python.lower (w.strip (str w.python (or_else w.python value (text ""))))

  unfoldable pub normalize_external_review_stop_reason : Option Value → String
  unfolding is_review_reason alias
  normalize_external_review_stop_reason value =
      let name = alias (w.underscored (lowered value)) in if is_review_reason name then name else ""

  unfoldable pub is_external_review_stop_reason : Option Value → Bool
  is_external_review_stop_reason value = not (normalize_external_review_stop_reason value == "")

  unfoldable pub is_solved_stop_reason : Option Value → Bool
  is_solved_stop_reason value =
      (lowered value == "objective_solved")
      || ((lowered value == "verified_solution")
          || ((lowered value == "self_observed_convergence")
              || (lowered value == "self_observed_stable_best_candidate")))

  unfoldable pub stop_reason_class : Option Value → String
  stop_reason_class value =
      let reason = lowered value in
      if reason == candidate_ready_for_external_review
      then "goal_reached"
      else if (reason == diminishing_returns_checkpoint)
          || ((reason == "adaptive_safety_checkpoint") || (reason == "max_rounds"))
      then "stagnation_exhausted"
      else ""
