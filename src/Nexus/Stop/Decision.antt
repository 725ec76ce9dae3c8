-- ===== src/Nexus/Stop/Decision.antt =====
-- nexus/stop_decision.py: the stop reason after a round.
use cognitive_evolve.Prelude.{
  ℕ, String, Bool, true, false, not, ◌&&◌, ◌||◌, Option, none, some, List, [], ◌∷◌, ltb, max, ◌==◌,
  if◌then◌else◌,
}
use cognitive_evolve.Json.{
  Value, bool, null, object, Fields, get_field, truthy, or_else, Result, ok, err, Error,
}
use cognitive_evolve.Nexus.Stop.Reasons.{
  Words, candidate_ready_for_external_review, diminishing_returns_checkpoint,
  normalize_external_review_stop_reason,
}
use cognitive_evolve.Nexus.Stop.Adaptive.{
  Floats, Diagnosis, Policy, text_of, adaptive_stagnation_exhausted,
}

-- What is read of the `EvolutionBudget`.
pub record Settings : Type 0 where
  pub stop_policy : String
  pub min_rounds_before_stop : ℕ
  pub adaptive : Bool
  pub history : List Value

-- What the model's `should_stop` does: the model has no such method, or it answers, or it raises a
-- model-boundary error, which is one of quota or not.
pub data Answer : Type 0 where
  no_stop_model : Answer
  decided : Fields → Answer
  flag : Bool → Answer
  raises : (is_quota : Bool) → Error → Answer

module _ (w : Words) where
  has_any : List String → String → String → Bool
  has_any [] s t = false
  has_any (x ∷ xs) s t = w.has x s || (w.has x t || has_any xs s t)

  nested : Option Value → String → String
  nested (some (object d)) key = text_of w.python (get_field d key)
  nested _ key = ""

  -- item[outer][inner] as a text, "" where it is missing
  inner_text : (outer inner : String) → Value → String
  unfolding nested
  inner_text outer inner (object item) = nested (get_field item outer) inner
  inner_text outer inner _ = ""

  -- Is the last round's best answer the current one, and its diagnosis quiet?
  is_stable : (best : String) → Value → Bool
  unfolding inner_text
  is_stable best item =
      (inner_text "ranking" "best_final_answer_id" item == best)
      && ((w.python.lower (inner_text "diagnosis" "stagnation_type" item) == "none")
          || (w.python.lower (inner_text "diagnosis" "stagnation_type" item) == "converged"))

  is_item : Value → Bool
  is_item (object d) = true
  is_item _ = false

  -- Are there two last entries of the history, and both stable?
  last_two : (best : String) → List Value → Bool
  unfolding is_stable
  last_two best [] = false
  last_two best (x ∷ []) = false
  last_two best (x ∷ y ∷ []) = is_stable best x && is_stable best y
  last_two best (x ∷ y ∷ z ∷ rest) = last_two best (y ∷ z ∷ rest)

  items : List Value → List Value
  unfolding is_item
  items [] = []
  items (x ∷ xs) = let rest = items xs in if is_item x then x ∷ rest else rest

  unfoldable pub self_observed_convergence : List Value → Diagnosis → (best : String) → String
  unfolding has_any last_two items
  self_observed_convergence history d best =
      let kind = w.python.lower d.stagnation_type in
      let notes = w.python.lower d.notes in
      if best == ""
      then ""
      else if has_any
          ("diminishing_returns" ∷ "diminishing returns" ∷ "low marginal gain" ∷ "low expected gain"
            ∷ [])
          kind notes
      then diminishing_returns_checkpoint
      else if has_any ("converged" ∷ []) kind notes
      then candidate_ready_for_external_review
      else if not d.stagnation_detected && last_two best (items history)
      then candidate_ready_for_external_review
      else ""

  is_bool : Bool → Option Value → Bool
  is_bool b (some (bool true)) = b
  is_bool b (some (bool false)) = not b
  is_bool b _ = false

  unfoldable pub first_reason : List String → Fields → String
  first_reason [] decision = ""
  first_reason (k ∷ ks) decision =
      let later = first_reason ks decision in
      let reason = normalize_external_review_stop_reason w (get_field decision k) in
      if not (reason == "") then reason else later

  stops : Fields → Bool
  stops decision = truthy (or_else w.python (get_field decision "stop") null)

  -- `confident` tells that `float(confidence) >= 0.70` for a confidence that is given; it is false
  -- where `float` raises.
  unfoldable pub external_review_reason :
      (confident : Option Value → Bool) → Fields → (best : String) → String
  unfolding first_reason is_bool stops
  external_review_reason confident decision best =
      let named = first_reason ("stop_reason" ∷ "stop_kind" ∷ "reason" ∷ "status" ∷ []) decision in
      if w.strip best == ""
      then ""
      else if not (named == "")
      then named
      else if stops decision
          && (not (is_bool true (get_field decision "solved"))
              && (is_bool false (get_field decision "continuation_needed")
                  && confident (get_field decision "confidence")))
      then candidate_ready_for_external_review
      else ""

  -- The reason of a stop that claims the problem solved.
  solved_reason : (best : String) → String
  solved_reason best =
      if best == ""
      then "model_stop_unsolved_needs_continuation"
      else candidate_ready_for_external_review

  unfoldable pub stop_of : (confident : Option Value → Bool) → Fields → (best : String) → String
  unfolding stops is_bool solved_reason
  stop_of confident decision best =
      let review = external_review_reason confident decision best in
      if not (stops decision)
      then ""
      else if not (review == "")
      then review
      else if is_bool true (get_field decision "solved")
      then solved_reason best
      else "model_stop_unsolved_needs_continuation"

  -- The two policies that ask the model differ in what a bare `True` means: `on_true`.
  unfoldable pub by_model :
      (confident : Option Value → Bool)
      → (on_true : String) → (best : String) → Answer
      → Result String
  unfolding stop_of
  by_model confident on_true best no_stop_model = ok ""
  by_model confident on_true best (decided decision) = ok (stop_of confident decision best)
  by_model confident on_true best (flag true) = ok on_true
  by_model confident on_true best (flag false) = ok ""
  by_model confident on_true best (raises true e) = err e
  by_model confident on_true best (raises false e) = ok ""

  -- What the policy says when neither stagnation nor convergence stops the run.
  unfoldable pub by_policy :
      (confident : Option Value → Bool)
      → (policy : String) → Diagnosis
      → (best : String) → Answer
      → Result String
  unfolding by_model solved_reason
  by_policy confident policy d best answer =
      if policy == "adaptive_until_solved"
      then by_model confident (solved_reason best) best answer
      else if policy == "convergence_or_max_rounds"
      then ok
          (if not (best == "") && not d.stagnation_detected then "converged_after_minimum" else "")
      else if policy == "llm_after_minimum"
      then by_model confident "model_stop_after_minimum" best answer
      else ok ""

  -- str(stop_policy or "llm_after_minimum").strip().lower()
  unfoldable pub policy_name : Settings → String
  policy_name s =
      w.python.lower (w.strip (if s.stop_policy == "" then "llm_after_minimum" else s.stop_policy))

  -- The evaluator's incumbent, if there is one, else the ranking's best answer.
  unfoldable pub current_best : Option String → String → String
  current_best none best_answer_id = best_answer_id
  current_best (some id) best_answer_id = id

  -- `incumbent` is the id that `select_preliminary_incumbent` finds, and `quality` the quality key
  -- of the current best candidate.
  unfoldable pub stop_reason_after_round :
      {Q : Type 0} (n : Floats Q) (confident : Option Value → Bool)
      → Settings
      → (completed_round : ℕ) → Diagnosis
      → (best_answer_id : String) → (incumbent : Option String) → (quality : List Q) → Option Policy
      → Answer
      → Result String
  stop_reason_after_round n confident s completed_round d best_answer_id incumbent quality policy
        answer =
      let name = policy_name s in
      let best = current_best incumbent best_answer_id in
      let converged = self_observed_convergence s.history d best in
      if name == "route_incomplete_single_diagnostic"
      then ok "route_incomplete_single_diagnostic"
      else if ltb completed_round (max 1 s.min_rounds_before_stop)
      then ok ""
      else if name == "max_rounds"
      then ok ""
      else if adaptive_stagnation_exhausted w.python n s.adaptive best s.history d policy quality
      then ok diminishing_returns_checkpoint
      else if not (converged == "")
      then ok converged
      else by_policy confident name d best answer
