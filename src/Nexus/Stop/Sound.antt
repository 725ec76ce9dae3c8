-- ===== src/Nexus/Stop/Sound.antt =====
-- The reasons that the parts of nexus/stop_decision.py give.
use cognitive_evolve.Prelude.{
  ◌≡◌, refl, subst, String, Bool, true, false, not, ◌&&◌, ◌||◌, Option, none, some, List, [], ◌∷◌,
  contains, ◌==◌, eq_iff, eq_refl, if◌then◌else◌, arith, Bool-cases, inl, inr,
}
use cognitive_evolve.Json.{Python, Value, Fields, get_field, Result, ok, err}
use cognitive_evolve.Nexus.Stop.Reasons.{
  Words, candidate_ready_for_external_review, diminishing_returns_checkpoint, is_review_reason,
  alias, lowered, normalize_external_review_stop_reason,
}
use cognitive_evolve.Nexus.Stop.Adaptive.{Floats, Diagnosis, Policy, adaptive_stagnation_exhausted}
use cognitive_evolve.Nexus.Stop.Stagnation.{adaptive_stagnation_exhausted_lem}
use cognitive_evolve.Nexus.Stop.Decision.{
  Settings, Answer, no_stop_model, decided, flag, raises, self_observed_convergence,
  external_review_reason, first_reason, stop_of, by_model, by_policy, policy_name,
}

-- The reasons that the engine gives, the empty one included.
abbrev pub outcomes : List String
outcomes =
    "" ∷ "route_incomplete_single_diagnostic" ∷ candidate_ready_for_external_review
    ∷ diminishing_returns_checkpoint ∷ "model_stop_unsolved_needs_continuation"
    ∷ "converged_after_minimum" ∷ "model_stop_after_minimum" ∷ []

-- One of the reasons, and one that asks for external review only where there is a best answer.
unfoldable pub is_sound : (best : String) → String → Bool
unfolding is_review_reason
is_sound best r = contains outcomes r && (not (is_review_reason r) || not (best == ""))

kept :
    (r : String)
    → ((if is_review_reason r then r else "") == "") ≡ false
    → is_review_reason (if is_review_reason r then r else "") ≡ true
kept r h = elim (Bool-cases (is_review_reason r)) [
  | inl e ↦ rw e e
  | inr e ↦ let k = subst (λ b. ((if b then r else "") == "") ≡ false) e h in cc
]

-- A result that is an error, or such a reason.
unfoldable pub sound_result : (best : String) → Result String → Bool
sound_result best (ok r) = is_sound best r
sound_result best (err e) = true

exhausted_best :
    {Q : Type 0} (py : Python) (n : Floats Q) (adaptive : Bool) (best : String)
    (history : List Value) (d : Diagnosis) (policy : Option Policy) (quality : List Q)
    → adaptive_stagnation_exhausted py n adaptive best history d policy quality ≡ true
    → (best == "") ≡ false
unfolding adaptive_stagnation_exhausted
exhausted_best py n adaptive best history d none quality h = cc
exhausted_best py n adaptive best history d (some p) quality h =
    (adaptive_stagnation_exhausted_lem py n adaptive best history d p quality h).0

module _ (best : String) where
  quiet : is_sound best "" ≡ true
  unfolding is_sound is_review_reason
  quiet = refl

  unsolved : is_sound best "model_stop_unsolved_needs_continuation" ≡ true
  unfolding is_sound is_review_reason
  unsolved = refl

  ready : (best == "") ≡ false → is_sound best candidate_ready_for_external_review ≡ true
  unfolding is_sound is_review_reason
  ready h = rw h refl

  diminishing : (best == "") ≡ false → is_sound best diminishing_returns_checkpoint ≡ true
  unfolding is_sound is_review_reason
  diminishing h = rw h refl

  review_lem :
      (r : String) → is_review_reason r ≡ true → (best == "") ≡ false → is_sound best r ≡ true
  unfolding is_sound is_review_reason
  review_lem r h b =
      ground (
        arith,
        eq_iff r candidate_ready_for_external_review,
        eq_iff r diminishing_returns_checkpoint,
      )

  module _ (w : Words) where
    convergence_lem :
        (history : List Value) (d : Diagnosis)
        → is_sound best (self_observed_convergence w history d best) ≡ true
    unfolding self_observed_convergence
    convergence_lem history d = ground (arith, quiet, ready, diminishing)

    normalize_lem :
        (v : Option Value)
        → (normalize_external_review_stop_reason w v == "") ≡ false
        → is_review_reason (normalize_external_review_stop_reason w v) ≡ true
    unfolding normalize_external_review_stop_reason
    normalize_lem v h = kept (alias (w.underscored (lowered w v))) h

    first_reason_lem :
        (keys : List String) (decision : Fields)
        → (first_reason w keys decision == "") ≡ false
        → is_review_reason (first_reason w keys decision) ≡ true
    unfolding first_reason
    first_reason_lem [] decision h = cc
    first_reason_lem (k ∷ keys) decision h =
        ground (arith, normalize_lem (get_field decision k), first_reason_lem keys decision)

    strip_lem : (w.strip "" ≡ "") → (w.strip best == "") ≡ false → (best == "") ≡ false
    strip_lem law h = elim (Bool-cases (best == "")) [
      | inl e ↦ let q = (eq_iff best "").0 e in let r = eq_refl "" in cc
      | inr e ↦ e
    ]

    review_reason_lem :
        (confident : Option Value → Bool) (decision : Fields)
        → (w.strip "" ≡ "")
        → is_sound best (external_review_reason w confident decision best) ≡ true
    unfolding external_review_reason
    review_reason_lem confident decision law = ground (
      arith,
      quiet,
      ready,
      strip_lem law,
      first_reason_lem ("stop_reason" ∷ "stop_kind" ∷ "reason" ∷ "status" ∷ []) decision,
      review_lem (first_reason w ("stop_reason" ∷ "stop_kind" ∷ "reason" ∷ "status" ∷ []) decision),
    )

    stop_of_lem :
        (confident : Option Value → Bool) (decision : Fields)
        → (w.strip "" ≡ "")
        → is_sound best (stop_of w confident decision best) ≡ true
    unfolding stop_of
    stop_of_lem confident decision law =
        ground (arith, quiet, unsolved, ready, review_reason_lem confident decision law)

    by_model_lem :
        (confident : Option Value → Bool) (on_true : String) (answer : Answer)
        → (w.strip "" ≡ "")
        → is_sound best on_true ≡ true
        → sound_result best (by_model w confident on_true best answer) ≡ true
    unfolding by_model sound_result
    by_model_lem confident on_true no_stop_model law h = quiet
    by_model_lem confident on_true (decided decision) law h = stop_of_lem confident decision law
    by_model_lem confident on_true (flag true) law h = h
    by_model_lem confident on_true (flag false) law h = quiet
    by_model_lem confident on_true (raises true e) law h = refl
    by_model_lem confident on_true (raises false e) law h = quiet

    solved_lem :
        is_sound best (
          if best == ""
          then "model_stop_unsolved_needs_continuation"
          else candidate_ready_for_external_review)
        ≡ true
    solved_lem = ground (arith, unsolved, ready)

    converged : is_sound best "converged_after_minimum" ≡ true
    unfolding is_sound is_review_reason
    converged = refl

    converged_lem : (b : Bool) → is_sound best (if b then "converged_after_minimum" else "") ≡ true
    converged_lem b = ground (arith, quiet, converged)

    asked : is_sound best "model_stop_after_minimum" ≡ true
    unfolding is_sound is_review_reason
    asked = refl

    by_policy_lem :
        (confident : Option Value → Bool) (name : String) (d : Diagnosis) (answer : Answer)
        → (w.strip "" ≡ "")
        → sound_result best (by_policy w confident name d best answer) ≡ true
    unfolding by_policy sound_result
    by_policy_lem confident name d answer law =
        elim (Bool-cases (name == "adaptive_until_solved")) [
          | inl e ↦ rw e (by_model_lem confident _ answer law solved_lem)
          | inr e ↦ elim (Bool-cases (name == "convergence_or_max_rounds")) [
            | inl f ↦ rw (e, f) (converged_lem (not (best == "") && not d.stagnation_detected))
            | inr f ↦ elim (Bool-cases (name == "llm_after_minimum")) [
              | inl g ↦ rw (e, f, g) (by_model_lem confident _ answer law asked)
              | inr g ↦ rw (e, f, g) quiet
            ]
          ]
        ]

    -- After the adaptive stop and the one for convergence.
    pub late_lem :
        {Q : Type 0} (n : Floats Q) (confident : Option Value → Bool) (s : Settings) (d : Diagnosis)
        (quality : List Q) (policy : Option Policy) (answer : Answer)
        → (w.strip "" ≡ "")
        → sound_result best (
            if adaptive_stagnation_exhausted w.python n s.adaptive best s.history d policy quality
            then ok diminishing_returns_checkpoint
            else if not (self_observed_convergence w s.history d best == "")
            then ok (self_observed_convergence w s.history d best)
            else by_policy w confident (policy_name w s) d best answer)
          ≡ true
    unfolding sound_result
    late_lem n confident s d quality policy answer law =
        elim (Bool-cases
          (adaptive_stagnation_exhausted w.python n s.adaptive best s.history d policy quality)) [
            | inl e ↦ rw e (
                diminishing
                  (exhausted_best w.python n s.adaptive best s.history d policy quality e))
            | inr e ↦ elim (Bool-cases (self_observed_convergence w s.history d best == "")) [
              | inl f ↦ rw (e, f) (by_policy_lem confident (policy_name w s) d answer law)
              | inr f ↦ rw (e, f) (convergence_lem s.history d)
            ]
          ]
