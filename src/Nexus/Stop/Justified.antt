-- ===== src/Nexus/Stop/Justified.antt =====
-- The outcomes of nexus/stop_decision.py, and what they require.
use cognitive_evolve.Prelude.{
  ℕ, ◌≤◌, ◌≡◌, refl, sym, ap, subst, String, Bool, true, false, Option, List, contains, ltb, max,
  ◌==◌, if◌then◌else◌, arith,
}
use cognitive_evolve.Json.{Value, Result, ok, err}
use cognitive_evolve.Nexus.Stop.Reasons.{Words, is_review_reason}
use cognitive_evolve.Nexus.Stop.Adaptive.{Floats, Diagnosis, Policy}
use cognitive_evolve.Nexus.Stop.Decision.{
  Settings, Answer, policy_name, current_best, stop_reason_after_round,
}
use cognitive_evolve.Nexus.Stop.Sound.{outcomes, is_sound, sound_result, late_lem}

reason_of : Result String → String
reason_of (ok r) = r
reason_of (err e) = ""

same_reason : (a r : String) → ok a ≡ ok r → a ≡ r
unfolding reason_of
same_reason a r h = ap reason_of h

-- A reason that is not one of the late ones is an early one.
early :
    (a b c : Bool) (late : Result String) (r : String)
    → (if a
        then ok "route_incomplete_single_diagnostic"
        else if b
        then ok ""
        else if c
        then ok ""
        else late)
      ≡ ok r
    → is_review_reason r ≡ true
    → (a ≡ false) × (b ≡ false) × (c ≡ false) × (late ≡ ok r)
unfolding is_review_reason
early true b c late r h k =
    let z =
      subst (λ x. is_review_reason x ≡ true)
        (sym (same_reason "route_incomplete_single_diagnostic" r h)) k in
    (cc, cc, cc, cc)
early false true c late r h k =
    let z = subst (λ x. is_review_reason x ≡ true) (sym (same_reason "" r h)) k in (cc, cc, cc, cc)
early false false true late r h k =
    let z = subst (λ x. is_review_reason x ≡ true) (sym (same_reason "" r h)) k in (cc, cc, cc, cc)
early false false false late r h k = (refl, refl, refl, h)

early_outcome :
    (a b c : Bool) (late : Result String) (best : String)
    → sound_result best late ≡ true
    → sound_result best (
        if a
        then ok "route_incomplete_single_diagnostic"
        else if b
        then ok ""
        else if c
        then ok ""
        else late)
      ≡ true
unfolding sound_result is_sound is_review_reason
early_outcome true b c late best h = refl
early_outcome false true c late best h = refl
early_outcome false false true late best h = refl
early_outcome false false false late best h = h

sound_review :
    (best r : String) → is_sound best r ≡ true → is_review_reason r ≡ true → (best == "") ≡ false
unfolding is_sound is_review_reason
sound_review best r h k = ground arith

sound_outcome : (best r : String) → is_sound best r ≡ true → contains outcomes r ≡ true
unfolding is_sound is_review_reason
sound_outcome best r h = ground arith

reached : (completed m : ℕ) → ltb completed m ≡ false → m ≤ completed
reached completed m h = ground arith

module _ (w : Words) (law : w.strip "" ≡ "") {Q : Type 0} (n : Floats Q)
    (confident : Option Value → Bool) (s : Settings) (completed : ℕ) (d : Diagnosis)
    (best_answer_id : String) (incumbent : Option String) (quality : List Q)
    (policy : Option Policy) (answer : Answer) (r : String)
    (given : stop_reason_after_round w n confident s completed d best_answer_id incumbent quality
        policy answer
      ≡ ok r) where
  -- Every stop reason of the engine is one of seven, the empty one, which continues the run, among
  -- them. `strip` is assumed to leave the empty text as it is.
  pub stop_reason_after_round-outcomes : contains outcomes r ≡ true
  unfolding stop_reason_after_round sound_result
  stop_reason_after_round-outcomes =
      let best = current_best w incumbent best_answer_id in
      sound_outcome best r (
        subst (λ x. sound_result best x ≡ true) given
          (early_outcome (policy_name w s == "route_incomplete_single_diagnostic")
            (ltb completed (max 1 s.min_rounds_before_stop)) (policy_name w s == "max_rounds") _
            best (late_lem best w n confident s d quality policy answer law)))

  -- If the engine gives one of the two stop reasons that ask for external review, there is a best
  -- answer (the evaluator's incumbent, or else the ranking's), at least one round and the minimum of
  -- rounds are completed, and the policy is neither "max_rounds" nor that of an incomplete route.
  -- `strip` is assumed to leave the empty text as it is.
  pub stop_reason_after_round-is_review_reason :
      (is_review_reason r ≡ true)
      → ((current_best w incumbent best_answer_id == "") ≡ false)
        × (max 1 s.min_rounds_before_stop ≤ completed)
        × ((policy_name w s == "max_rounds") ≡ false)
        × ((policy_name w s == "route_incomplete_single_diagnostic") ≡ false)
  unfolding stop_reason_after_round sound_result
  stop_reason_after_round-is_review_reason review =
      let best = current_best w incumbent best_answer_id in
      let e =
        early (policy_name w s == "route_incomplete_single_diagnostic")
          (ltb completed (max 1 s.min_rounds_before_stop)) (policy_name w s == "max_rounds") _ r
          given review in
      (
        sound_review best r
            (subst (λ x. sound_result best x ≡ true) e.3
              (late_lem best w n confident s d quality policy answer law))
            review,
        reached completed (max 1 s.min_rounds_before_stop) e.1,
        e.2,
        e.0,
      )
