-- ===== src/Verification/Grading/Gate.antt =====
-- What stands behind a result that verification/grading.py hands out.
use cognitive_evolve.Prelude.{
  ℕ, ◌≤◌, ◌≡◌, refl, true, false, ◌&&◌, inl, inr, Option, none, some, arith, leb, ◌==◌,
  if◌then◌else◌, Bool-cases,
}
use cognitive_evolve.Json.{
  object, Fields, end, field, Python, ok, err, truthy, text_field, get_field,
}
use cognitive_evolve.Durable.StepState.Changes.{OkImplies}
use cognitive_evolve.Verification.Ladder.{formal, rank}
use cognitive_evolve.Verification.Grading.{
  GradedOutput, VerifiedResult, assertion, dict_at, filled, has_measurements, certified_strength,
  allows, certificate_allows_verified_result, post_init, check_mode, check_result, read_result,
  result_data, without_result, with_result, grade_from, grade,
}

-- A complete certificate of at least FORMAL: with an artifact, a verifier and the four scores.
pub record IsComplete (py : Python) (cert : Fields) : Type 0 where
  pub strength : 4 ≤ rank (certified_strength py cert)
  pub artifact : (text_field py cert "frozen_artifact_hash" "" == "") ≡ false
  pub verifier : (text_field py cert "verifier_fingerprint" "" == "") ≡ false
  pub scores : has_measurements (dict_at cert "honesty_measurements") ≡ true

-- The result can be replayed, and the state holds a complete certificate for it.
pub record IsCertified (py : Python) (state : Fields) (o : GradedOutput) (r : VerifiedResult)
    : Type 0 where
  pub cert : Fields
  pub held : dict_at state "replay_certificate" ≡ some cert
  pub complete : IsComplete py cert
  pub replayable : r.replayable ≡ true
  pub same_strength : o.verification_strength ≡ certified_strength py cert

abbrev pub Backed : Python → Fields → GradedOutput → Option VerifiedResult → Type 0
Backed py state o none = o.mode ≡ "graded_portfolio"
Backed py state o (some r) = (o.mode ≡ "preliminary_result") × IsCertified py state o r

le→leb : (a b : ℕ) → a ≤ b → leb a b ≡ true
le→leb a b h = ground arith

module _ (py : Python) (state : Fields) where
  allows-IsComplete : (cert : Fields) → allows py cert formal ≡ true → IsComplete py cert
  unfolding allows
  allows-IsComplete cert h = record {
    strength = ground arith;
    artifact = ground arith;
    verifier = ground arith;
    scores = ground arith;
  }

  without_result-Backed :
      (c : Option Fields) → OkImplies (λ o. Backed py state o o.result) (without_result py state c)
  unfolding without_result post_init check_mode
  without_result-Backed c = refl

  with_result-Backed :
      (d cert : Fields)
      → dict_at state "replay_certificate" ≡ some cert
      → allows py cert formal ≡ true
      → OkImplies (λ o. Backed py state o o.result) (with_result py d cert)
  unfolding with_result post_init check_mode check_result
  with_result-Backed d cert held h =
      let complete = allows-IsComplete cert h in
      elim (Bool-cases (
        (("preliminary_result" == "preliminary_result")
          && leb 4 (rank (certified_strength py cert))
          && (read_result py d).replayable
          && filled (some cert)))) [
            | inl e ↦ rw e (
              refl,
              record {
                cert = cert;
                held = held;
                complete = complete;
                replayable = ground arith;
                same_strength = refl;
              },
            )
            | inr e ↦ rw e tt
          ]

  grade_from-Backed :
      (found c : Option Fields)
      → dict_at state "replay_certificate" ≡ c
      → OkImplies (λ o. Backed py state o o.result) (grade_from py state found c)
  unfolding grade_from certificate_allows_verified_result
  grade_from-Backed none c held = without_result-Backed c
  grade_from-Backed (some d) none held = without_result-Backed none
  grade_from-Backed (some d) (some cert) held =
      elim (Bool-cases (truthy (object d) && allows py cert formal)) [
        | inl e ↦ rw e (with_result-Backed d cert held (ground arith))
        | inr e ↦ rw e (without_result-Backed (some cert))
      ]

  -- A graded output has either no result and the mode "graded_portfolio", or a replayable result,
  -- the mode "preliminary_result", and its strength is that of a complete certificate of at least
  -- FORMAL in the state: with an artifact hash, a verifier fingerprint and all four scores.
  pub grade-Backed : OkImplies (λ o. Backed py state o o.result) (grade py state)
  unfolding grade
  grade-Backed = grade_from-Backed (result_data state) (dict_at state "replay_certificate") refl

  allows-filled : (cert : Fields) → allows py cert formal ≡ true → filled (some cert) ≡ true
  unfolding allows filled text_field get_field truthy
  allows-filled end h = ground arith
  allows-filled (field k v d) h = refl

  abbrev pub graded : Fields → Fields → GradedOutput
  graded d cert = record {
    mode = "preliminary_result";
    verification_strength = certified_strength py cert;
    result = some (read_result py d);
    replay_certificate = some cert;
  }

  with_result_outcome :
      (d cert : Fields)
      → allows py cert formal ≡ true
      → with_result py d cert
        ≡ (if (read_result py d).replayable then ok (graded d cert) else err assertion)
  unfolding with_result post_init check_mode check_result
  with_result_outcome d cert h =
      let strength : leb 4 (rank (certified_strength py cert)) ≡ true =
        le→leb _ _ (allows-IsComplete cert h).strength in
      elim (Bool-cases (read_result py d).replayable) [
        | inl e ↦ rw (strength, e, allows-filled cert h) refl
        | inr e ↦ rw (strength, e) refl
      ]

  -- With some result data and a complete certificate of at least FORMAL, the result is handed out
  -- if the data says that it can be replayed; if not, `grade` raises AssertionError.
  pub grade_outcome :
      (d cert : Fields)
      → result_data state ≡ some d
      → truthy (object d) ≡ true
      → dict_at state "replay_certificate" ≡ some cert
      → certificate_allows_verified_result py (some cert) formal ≡ true
      → grade py state
        ≡ (if (read_result py d).replayable then ok (graded d cert) else err assertion)
  unfolding grade grade_from certificate_allows_verified_result
  grade_outcome d cert found some_data held allowed =
      rw (found, held) (rw (some_data, allowed) (with_result_outcome d cert allowed))
