-- ===== src/Verification/Grading/Tests.antt =====
-- Grades of small campaign states.
use cognitive_evolve.Prelude.{◌≡◌, refl}
use cognitive_evolve.Json.{
  Fields, field, end, text, int, object, err, get_field, truthy, text_field,
}
use cognitive_evolve.Durable.Paths.{strip}
use cognitive_evolve.Durable.StepState.Changes.{OkImplies}
use cognitive_evolve.Durable.Runner.Ascii.{ascii}
use cognitive_evolve.Verification.Ladder.{from_value}
use cognitive_evolve.Verification.Grading.{
  dict_at, filled, is_missing, has_measurements, certified_strength, allows,
  certificate_allows_verified_result, post_init, read_result, result_data, grade, assertion,
}
use cognitive_evolve.Verification.Grading.Gate.{Backed, grade-Backed, grade_outcome}

abbrev scores : Fields
scores = field "exogeneity_score" (int 1) (
    field "variety_score" (int 1)
      (field "falsification_score" (int 1) (field "replay_score" (int 1) end)))

abbrev certificate : Fields
certificate = field "measured_strength" (text "FORMAL") (
    field "frozen_artifact_hash" (text "h")
      (field "verifier_fingerprint" (text "v") (field "honesty_measurements" (object scores) end)))

abbrev answer : Fields
answer = field "answer" (text "x") end

-- The answer does not say that it can be replayed.
abbrev state : Fields
state =
    field "preliminary_result" (object answer) (field "replay_certificate" (object certificate) end)

program : Unit {0}
unfolding dict_at filled is_missing has_measurements certified_strength allows
    certificate_allows_verified_result post_init read_result result_data grade get_field truthy
    text_field strip from_value
program = tt

grade-Backed_example : OkImplies (λ o. Backed ascii state o o.result) (grade ascii state)
grade-Backed_example = grade-Backed ascii state

grade_outcome_example : grade ascii state ≡ err assertion
unfolding program
grade_outcome_example = grade_outcome ascii state answer certificate refl refl refl refl
