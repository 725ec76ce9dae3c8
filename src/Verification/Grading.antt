-- ===== src/Verification/Grading.antt =====
-- verification/grading.py, with `GradedOutput` of verification/types.py: when a run's answer may be
-- called a result. The portfolio and the map of ruled-out directions, which only a run without a
-- result lists, are left out.
pub mod Gate
mod Tests
use cognitive_evolve.Prelude.{
  String, Bool, true, false, not, ◌&&◌, ◌||◌, Option, none, some, List, [], ◌∷◌, leb, ltb, ◌==◌,
  if◌then◌else◌,
}
use cognitive_evolve.Json.{
  Value, null, text, object, Fields, end, Python, Error, raised, Result, ok, err, get_field, truthy,
  text_field, either_field,
}
use cognitive_evolve.Verification.Ladder.{VerificationStrength, formal, rank, from_value}

pub record VerifiedResult : Type 0 where
  pub answer : Value
  pub replayable : Bool
  pub evidence_ref : String
  pub verifier_fingerprint : String

pub record GradedOutput : Type 0 where
  pub mode : String
  pub verification_strength : VerificationStrength
  pub result : Option VerifiedResult
  pub replay_certificate : Option Fields

-- d.get(k) if it is a dict, else None
as_dict : Option Value → Option Fields
as_dict (some (object d)) = some d
as_dict _ = none

unfoldable pub dict_at : Fields → String → Option Fields
unfolding as_dict
dict_at d k = as_dict (get_field d k)

-- A dict that is there and not empty.
unfoldable pub filled : Option Fields → Bool
filled none = false
filled (some d) = truthy (object d)

unfoldable pub is_missing : Option Value → Bool
is_missing none = true
is_missing (some null) = true
is_missing _ = false

unfoldable pub has_measurements : Option Fields → Bool
has_measurements none = false
has_measurements (some m) =
    not (is_missing (get_field m "exogeneity_score"))
    && not (is_missing (get_field m "variety_score"))
    && not (is_missing (get_field m "falsification_score"))
    && not (is_missing (get_field m "replay_score"))

unfoldable pub certified_strength : Python → Fields → VerificationStrength
certified_strength py cert =
    from_value py (either_field py cert "measured_strength" "measured_strength_value")

unfoldable pub allows : Python → Fields → VerificationStrength → Bool
unfolding has_measurements
allows py cert threshold =
    not (ltb (rank (certified_strength py cert)) (rank threshold))
    && not (text_field py cert "frozen_artifact_hash" "" == "")
    && not (text_field py cert "verifier_fingerprint" "" == "")
    && has_measurements (dict_at cert "honesty_measurements")

-- The certificate may be missing: it is then empty.
unfoldable pub certificate_allows_verified_result :
    Python → Option Fields → VerificationStrength → Bool
certificate_allows_verified_result py none threshold = allows py end threshold
certificate_allows_verified_result py (some cert) threshold = allows py cert threshold

abbrev pub assertion : Error
assertion = raised "AssertionError" ""

-- The assertions of `__post_init__` on an output with a result.
check_result : GradedOutput → VerifiedResult → Result GradedOutput
check_result o r =
    if (o.mode == "preliminary_result")
      && leb (rank formal) (rank o.verification_strength)
      && r.replayable
      && filled o.replay_certificate
    then ok o
    else err assertion

check_mode : GradedOutput → Option VerifiedResult → Result GradedOutput
unfolding check_result
check_mode o (some r) = check_result o r
check_mode o none = if o.mode == "preliminary_result" then err assertion else ok o

-- `__post_init__`, for the two modes that `grade` passes
unfoldable pub post_init : GradedOutput → Result GradedOutput
unfolding check_mode check_result
post_init o = check_mode o o.result

field_value : Fields → String → Value
field_value d k = elim (get_field d k) [ none ↦ null | some v ↦ v ]

-- VerifiedResult(answer=..., ...)
unfoldable pub read_result : Python → Fields → VerifiedResult
unfolding field_value
read_result py d = record {
  answer = field_value d "answer";
  replayable = truthy (field_value d "replayable");
  evidence_ref = text_field py d "evidence_ref" "";
  verifier_fingerprint = text_field py d "verifier_fingerprint" "";
}

or_dict : Option Fields → Option Fields → Option Fields
or_dict (some d) e = some d
or_dict none e = e

unfoldable pub result_data : Fields → Option Fields
unfolding or_dict
result_data state = or_dict (dict_at state "preliminary_result") (dict_at state "verified_result")

without_result : Python → Fields → Option Fields → Result GradedOutput
without_result py state certificate = post_init (record {
  mode = "graded_portfolio";
  verification_strength =
      from_value py (either_field py state "verification_strength" "verification_strength_value");
  result = none;
  replay_certificate = certificate;
})

with_result : Python → Fields → Fields → Result GradedOutput
with_result py d cert = post_init (record {
  mode = "preliminary_result";
  verification_strength = certified_strength py cert;
  result = some (read_result py d);
  replay_certificate = some cert;
})

grade_from : Python → Fields → Option Fields → Option Fields → Result GradedOutput
unfolding without_result with_result
grade_from py state (some d) (some cert) =
    if truthy (object d) && certificate_allows_verified_result py (some cert) formal
    then with_result py d cert
    else without_result py state (some cert)
grade_from py state found certificate = without_result py state certificate

unfoldable pub grade : Python → (campaign_state : Fields) → Result GradedOutput
unfolding grade_from without_result with_result
grade py state = grade_from py state (result_data state) (dict_at state "replay_certificate")
