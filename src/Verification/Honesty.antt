-- ===== src/Verification/Honesty.antt =====
-- verification/honesty_core.py: the engine's measurements of a verifier, and the strength that
-- they earn. A score is a fraction of an integer and a positive denominator.
pub mod Signed
pub mod Caps
pub mod Earned
mod Tests
use Prim.Native.String.{◌++◌ as ◌⧺◌}
use cognitive_evolve.Prelude.{
  ℕ, zero, suc, ◌+◌, ◌*◌, max, min, String, Bool, true, false, not, ◌&&◌, ◌||◌, Option, none, some,
  List, [], ◌∷◌, ◌++◌, length, keep, contains, ltb, eqb, ◌==◌, if◌then◌else◌,
}
use cognitive_evolve.Json.{
  Value, null, bool, text, object, Fields, Python, Result, ok, err, get_field, truthy, str, to_int,
  or_else, either_field, text_field,
}
use cognitive_evolve.Verification.Honesty.Signed.{ℤ, pos, negsuc, leb_ℤ, max_ℤ, min_ℤ}
use cognitive_evolve.Durable.Paths.{strip}
use cognitive_evolve.Verification.Ladder.{
  VerificationStrength, unverified, adversarial, decomposed, empirical, formal, executable, rank,
  from_value, min_strength,
}

pub record ProbeCase : Type 0 where
  pub probe_id : String
  pub provenance : String
  pub expected_verdict_flip : Bool

pub record GroundingRegime : Type 0 where
  pub probes : List ProbeCase
  pub adversarial_budget : ℤ
  pub isolation_enforced : Bool
  pub replay_artifact_hash : String
  pub verifier_fingerprint : String
  pub oracle_kind : String

pub record Score : Type 0 where
  pub num : ℤ
  pub den : ℕ

pub record HonestyMeasurements : Type 0 where
  pub exogeneity_score : Score
  pub variety_score : Score
  pub falsification_score : Score
  pub replay_score : Score
  pub diagnostics : List String

abbrev pub whole : Bool → Score
whole b = record { num = if b then pos 1 else pos 0; den = 1 }

abbrev trusted_provenances : List String
trusted_provenances = "archive" ∷ "user" ∷ "tool" ∷ "engine_counterexample" ∷ "engine" ∷ []

unfoldable pub is_trusted : ProbeCase → Bool
is_trusted p = contains trusted_provenances p.provenance

-- What was observed for a probe: whether the verdict flipped.
flipped : Value → Bool
flipped (object d) = elim (get_field d "verdict_flipped") [
  | some v ↦ truthy v
  | none ↦ elim (get_field d "matched_expected_flip") [ some v ↦ truthy v | none ↦ false ]
]
flipped v = truthy v

same_bool : Bool → Bool → Bool
same_bool true b = b
same_bool false b = not b

-- The probe was observed with the expected verdict.
unfoldable pub is_hit : Fields → ProbeCase → Bool
unfolding flipped same_bool
is_hit observed p = elim (get_field observed p.probe_id) [
  | none ↦ false
  | some v ↦ same_bool (flipped v) p.expected_verdict_flip
]

unfoldable pub hits : Fields → List ProbeCase → ℕ
hits observed [] = 0
hits observed (p ∷ ps) = (if is_hit observed p then 1 else 0) + hits observed ps

not_observed : Fields → List ProbeCase → List String
not_observed observed [] = []
not_observed observed (p ∷ ps) =
    let rest = not_observed observed ps in
    elim (get_field observed p.probe_id) [
      | none ↦ ("probe_not_observed:" ⧺ p.probe_id) ∷ rest
      | some v ↦ rest
    ]

has_probes : List ProbeCase → Bool
has_probes [] = false
has_probes (p ∷ ps) = true

unfoldable pub exogeneity : Fields → List ProbeCase → Score
exogeneity observed [] = record { num = pos 0; den = 1 }
exogeneity observed (p ∷ ps) = record {
  num = pos (hits observed (p ∷ ps));
  den = max 1 (length (p ∷ ps));
}

-- bool(observed.get("known_good_bad_distinguishable"))
unfoldable pub known_good_bad : Fields → Bool
unfolding get_field truthy
known_good_bad observed = elim (get_field observed "known_good_bad_distinguishable") [
  | none ↦ false
  | some v ↦ truthy v
]

-- _int(observed.get("survived_count"), 0); `int_of` is Python's `int`, none where it raises.
unfoldable pub survived_count : (int_of : Value → Option ℤ) → Fields → ℤ
survived_count int_of observed = elim (get_field observed "survived_count") [
  | none ↦ pos 0
  | some v ↦ elim (int_of v) [ some n ↦ n | none ↦ pos 0 ]
]

-- max(0.0, min(1.0, survived / budget)), for a positive budget
clamped : (budget survived : ℤ) → Score
clamped (pos zero) survived = record { num = pos 0; den = 1 }
clamped (pos (suc n)) survived = record {
  num = max_ℤ (pos 0) (min_ℤ (pos (suc n)) survived);
  den = suc n;
}
clamped (negsuc n) survived = record { num = pos 0; den = 1 }

unfoldable pub falsification : (budget survived : ℤ) → Score
unfolding clamped
falsification budget survived = clamped (max_ℤ (pos 0) budget) survived

-- replay.get("replay_verified") is True
is_true : Option Value → Bool
is_true (some (bool b)) = b
is_true _ = false

unfoldable pub artifact_match : Python → Fields → String → Bool
artifact_match py replay hash =
    str py (
      or_else py (some (either_field py replay "frozen_artifact_hash" "artifact_sha256")) (text ""))
    == hash

unfoldable pub replays : Python → GroundingRegime → Fields → Bool
unfolding is_true artifact_match
replays py g replay =
    artifact_match py replay g.replay_artifact_hash
    && (text_field py replay "verifier_fingerprint" "" == g.verifier_fingerprint)
    && is_true (get_field replay "replay_verified")

note : Bool → String → List String
note true s = s ∷ []
note false s = []

unfoldable pub measure_honesty :
    Python → (int_of : Value → Option ℤ) → GroundingRegime → Fields → Fields → HonestyMeasurements
unfolding not_observed has_probes note
measure_honesty py int_of g observed replay =
    let trusted = keep is_trusted g.probes in
    let survived = survived_count int_of observed in
    record {
      exogeneity_score = exogeneity observed trusted;
      variety_score = whole (g.isolation_enforced && known_good_bad observed);
      falsification_score = falsification g.adversarial_budget survived;
      replay_score = whole (replays py g replay);
      diagnostics =
          note (has_probes g.probes && not (eqb (length trusted) (length g.probes)))
            "untrusted_probe_provenance_ignored"
          ++ (not_observed observed trusted
              ++ (note (not (has_probes trusted)) "no_engine_injected_probe"
                  ++ (note (not g.isolation_enforced) "isolation_not_engine_enforced"
                      ++ (note (not (known_good_bad observed)) "known_good_bad_not_distinguished"
                          ++ (note (leb_ℤ (max_ℤ (pos 0) g.adversarial_budget) (pos 0))
                                "no_engine_adversarial_budget"
                              ++ note (not (replays py g replay))
                                  "replay_record_missing_or_mismatched")))));
    }

num_is_zero : ℤ → Bool
num_is_zero (pos k) = eqb k 0
num_is_zero (negsuc k) = false

-- s == 0
unfoldable pub is_zero : Score → Bool
unfolding num_is_zero
is_zero s = num_is_zero s.num

quarters_below : (num : ℤ) → (den n : ℕ) → Bool
quarters_below (pos k) den n = ltb (k * 4) (n * den)
quarters_below (negsuc k) den n = true

-- s < n / 4, for a positive n
unfoldable pub below_quarters : Score → ℕ → Bool
unfolding quarters_below
below_quarters s n = quarters_below s.num s.den n

unfoldable pub oracle_cap : Python → String → VerificationStrength
oracle_cap py oracle_kind =
    let kind = py.lower (strip py oracle_kind) in
    if kind == "formal"
    then formal
    else if contains ("executable" ∷ "toolrunner" ∷ "tool_runner" ∷ []) kind
    then executable
    else if kind == "empirical"
    then empirical
    else if kind == "decomposed"
    then decomposed
    else adversarial

unfoldable pub measured_cap : HonestyMeasurements → VerificationStrength
measured_cap m =
    if is_zero m.exogeneity_score || is_zero m.variety_score
    then unverified
    else if is_zero m.replay_score
    then adversarial
    else if below_quarters m.falsification_score 1
    then adversarial
    else if below_quarters m.falsification_score 2
    then decomposed
    else if below_quarters m.falsification_score 3
    then empirical
    else executable

unfoldable pub strength_from_measurements :
    Python → HonestyMeasurements → String → VerificationStrength → VerificationStrength
strength_from_measurements py m oracle_kind bound =
    min_strength (min_strength (measured_cap m) (oracle_cap py oracle_kind)) bound

-- The part of a `VerificationResult` that the measurement reads.
pub record RawResult : Type 0 where
  pub strength : VerificationStrength
  pub metadata : Fields

has_flag : Fields → String → Bool
has_flag d k = elim (get_field d k) [ none ↦ false | some v ↦ truthy v ]

is_unverified : VerificationStrength → Bool
is_unverified unverified = true
is_unverified _ = false

field_or_null : Fields → String → Value
field_or_null d k = elim (get_field d k) [ none ↦ null | some v ↦ v ]

unfoldable pub upper_bound : Python → RawResult → VerificationStrength
unfolding has_flag is_unverified field_or_null
upper_bound py raw =
    if has_flag raw.metadata "diagnostics_only"
      || has_flag raw.metadata "legacy"
      || is_unverified raw.strength
    then from_value py (field_or_null raw.metadata "certification_upper_bound")
    else raw.strength

-- `measured_strength` of `measure_verification_result`
unfoldable pub measured_strength :
    Python
    → (int_of : Value → Option ℤ) → RawResult
    → GroundingRegime
    → Fields
    → Fields
    → VerificationStrength
measured_strength py int_of raw g observed replay =
    strength_from_measurements py (measure_honesty py int_of g observed replay) g.oracle_kind
      (upper_bound py raw)
