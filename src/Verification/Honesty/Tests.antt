-- ===== src/Verification/Honesty/Tests.antt =====
-- Measurements of one run of a verifier.
use cognitive_evolve.Prelude.{
  ◌≡◌, refl, true, Option, none, some, ◌==◌, if◌then◌else◌, [], ◌∷◌, arith,
}
use cognitive_evolve.Json.{
  Value, Fields, field, end, bool, int, text, get_field, truthy, text_field,
}
use cognitive_evolve.Durable.Paths.{strip}
use cognitive_evolve.Durable.Runner.Ascii.{ascii}
use cognitive_evolve.Verification.Ladder.{formal, executable, min_strength, from_value}
use cognitive_evolve.Verification.Honesty.{
  GroundingRegime, RawResult, hits, is_hit, is_trusted, exogeneity, falsification, replays,
  known_good_bad, survived_count, measure_honesty, is_zero, below_quarters, oracle_cap,
  measured_cap, strength_from_measurements, upper_bound, measured_strength,
}
use cognitive_evolve.Verification.Honesty.Signed.{ℤ, pos, negsuc, leb_ℤ, max_ℤ, min_ℤ}
use cognitive_evolve.Verification.Honesty.Caps.{
  IsFraction, is_strong_kind, measure_honesty-IsFraction,
}
use cognitive_evolve.Verification.Honesty.Earned.{IsEarned, measured_strength-IsEarned}

abbrev regime : GroundingRegime
regime = record {
  probes =
      record { probe_id = "p1"; provenance = "engine"; expected_verdict_flip = true }
      ∷ record { probe_id = "p2"; provenance = "model"; expected_verdict_flip = true }
      ∷ [];
  adversarial_budget = pos 4;
  isolation_enforced = true;
  replay_artifact_hash = "h";
  verifier_fingerprint = "v";
  oracle_kind = "formal";
}

abbrev observed : Fields
observed =
    field "p1" (bool true)
      (field "known_good_bad_distinguishable" (bool true) (field "survived_count" (int 3) end))

abbrev replay : Fields
replay =
    field "artifact_sha256" (text "h")
      (field "verifier_fingerprint" (text "v") (field "replay_verified" (bool true) end))

abbrev raw : RawResult
raw = record { strength = executable; metadata = end }

-- `int` of the values of the tests.
parsed : Value → Option ℤ
parsed (int n) = some (pos n)
parsed (text s) = if s == "-3" then some (negsuc 2) else none
parsed v = none

-- All that a measurement computes with.
program : Unit {0}
unfolding measured_strength strength_from_measurements measure_honesty measured_cap oracle_cap
    upper_bound min_strength is_zero below_quarters exogeneity hits is_hit is_trusted falsification
    replays known_good_bad survived_count strip get_field truthy text_field from_value
    is_strong_kind leb_ℤ max_ℤ min_ℤ parsed
program = tt

-- A verifier with a formal oracle that survived three of four runs is formal.
formal_run : measured_strength ascii parsed raw regime observed replay ≡ formal
unfolding program
formal_run = refl

measured_strength-IsEarned_example : IsEarned ascii parsed regime observed replay
unfolding program
measured_strength-IsEarned_example =
    measured_strength-IsEarned ascii parsed raw regime observed replay (omega arith)

-- A negative count of survived runs scores zero.
negative_count :
    let m = measure_honesty ascii parsed regime (field "survived_count" (text "-3") end) replay in
    m.falsification_score.num ≡ pos 0
unfolding program
negative_count = refl

measure_honesty-IsFraction_example :
    let m = measure_honesty ascii parsed regime (field "survived_count" (text "-3") end) replay in
    IsFraction m.exogeneity_score
    × IsFraction m.variety_score
    × IsFraction m.falsification_score
    × IsFraction m.replay_score
measure_honesty-IsFraction_example =
    measure_honesty-IsFraction ascii parsed regime (field "survived_count" (text "-3") end) replay
