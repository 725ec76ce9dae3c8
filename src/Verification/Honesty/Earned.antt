-- ===== src/Verification/Honesty/Earned.antt =====
-- What a measured strength of verification/honesty_core.py shows about the observations.
use cognitive_evolve.Prelude.{
  ℕ, zero, suc, leb, leb→le, Option, Bool-cases, inl, inr, ◌*◌, ◌≤◌, ◌<◌, ◌≡◌, refl, sym, ◌∙◌, ltb,
  Bool, true, false, ◌&&◌, List, [], ◌∷◌, keep, arith,
}
use cognitive_evolve.Json.{Value, Fields, Python}
use cognitive_evolve.Verification.Honesty.Signed.{ℤ, pos, negsuc, leb_ℤ, max_ℤ, min_ℤ}
use cognitive_evolve.Verification.Ladder.{rank}
use cognitive_evolve.Verification.Honesty.{
  ProbeCase, GroundingRegime, HonestyMeasurements, RawResult, whole, is_trusted, hits, exogeneity,
  falsification, measure_honesty, is_zero, below_quarters, measured_cap, measured_strength,
  survived_count, replays, known_good_bad,
}
use cognitive_evolve.Verification.Honesty.Caps.{rank-measured_strength, from_zero}

-- What the scores of a strength above ADVERSARIAL are.
record Scored (m : HonestyMeasurements) : Type 0 where
  exogenous : is_zero m.exogeneity_score ≡ false
  varied : is_zero m.variety_score ≡ false
  replayed : is_zero m.replay_score ≡ false
  falsified : below_quarters m.falsification_score 1 ≡ false

measured_cap-Scored : (m : HonestyMeasurements) → 2 ≤ rank (measured_cap m) → Scored m
unfolding measured_cap
measured_cap-Scored m h = record {
  exogenous = ground arith;
  varied = ground arith;
  replayed = ground arith;
  falsified = ground arith;
}

whole_nonzero : (b : Bool) → is_zero (whole b) ≡ false → b ≡ true
unfolding is_zero leb_ℤ
whole_nonzero true h = refl
whole_nonzero false h = cc

and_true : (a b : Bool) → (a && b) ≡ true → (a ≡ true) × (b ≡ true)
and_true true true h = (refl, refl)
and_true true false h = cc
and_true false b h = cc

exogeneity_nonzero :
    (observed : Fields) (ps : List ProbeCase)
    → is_zero (exogeneity observed ps) ≡ false
    → 0 < hits observed ps
unfolding exogeneity is_zero leb_ℤ
exogeneity_nonzero observed [] h = cc
exogeneity_nonzero observed (p ∷ ps) h = ground arith

-- A positive adversarial budget, of which at least a quarter was survived.
pub record IsSurvived (budget survived : ℤ) : Type 0 where
  pub runs : ℕ
  pub budgeted : (budget ≡ pos runs) × (0 < runs)
  pub kept : ℕ
  pub counted : survived ≡ pos kept
  pub enough : runs ≤ kept * 4

quarter_of_runs :
    (n k : ℕ)
    → leb (suc n) k ≡ false
    → below_quarters (falsification (pos (suc n)) (pos k)) 1 ≡ ltb (k * 4) (1 * suc n)
unfolding falsification below_quarters max_ℤ min_ℤ leb_ℤ
quarter_of_runs n k e = rw (from_zero (suc n)) (rw (e, from_zero k) refl)

falsification_quarters :
    (budget survived : ℤ)
    → below_quarters (falsification budget survived) 1 ≡ false
    → IsSurvived budget survived
unfolding falsification below_quarters max_ℤ min_ℤ leb_ℤ
falsification_quarters (negsuc m) survived h = cc
falsification_quarters (pos zero) survived h = cc
falsification_quarters (pos (suc n)) (negsuc k) h = absurd (ground arith)
falsification_quarters (pos (suc n)) (pos k) h = record {
  runs = suc n;
  budgeted = (refl, omega arith);
  kept = k;
  counted = refl;
  enough = elim (Bool-cases (leb (suc n) k)) [
    | inl e ↦ omega (arith, leb→le _ _ e)
    | inr e ↦
        let below : ltb (k * 4) (1 * suc n) ≡ false = sym (quarter_of_runs n k e) ∙ h in
        ground arith
  ];
}

-- Above ADVERSARIAL the isolation was enforced, the verifier told good from bad, the replay
-- matched, some trusted probe had its expected verdict, and of a positive adversarial budget at
-- least a quarter was survived.
pub record IsEarned (py : Python) (int_of : Value → Option ℤ) (g : GroundingRegime)
    (observed replay : Fields) : Type 0 where
  pub isolated : g.isolation_enforced ≡ true
  pub distinguishes : known_good_bad observed ≡ true
  pub replayed : replays py g replay ≡ true
  pub probed : 0 < hits observed (keep is_trusted g.probes)
  pub survived : IsSurvived g.adversarial_budget (survived_count int_of observed)

-- A measured strength above ADVERSARIAL shows that the isolation was enforced, that the verifier
-- told good from bad, that the replay matched, that some trusted probe had its expected verdict, and
-- that at least a quarter of a positive adversarial budget was survived.
pub measured_strength-IsEarned :
    (py : Python) (int_of : Value → Option ℤ) (raw : RawResult) (g : GroundingRegime)
    (observed replay : Fields)
    → 2 ≤ rank (measured_strength py int_of raw g observed replay)
    → IsEarned py int_of g observed replay
unfolding measure_honesty
measured_strength-IsEarned py int_of raw g observed replay h =
    let m = measure_honesty py int_of g observed replay in
    let bound : 2 ≤ rank (measured_cap m) =
      omega (arith, h, rank-measured_strength py int_of raw g observed replay) in
    let s = measured_cap-Scored m bound in
    let (isolated, distinguishes) =
      and_true g.isolation_enforced (known_good_bad observed) (whole_nonzero _ s.varied) in
    record {
      isolated = isolated;
      distinguishes = distinguishes;
      replayed = whole_nonzero _ s.replayed;
      probed = exogeneity_nonzero observed (keep is_trusted g.probes) s.exogenous;
      survived =
          falsification_quarters g.adversarial_budget (survived_count int_of observed) s.falsified;
    }
