-- ===== src/Verification/Honesty/Caps.antt =====
-- The bounds of the measured strength of verification/honesty_core.py.
use cognitive_evolve.Prelude.{
  ℕ, zero, suc, max, leb, leb→lt, Option, Bool-cases, inl, inr, ◌≤◌, ◌<◌, min, String, ◌≡◌, refl,
  ap, Bool, true, false, ◌&&◌, ◌||◌, List, [], ◌∷◌, length, keep, contains, arith, ◌==◌,
  if◌then◌else◌,
}
use cognitive_evolve.Json.{Value, Fields, Python}
use cognitive_evolve.Verification.Honesty.Signed.{ℤ, pos, negsuc, leb_ℤ, max_ℤ, min_ℤ}
use cognitive_evolve.Durable.Paths.{strip}
use cognitive_evolve.Verification.Ladder.{adversarial, rank, rank-min_strength}
use cognitive_evolve.Verification.Honesty.{
  ProbeCase, GroundingRegime, Score, RawResult, whole, is_hit, is_trusted, hits, exogeneity,
  falsification, measure_honesty, oracle_cap, measured_cap, strength_from_measurements, upper_bound,
  measured_strength, survived_count, replays, known_good_bad,
}

-- The measured strength is the least of what was measured, what the oracle can show and what the
-- raw result allows.
pub rank-measured_strength :
    (py : Python) (int_of : Value → Option ℤ) (raw : RawResult) (g : GroundingRegime)
    (observed replay : Fields)
    → rank (measured_strength py int_of raw g observed replay)
      ≡ min
          (min
            (rank (measured_cap (measure_honesty py int_of g observed replay)))
            (rank (oracle_cap py g.oracle_kind)))
          (rank (upper_bound py raw))
unfolding measured_strength strength_from_measurements
rank-measured_strength py int_of raw g observed replay =
    rw (rank-min_strength, rank-min_strength) refl

-- The kinds, in lower case and stripped, that can show more than ADVERSARIAL.
unfoldable pub is_strong_kind : String → Bool
is_strong_kind kind =
    (kind == "formal")
    || contains ("executable" ∷ "toolrunner" ∷ "tool_runner" ∷ []) kind
    || (kind == "empirical")
    || (kind == "decomposed")

weak_oracle :
    (py : Python) (kind : String)
    → is_strong_kind (py.lower (strip py kind)) ≡ false
    → oracle_cap py kind ≡ adversarial
unfolding oracle_cap is_strong_kind
weak_oracle py kind h = ground arith

-- Whatever is observed, an oracle of any kind but the six known ones earns ADVERSARIAL at most.
pub measured_strength_weak :
    (py : Python) (int_of : Value → Option ℤ) (raw : RawResult) (g : GroundingRegime)
    (observed replay : Fields)
    → is_strong_kind (py.lower (strip py g.oracle_kind)) ≡ false
    → rank (measured_strength py int_of raw g observed replay) ≤ 1
measured_strength_weak py int_of raw g observed replay h =
    let e = rank-measured_strength py int_of raw g observed replay in
    let c = ap rank (weak_oracle py g.oracle_kind h) in omega (arith, e, c)

hit_or_not : (observed : Fields) (p : ProbeCase) → (if is_hit observed p then 1 else 0) ≤ 1
hit_or_not observed p = ground arith

pub hits-le : (observed : Fields) (ps : List ProbeCase) → hits observed ps ≤ length ps
unfolding hits
hits-le observed [] = omega arith
hits-le observed (p ∷ ps) = omega (arith, hits-le observed ps, hit_or_not observed p)

-- A fraction that is not negative and at most one.
pub record IsFraction (s : Score) : Type 0 where
  pub at_least_zero : leb_ℤ (pos 0) s.num ≡ true
  pub at_most_one : leb_ℤ s.num (pos s.den) ≡ true
  pub positive_den : 0 < s.den

whole-IsFraction : (b : Bool) → IsFraction (whole b)
unfolding leb_ℤ
whole-IsFraction true = record {
  at_least_zero = refl;
  at_most_one = refl;
  positive_den = omega arith;
}
whole-IsFraction false = record {
  at_least_zero = refl;
  at_most_one = refl;
  positive_den = omega arith;
}

of_ℕ : (m n : ℕ) → m ≤ n → 0 < n → IsFraction (record { num = pos m; den = n })
unfolding leb_ℤ
of_ℕ m n h k = record { at_least_zero = ground arith; at_most_one = ground arith; positive_den = k }

exogeneity-IsFraction :
    (observed : Fields) (ps : List ProbeCase) → IsFraction (exogeneity observed ps)
unfolding exogeneity
exogeneity-IsFraction observed [] = of_ℕ 0 1 (omega arith) (omega arith)
exogeneity-IsFraction observed (p ∷ ps) =
    of_ℕ (hits observed (p ∷ ps)) (max 1 (length (p ∷ ps)))
      (omega (arith, hits-le observed (p ∷ ps))) (omega arith)

pub from_zero : (n : ℕ) → leb 0 n ≡ true
from_zero n = ground arith

-- The clamps keep a count in range, whatever its sign.
clamps :
    (n : ℕ) (survived : ℤ)
    → IsFraction (record { num = max_ℤ (pos 0) (min_ℤ (pos (suc n)) survived); den = suc n })
unfolding max_ℤ min_ℤ leb_ℤ
clamps n (negsuc k) = of_ℕ 0 (suc n) (omega arith) (omega arith)
clamps n (pos k) = elim (Bool-cases (leb (suc n) k)) [
  | inl e ↦ rw (e, from_zero (suc n)) (of_ℕ (suc n) (suc n) (omega arith) (omega arith))
  | inr e ↦ rw (e, from_zero k) (of_ℕ k (suc n) (omega (arith, leb→lt _ _ e)) (omega arith))
]

falsification-IsFraction : (budget survived : ℤ) → IsFraction (falsification budget survived)
unfolding falsification max_ℤ
falsification-IsFraction (negsuc m) survived = of_ℕ 0 1 (omega arith) (omega arith)
falsification-IsFraction (pos zero) survived = of_ℕ 0 1 (omega arith) (omega arith)
falsification-IsFraction (pos (suc n)) survived = rw (from_zero (suc n)) (clamps n survived)

-- All four scores are fractions between zero and one, whatever the sign of the adversarial budget and
-- of the observed count of survived runs.
pub measure_honesty-IsFraction :
    (py : Python) (int_of : Value → Option ℤ) (g : GroundingRegime) (observed replay : Fields)
    → let m = measure_honesty py int_of g observed replay in
      IsFraction m.exogeneity_score
      × IsFraction m.variety_score
      × IsFraction m.falsification_score
      × IsFraction m.replay_score
unfolding measure_honesty
measure_honesty-IsFraction py int_of g observed replay = (
  exogeneity-IsFraction observed (keep is_trusted g.probes),
  whole-IsFraction (g.isolation_enforced && known_good_bad observed),
  falsification-IsFraction g.adversarial_budget (survived_count int_of observed),
  whole-IsFraction (replays py g replay),
)
