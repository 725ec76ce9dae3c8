-- ===== src/Verification/Ladder.antt =====
-- verification/ladder.py: the strengths, ordered by their integer values.
use cognitive_evolve.Prelude.{
  ℕ, zero, suc, min, String, ◌≡◌, Option, none, some, arith, leb, ◌==◌, if◌then◌else◌,
}
use cognitive_evolve.Json.{Value, text, Python, Result, ok, err, to_int}
use cognitive_evolve.Durable.Paths.{strip}

pub data VerificationStrength : Type 0 where
  unverified adversarial decomposed empirical formal executable : VerificationStrength

-- int(strength)
abbrev pub rank : VerificationStrength → ℕ
rank unverified = 0
rank adversarial = 1
rank decomposed = 2
rank empirical = 3
rank formal = 4
rank executable = 5

-- cls.__members__
by_name : String → Option VerificationStrength
by_name key =
    if key == "NONE"
    then some unverified
    else if key == "ADVERSARIAL"
    then some adversarial
    else if key == "DECOMPOSED"
    then some decomposed
    else if key == "EMPIRICAL"
    then some empirical
    else if key == "FORMAL"
    then some formal
    else if key == "EXECUTABLE"
    then some executable
    else none

-- cls(n), or NONE where that raises
unfoldable pub by_value : ℕ → VerificationStrength
by_value zero = unverified
by_value (suc zero) = adversarial
by_value (suc (suc zero)) = decomposed
by_value (suc (suc (suc zero))) = empirical
by_value (suc (suc (suc (suc zero)))) = formal
by_value (suc (suc (suc (suc (suc zero))))) = executable
by_value _ = unverified

of_int : Result ℕ → VerificationStrength
of_int (ok n) = by_value n
of_int (err e) = unverified

of_name : Option VerificationStrength → VerificationStrength → VerificationStrength
of_name (some s) t = s
of_name none t = t

-- `from_value` of a value that is no strength itself
unfoldable pub from_value : Python → Value → VerificationStrength
unfolding by_name by_value of_int of_name
from_value py (text s) = of_name (by_name (py.upper (strip py s))) (of_int (to_int py (text s)))
from_value py v = of_int (to_int py v)

unfoldable pub min_strength : VerificationStrength → VerificationStrength → VerificationStrength
min_strength a b = if leb (rank a) (rank b) then a else b

pub rank-min_strength :
    (a b : VerificationStrength) → rank (min_strength a b) ≡ min (rank a) (rank b)
unfolding min_strength
rank-min_strength a b = ground arith
