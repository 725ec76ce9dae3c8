-- ===== src/Verification/Honesty/Signed.antt =====
-- Python's integers, with their sign: the counts of verification/honesty_core.py, which clamps them.
use cognitive_evolve.Prelude.{ℕ, Bool, true, false, leb, if◌then◌else◌}

-- `negsuc n` is -(n + 1)
pub data ℤ : Type 0 where
  pos : ℕ → ℤ
  negsuc : ℕ → ℤ

unfoldable pub leb_ℤ : ℤ → ℤ → Bool
leb_ℤ (pos m) (pos n) = leb m n
leb_ℤ (pos m) (negsuc n) = false
leb_ℤ (negsuc m) (pos n) = true
leb_ℤ (negsuc m) (negsuc n) = leb n m

unfoldable pub max_ℤ : ℤ → ℤ → ℤ
unfolding leb_ℤ
max_ℤ a b = if leb_ℤ a b then b else a

unfoldable pub min_ℤ : ℤ → ℤ → ℤ
unfolding leb_ℤ
min_ℤ a b = if leb_ℤ a b then a else b
