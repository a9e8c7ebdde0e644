-- ===== src/Types/Float.antt =====
-- Floats that the program only copies and compares with zero. A finite float64, and JSON has no
-- other, is an integer multiple of 2 ^ -1074: the integer stands for it.
use domain_monitor.Base.{ℕ, zero, suc, Bool, true, false}

-- `negsuc n` is -(n + 1).
pub data ℤ : Type 0 where
  pos : ℕ → ℤ
  negsuc : ℕ → ℤ

abbrev pub Float64 : Type 0
Float64 = ℤ

abbrev pub is_positive : Float64 → Bool
is_positive (pos zero) = false
is_positive (pos (suc n)) = true
is_positive (negsuc n) = false

abbrev pub is_negative : Float64 → Bool
is_negative (pos n) = false
is_negative (negsuc n) = true
