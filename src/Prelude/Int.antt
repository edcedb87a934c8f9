-- ===== src/Prelude/Int.antt =====
-- Signed machine integers (file descriptors, process ids, return codes) over the native numbers.
use Prim.Native.Nat.{ℕ, suc}
use mathlib.Core.Bool.{Bool, true, false}

-- `negsuc n` is -(n + 1).
pub data ℤ : Type 0 where
  pos : ℕ → ℤ
  negsuc : ℕ → ℤ

-- `x < 0`.
abbrev pub is_neg : ℤ → Bool
is_neg (pos n) = false
is_neg (negsuc n) = true

-- `x > 0`.
abbrev pub is_pos : ℤ → Bool
is_pos (pos ℕ.zero) = false
is_pos (pos (suc n)) = true
is_pos (negsuc n) = false

-- -1
abbrev pub minus_one : ℤ
minus_one = negsuc 0

-- `x == 0`.
abbrev pub is_zero : ℤ → Bool
is_zero (pos ℕ.zero) = true
is_zero (pos (suc n)) = false
is_zero (negsuc n) = false
