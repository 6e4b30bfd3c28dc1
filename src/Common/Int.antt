-- ===== src/Common/Int.antt =====
-- The C `int`, as an integer: `negsuc n` is -(n + 1).
use Prim.Native.Nat.{ℕ}
use mathlib.Core.Bool.{Bool, true, false}
use openharmony_mac_build.Common.Tests.{ltb, ◌==◌}

pub data ℤ : Type 0 where
  pos : ℕ → ℤ
  negsuc : ℕ → ℤ

abbrev pub minus_one : ℤ
minus_one = negsuc 0

-- `x > 0`
abbrev pub is_positive : ℤ → Bool
is_positive (pos n) = ltb 0 n
is_positive (negsuc n) = false

-- `x < 0`
abbrev pub is_negative : ℤ → Bool
is_negative (pos n) = false
is_negative (negsuc n) = true

-- `x == y`
abbrev pub int_eq : ℤ → ℤ → Bool
int_eq (pos m) (pos n) = m == n
int_eq (negsuc m) (negsuc n) = m == n
int_eq _ _ = false

-- `x < y`
abbrev pub int_less : ℤ → ℤ → Bool
int_less (pos m) (pos n) = ltb m n
int_less (negsuc m) (negsuc n) = ltb n m
int_less (negsuc m) (pos n) = true
int_less (pos m) (negsuc n) = false
