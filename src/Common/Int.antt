-- ===== src/Common/Int.antt =====
-- C's `int` and `off_t` where they may be negative.
use Prim.Native.Nat.{ℕ}
use mathlib.Core.Bool.{Bool, true}
use ms_projects.Common.Tests.{ltb}

-- `negsuc n` is -(n + 1).
pub data ℤ : Type 0 where
  pos : ℕ → ℤ
  negsuc : ℕ → ℤ

-- `a < n` and `n <= a` for a bound `n` that is not negative.
abbrev pub lt_pos : ℤ → ℕ → Bool
lt_pos (pos m) n = ltb m n
lt_pos (negsuc m) n = true

-- The value of an argument that has passed a test for being negative.
abbrev pub to_nat : ℤ → ℕ
to_nat (pos m) = m
to_nat (negsuc m) = 0
