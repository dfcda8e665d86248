-- ===== src/Base/Int.antt =====
-- Signed numbers, as far as the program compares them.
use Prim.Native.Nat.{ℕ}
use mathlib.Core.Bool.{Bool, true, false}
use systemd2mqtt.Base.Tests.{ltb, ◌==◌}

-- `negsuc n` is -(n + 1).
pub data ℤ : Type 0 where
  pos : ℕ → ℤ
  negsuc : ℕ → ℤ

-- `a < n`
abbrev pub lt_pos : ℤ → ℕ → Bool
lt_pos (pos m) n = ltb m n
lt_pos (negsuc m) n = true

-- `a > n`
abbrev pub gt_pos : ℤ → ℕ → Bool
gt_pos (pos m) n = ltb n m
gt_pos (negsuc m) n = false

abbrev pub is_zero : ℤ → Bool
is_zero (pos m) = m == 0
is_zero (negsuc m) = false
