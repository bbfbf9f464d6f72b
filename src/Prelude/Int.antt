-- ===== src/Prelude/Int.antt =====
-- Signed integers over the native numbers: `negsuc n` is -(n + 1).
use Prim.Native.Nat.{ℕ, suc, ◌+◌, ◌-◌}
use mathlib.Core.Option.{Option, none, some}

pub data ℤ : Type 0 where
  pos : ℕ → ℤ
  negsuc : ℕ → ℤ

-- `Math.max(0, n + z)`
abbrev pub add_clamped : ℕ → ℤ → ℕ
add_clamped n (pos m) = n + m
add_clamped n (negsuc m) = n - suc m

-- The value of an integer that is at least 0.
abbrev pub to_nat? : ℤ → Option ℕ
to_nat? (pos n) = some n
to_nat? (negsuc n) = none
