-- ===== src/Common/Int.antt =====
-- Python's signed integers over the native numbers, as far as the program needs them.
use Prim.Native.Nat.{ℕ, ◌≤◌, min}
use mathlib.Core.Bool.{Bool, true, false}
use native.Mathlib.Omega.{arith}
use takulife.Common.Tests.{ltb}

-- `negsuc n` is -(n + 1).
pub data ℤ : Type 0 where
  pos : ℕ → ℤ
  negsuc : ℕ → ℤ

-- `max(0, min(x, hi))` for a bound `hi` that is not negative
unfoldable pub clamp : ℤ → ℕ → ℕ
clamp (pos n) hi = min n hi
clamp (negsuc n) hi = 0

abbrev pub is_negative : ℤ → Bool
is_negative (pos n) = false
is_negative (negsuc n) = true

-- `a < b`
abbrev pub ltb_ℤ : ℤ → ℤ → Bool
ltb_ℤ (pos a) (pos b) = ltb a b
ltb_ℤ (pos a) (negsuc b) = false
ltb_ℤ (negsuc a) (pos b) = true
ltb_ℤ (negsuc a) (negsuc b) = ltb b a

pub clamp-le : (x : ℤ) (hi : ℕ) → clamp x hi ≤ hi
unfolding clamp
clamp-le (pos n) hi = omega arith
clamp-le (negsuc n) hi = omega arith
