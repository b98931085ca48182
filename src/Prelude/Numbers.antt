-- ===== src/Prelude/Numbers.antt =====
-- Signed integers, the smaller of two numbers, and division rounded up.
use Prim.Native.Nat.{ℕ, zero, suc, ◌+◌, ◌-◌, ◌*◌, ◌/◌, ◌≤◌, ◌<◌}
use mathlib.Core.Bool.{Bool, true, false}
use native.Mathlib.Nat.{div-add-mod, mod-lt}
use native.Mathlib.Omega.{arith}
use seatsync.Prelude.Tests.{leb, if◌then◌else◌}

pub data ℤ : Type 0 where
  pos negsuc : ℕ → ℤ

abbrev pub nat_abs : ℤ → ℕ
nat_abs (pos n) = n
nat_abs (negsuc n) = suc n

-- `0 < n`
abbrev pub is_positive : ℤ → Bool
is_positive (pos zero) = false
is_positive (pos (suc n)) = true
is_positive (negsuc n) = false

abbrev pub smaller : ℕ → ℕ → ℕ
smaller a b = if leb a b then a else b

unfoldable pub ceil_div : ℕ → ℕ → ℕ
ceil_div a b = (a + (b - 1)) / b

-- The product with the divisor is the least multiple that is not below `a`.
pub le-ceil_div : (a b : ℕ) → 0 < b → a ≤ ceil_div a b * b
unfolding ceil_div
le-ceil_div a b h = omega (arith, div-add-mod (a + (b - 1)) b, mod-lt (a + (b - 1)) h)

pub ceil_div-lt : (a b : ℕ) → 0 < b → ceil_div a b * b < a + b
unfolding ceil_div
ceil_div-lt a b h = omega (arith, div-add-mod (a + (b - 1)) b)
