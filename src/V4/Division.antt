-- ===== src/V4/Division.antt =====
-- The order of quotients.
use funi.Common.{ℕ, ◌*◌, ◌/◌, ◌≤◌, ◌<◌, arith}
use native.Mathlib.Nat.{
  div-mul-le_self, mul-le-mul_right, le-div_iff_mul-le, le_of_mul-le-mul_right,
}

-- Two quotients compare as their cross products do.
pub div_cross : (a b c d : ℕ) → 0 < b → 0 < d → a * d ≤ c * b → a / b ≤ c / d
div_cross a b c d bp dp h = (le-div_iff_mul-le {k = d} {x = a / b} {y = c} dp).1 (
    le_of_mul-le-mul_right {m = a / b * d} {n = c} {k = b}
      (omega (arith, mul-le-mul_right d (div-mul-le_self a b))) bp)

pub div_mono : (a b k : ℕ) → 0 < k → a ≤ b → a / k ≤ b / k
div_mono a b k nz h = div_cross a k b k nz nz (mul-le-mul_right k h)
