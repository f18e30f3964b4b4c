-- ===== src/V4/Exposure.antt =====
-- What a position can stand for at most, at whatever price.
use funi.Common.{ℕ, ◌-◌, ◌*◌, ◌/◌, ◌≤◌, ◌<◌, arith}
use native.Mathlib.Nat.{mul-le-mul_left, mul-le-mul_right, mul-pos, mul-le-mul}
use funi.V4.Division.{div_cross, div_mono}
use funi.V4.Price.{q96}
use funi.V4.Plan.{amounts_between}

module _ (price lower upper liquidity : ℕ) (low_pos : 0 < lower) (ordered : lower < upper) where
  token0_shrinks :
      lower < price
      → price < upper
      → liquidity * (upper - price) * q96 / (price * upper)
        ≤ liquidity * (upper - lower) * q96 / (lower * upper)
  token0_shrinks above_low below_up =
      div_cross _ (price * upper) _ (lower * upper) (mul-pos (omega arith) (omega arith))
        (mul-pos low_pos (omega arith))
        (omega (arith, mul-le-mul_right (liquidity * q96 * upper) cross))
    where
      cross : (upper - price) * lower ≤ (upper - lower) * price
      cross =
          mul-le-mul {n₁ = upper - price} {m₁ = lower} {n₂ = upper - lower} {m₂ = price}
            (omega arith) (omega arith)

  token1_grows :
      lower ≤ price
      → price < upper
      → liquidity * (price - lower) / q96 ≤ liquidity * (upper - lower) / q96
  token1_grows above_low below_up =
      div_mono _ _ q96 (omega arith)
        (mul-le-mul_left {m = price - lower} {n = upper - lower} liquidity (omega arith))

-- Between two prices in order a liquidity never stands for more of token 0 than at the lower price,
-- nor for more of token 1 than at the upper price.
pub amounts_are_bounded :
    (price lower upper liquidity : ℕ)
    → 0 < lower
    → lower < upper
    → ((amounts_between price lower upper liquidity).0
        ≤ (amounts_between lower lower upper liquidity).0)
      × ((amounts_between price lower upper liquidity).1
          ≤ (amounts_between upper lower upper liquidity).1)
unfolding amounts_between
amounts_are_bounded price lower upper liquidity nz h = ground (
  arith,
  token0_shrinks price lower upper liquidity nz h,
  token1_grows price lower upper liquidity nz h,
)
