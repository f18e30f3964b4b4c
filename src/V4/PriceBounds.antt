-- ===== src/V4/PriceBounds.antt =====
-- The bounds of the ratio at a tick, and of its inverse.
use funi.Common.{ℕ, ◌-◌, ◌*◌, ◌/◌, ◌^◌, ◌≤◌, inl, inr, List, [], ◌∷◌, arith, All, Bool-cases}
use native.Mathlib.Nat.{
  div-le_of_le-mul, mul-le-mul_left, mul-le-mul_right, le-div_iff_mul-le, div-lt_iff_lt-mul,
  mul_comm,
}
use funi.V4.Division.{div_mono}
use funi.V4.Price.{q128, first_factor, factors, has_bit, scaled, ratio_of}

-- The ratio when every bit is set, which is the least.
abbrev lowest : List (ℕ × ℕ) → ℕ → ℕ
lowest [] r = r
lowest ((bit, c) ∷ cs) r = lowest cs (r * c / q128)

abbrev IsFactor : ℕ × ℕ → Type 0
IsFactor (bit, c) = c ≤ q128

-- One factor takes the ratio down, and keeps the order of two ratios.
factor_le : (r c : ℕ) → c ≤ q128 → r * c / q128 ≤ r
factor_le r c h = div-le_of_le-mul q128 (omega (arith, mul-le-mul_left r h, mul_comm r q128))

scaled_le : (abs : ℕ) (cs : List (ℕ × ℕ)) (r : ℕ) → All IsFactor cs → scaled abs cs r ≤ r
unfolding scaled
scaled_le abs [] r h = omega arith
scaled_le abs ((bit, c) ∷ cs) r h = elim (Bool-cases (has_bit abs bit)) [
  | inl e ↦ rw e (omega (arith, scaled_le abs cs (r * c / q128) h.1, factor_le r c h.0))
  | inr e ↦ rw e (scaled_le abs cs r h.1)
]

lowest_le :
    (abs : ℕ) (cs : List (ℕ × ℕ)) (l r : ℕ)
    → All IsFactor cs
    → l ≤ r
    → lowest cs l ≤ scaled abs cs r
unfolding scaled
lowest_le abs [] l r h le = le
lowest_le abs ((bit, c) ∷ cs) l r h le = elim (Bool-cases (has_bit abs bit)) [
  | inl e ↦ rw e (
      lowest_le abs cs (l * c / q128) (r * c / q128) h.1
        (div_mono (l * c) (r * c) q128 (omega arith) (mul-le-mul_right c le)))
  | inr e ↦ rw e (lowest_le abs cs (l * c / q128) r h.1 (omega (arith, factor_le l c h.0)))
]

factors_small : All IsFactor factors
factors_small = ground arith

pub ratio_bounds : (abs : ℕ) → (5800441176149320 ≤ ratio_of abs) × (ratio_of abs ≤ q128)
unfolding ratio_of
ratio_bounds abs = elim (Bool-cases (has_bit abs 1)) [
  | inl e ↦ rw e (
    lowest_le abs factors first_factor first_factor factors_small (omega arith),
    omega (arith, scaled_le abs factors first_factor factors_small),
  )
  | inr e ↦ rw e (
    lowest_le abs factors first_factor q128 factors_small (omega arith),
    omega (arith, scaled_le abs factors q128 factors_small),
  )
]

-- The inverse ratio, for positive ticks.
pub inverse_bounds :
    (r : ℕ)
    → 5800441176149320 ≤ r
    → r ≤ q128
    → (q128 - 1 ≤ (2 ^ 256 - 1) / r)
      × ((2 ^ 256 - 1) / r ≤ 19962634861885784045402100934094270028985641464750616420343303)
inverse_bounds r lo hi = (
  (le-div_iff_mul-le {k = r} {x = q128 - 1} {y = 2 ^ 256 - 1} (omega arith)).1
      (omega (arith, mul-le-mul_left (q128 - 1) hi)),
  omega (
    arith,
    (div-lt_iff_lt-mul {k = r} {x = 2 ^ 256 - 1}
          {y = 19962634861885784045402100934094270028985641464750616420343304} (omega arith)).1
        (omega (
          arith,
          mul-le-mul_left 19962634861885784045402100934094270028985641464750616420343304 lo,
        )),
  ),
)
