-- ===== src/V4/PriceOrder.antt =====
-- The price rises with the tick.
use funi.Common.{
  ℕ, zero, suc, ◌+◌, ◌-◌, ◌/◌, ◌^◌, ◌≤◌, ◌<◌, ◌≡◌, ◌⊎◌, refl, ap, inl, inr, true, false, arith, ltb,
  ok, ℤ, pos, negsuc, magnitude, ltb_ℤ,
}
use native.Mathlib.Nat.{mul-le-mul_left, le-div_iff_mul-le, div-mul-le_self, add-mul, mul-add}
use funi.V4.Price.{max_tick, q128, ratio_of, rounded, sqrt_price_at_tick}
use funi.V4.PriceBounds.{ratio_bounds, inverse_bounds}
use funi.V4.RatioOrder.{gap, ratio_parted}

-- The prices of a tick that is not positive, and of one that is, by the magnitude.
abbrev down : ℕ → ℕ
down n = rounded (ratio_of n)

abbrev up : ℕ → ℕ
up n = rounded ((2 ^ 256 - 1) / ratio_of n)

rounded_rises : (a b : ℕ) → a + 2 ^ 32 ≤ b → rounded a < rounded b
rounded_rises a b h = ground arith

ltb-false : (a b : ℕ) → a ≤ b → ltb b a ≡ false
ltb-false a b h = ground arith

ℕ-cases : (n m : ℕ) → n ≤ m → (n ≡ m) ⊎ (n < m)
ℕ-cases n m h = ground (arith, h)

down_falls : (n : ℕ) → n + 1 ≤ max_tick → down (n + 1) < down n
down_falls n h = rounded_rises (ratio_of (n + 1)) (ratio_of n) (omega (arith, ratio_parted n h))

-- A gap of ratios is a gap of their inverses.
inverse_parted :
    (r s : ℕ)
    → r + gap ≤ s
    → 5800441176149320 ≤ r
    → s ≤ q128
    → (2 ^ 256 - 1) / s + 2 ^ 32 ≤ (2 ^ 256 - 1) / r
inverse_parted r s h lo hi =
    let k = (2 ^ 256 - 1) / s in
    (le-div_iff_mul-le {k = r} {x = k + 2 ^ 32} {y = 2 ^ 256 - 1} (omega (arith, lo))).1 (
      omega (
        arith,
        add-mul k (2 ^ 32) r,
        mul-add k r gap,
        mul-le-mul_left k h,
        div-mul-le_self (2 ^ 256 - 1) s,
        (inverse_bounds s (omega (arith, h, lo)) hi).0,
      ))

up_rises : (n : ℕ) → n + 1 ≤ max_tick → up n < up (n + 1)
up_rises n h = rounded_rises ((2 ^ 256 - 1) / ratio_of n) ((2 ^ 256 - 1) / ratio_of (n + 1)) (
    inverse_parted (ratio_of (n + 1)) (ratio_of n) (ratio_parted n h) (ratio_bounds (n + 1)).0
      (ratio_bounds n).1)

suc_is : (m : ℕ) → suc m ≡ m + 1
suc_is m = omega arith

-- From neighbours to any two magnitudes.
module _ (f : ℕ → ℕ) where
  falls_between :
      ((n : ℕ) → n + 1 ≤ max_tick → f (n + 1) < f n) → (n m : ℕ) → n < m → m ≤ max_tick → f m < f n
  falls_between step n zero lt le = absurd (omega (arith, lt))
  falls_between step n (suc m) lt le =
      let last : f (suc m) < f m = rw (suc_is m) (step m (omega (arith, le))) in
      elim (ℕ-cases n m (omega (arith, lt))) [
        | inl e ↦ rw e last
        | inr e ↦ omega (arith, last, falls_between step n m e (omega (arith, le)))
      ]

  rises_between :
      ((n : ℕ) → n + 1 ≤ max_tick → f n < f (n + 1)) → (n m : ℕ) → n < m → m ≤ max_tick → f n < f m
  rises_between step n zero lt le = absurd (omega (arith, lt))
  rises_between step n (suc m) lt le =
      let last : f m < f (suc m) = rw (suc_is m) (step m (omega (arith, le))) in
      elim (ℕ-cases n m (omega (arith, lt))) [
        | inl e ↦ rw e last
        | inr e ↦ omega (arith, last, rises_between step n m e (omega (arith, le)))
      ]

-- The price of a tick, whichever its sign.
abbrev price : ℤ → ℕ
price (pos n) = up n
price (negsuc n) = down (suc n)

at_zero : down 0 ≡ up 0
unfolding ratio_of
at_zero = refl

above_zero : (n : ℕ) → ltb 0 (suc n) ≡ true
above_zero n = ground arith

price_is : (t : ℤ) → magnitude t ≤ max_tick → sqrt_price_at_tick t ≡ ok (price t)
unfolding sqrt_price_at_tick
price_is (pos zero) h = ap ok at_zero
price_is (pos (suc n)) h = rw (ltb-false (suc n) max_tick h) (rw (above_zero n) refl)
price_is (negsuc n) h = rw (ltb-false (suc n) max_tick h) refl

down_below : (n : ℕ) → suc n ≤ max_tick → down (suc n) < up 0
down_below n h = rw (← at_zero) (falls_between down down_falls 0 (suc n) (omega arith) h)

up_above : (n : ℕ) → n ≤ max_tick → up 0 ≤ up n
up_above zero h = omega arith
up_above (suc n) h = omega (arith, rises_between up up_rises 0 (suc n) (omega arith) h)

price_rises :
    (s t : ℤ)
    → ltb_ℤ s t ≡ true
    → magnitude s ≤ max_tick
    → magnitude t ≤ max_tick
    → price s < price t
price_rises (pos a) (pos b) lt hs ht = rises_between up up_rises a b (ground (arith, lt)) ht
price_rises (pos a) (negsuc b) lt hs ht = absurd (ground (arith, lt))
price_rises (negsuc a) (pos b) lt hs ht = omega (arith, down_below a hs, up_above b ht)
price_rises (negsuc a) (negsuc b) lt hs ht =
    falls_between down down_falls (suc b) (suc a) (ground (arith, lt)) hs

-- Every tick from -887272 to 887272 has a price, and of two such ticks the larger has the larger one.
pub sqrt_price_rises :
    (s t : ℤ)
    → ltb_ℤ s t ≡ true
    → magnitude s ≤ max_tick
    → magnitude t ≤ max_tick
    → (p q : ℕ) × (sqrt_price_at_tick s ≡ ok p) × (sqrt_price_at_tick t ≡ ok q) × (p < q)
sqrt_price_rises s t lt hs ht =
    (price s, price t, price_is s hs, price_is t ht, price_rises s t lt hs ht)

lowest_price : price (negsuc 887271) ≡ 4295128739
unfolding ratio_of
lowest_price = refl

highest_price : price (pos 887272) ≡ 1461446703485210103287273052203988822378723970342
unfolding ratio_of
highest_price = refl

price_low : (t : ℤ) → magnitude t ≤ max_tick → 4295128739 ≤ price t
price_low (pos n) h = omega (arith, up_above n h, down_below 887271 (omega arith), lowest_price)
price_low (negsuc n) h = elim (ℕ-cases n 887271 (omega (arith, h))) [
  | inl e ↦ rw e (omega (arith, lowest_price))
  | inr e ↦ omega (
    arith,
    lowest_price,
    falls_between down down_falls (suc n) 887272 (omega (arith, e)) (omega arith),
  )
]

price_high :
    (t : ℤ) → magnitude t ≤ max_tick → price t ≤ 1461446703485210103287273052203988822378723970342
price_high (negsuc n) h =
    omega (arith, down_below n h, up_above 887272 (omega arith), highest_price)
price_high (pos n) h = elim (ℕ-cases n 887272 h) [
  | inl e ↦ rw e (omega (arith, highest_price))
  | inr e ↦ omega (arith, highest_price, rises_between up up_rises n 887272 e (omega arith))
]

-- The price of every tick from -887272 to 887272 is at least 4295128739, the price of the least tick,
-- and at most 1461446703485210103287273052203988822378723970342, the price of the largest, which is
-- below 2^160.
pub sqrt_price_bounds :
    (t : ℤ)
    → magnitude t ≤ max_tick
    → (p : ℕ) × (sqrt_price_at_tick t ≡ ok p)
      × (4295128739 ≤ p)
      × (p ≤ 1461446703485210103287273052203988822378723970342)
      × (p < 2 ^ 160)
      × (sqrt_price_at_tick (negsuc 887271) ≡ ok 4295128739)
      × (sqrt_price_at_tick (pos 887272) ≡ ok 1461446703485210103287273052203988822378723970342)
sqrt_price_bounds t h = (
  price t,
  price_is t h,
  price_low t h,
  price_high t h,
  omega (arith, price_high t h),
  rw (← lowest_price) (price_is (negsuc 887271) (omega arith)),
  rw (← highest_price) (price_is (pos 887272) (omega arith)),
)
