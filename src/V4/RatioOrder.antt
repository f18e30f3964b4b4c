-- ===== src/V4/RatioOrder.antt =====
-- The ratio falls as the magnitude of the tick grows. It is computed from the lowest bit up, so two
-- consecutive magnitudes part at the lowest bit that the first has not set: below it one has every bit
-- and the other none, and above it they agree.
use funi.Common.{
  ℕ, ◌+◌, ◌-◌, ◌*◌, ◌/◌, ◌%◌, ◌≤◌, ◌<◌, ◌≡◌, refl, sym, subst, inl, inr, Bool, true, false, List,
  [], ◌∷◌, arith, leb, ◌&&◌, ◌==◌, if◌then◌else◌, All, Bool-cases,
}
use native.Mathlib.Nat.{
  div-le_of_le-mul, mul-le-mul_left, mul-le-mul_right, le-div_iff_mul-le, div-mul-le_self, mul_comm,
  add-mul, div-div-eq-div-mul,
}
use funi.V4.Division.{div_mono}
use funi.V4.Price.{max_tick, q128, first_factor, factors, scaled, ratio_of}

-- The same computation on the factors alone, by halving.
abbrev halved : List ℕ → ℕ → ℕ → ℕ
halved [] n r = r
halved (c ∷ cs) n r = halved cs (n / 2) (if n % 2 == 1 then r * c / q128 else r)

abbrev values : List (ℕ × ℕ) → List ℕ
values [] = []
values ((bit, c) ∷ cs) = c ∷ values cs

-- Bits from one power of 2 on.
abbrev AreBits : ℕ → List (ℕ × ℕ) → Type 0
AreBits bit [] = Unit
AreBits bit ((b, c) ∷ cs) = (b ≡ bit) × AreBits (2 * bit) cs

-- A gap between two ratios, scaled as they are, with every factor.
abbrev least_gap : List ℕ → ℕ → ℕ
least_gap [] d = d
least_gap (c ∷ cs) d = least_gap cs (d * c / q128)

abbrev IsFactor : ℕ → Type 0
IsFactor c = c ≤ q128

floor_add : (a b k : ℕ) → 0 < k → a / k + b / k ≤ (a + b) / k
floor_add a b k nz =
    (le-div_iff_mul-le {k = k} {x = a / k + b / k} {y = a + b} nz).1
      (omega (arith, div-mul-le_self a k, div-mul-le_self b k, add-mul (a / k) (b / k) k))

factor_le : (r c : ℕ) → c ≤ q128 → r * c / q128 ≤ r
factor_le r c h = div-le_of_le-mul q128 (omega (arith, mul-le-mul_left r h, mul_comm r q128))

gap_scaled : (a b d c : ℕ) → a + d ≤ b → a * c / q128 + d * c / q128 ≤ b * c / q128
gap_scaled a b d c h = omega (
  arith,
  floor_add (a * c) (d * c) q128 (omega arith),
  div_mono (a * c + d * c) (b * c) q128 (omega arith)
      (omega (arith, mul-le-mul_right c h, add-mul a d c)),
)

gap_kept :
    (cs : List ℕ) (n a b d : ℕ)
    → All IsFactor cs
    → a + d ≤ b
    → halved cs n a + least_gap cs d ≤ halved cs n b
gap_kept [] n a b d small h = h
gap_kept (c ∷ cs) n a b d small h = elim (Bool-cases (n % 2 == 1)) [
  | inl e ↦ rw e (
      gap_kept cs (n / 2) (a * c / q128) (b * c / q128) (d * c / q128) small.1
        (gap_scaled a b d c h))
  | inr e ↦
      rw e
        (gap_kept cs (n / 2) a b (d * c / q128) small.1 (omega (arith, h, factor_le d c small.0)))
]

-- The greatest number with as many bits.
abbrev full : List ℕ → ℕ
full [] = 0
full (c ∷ cs) = 2 * full cs + 1

-- From the ratio `l` of all lower bits, each factor leaves a gap of at least `g` in the end.
abbrev fits : List ℕ → ℕ → ℕ → Bool
fits [] l g = true
fits (c ∷ cs) l g = leb c l && (leb g (least_gap cs (l - c)) && fits cs (l * c / q128) g)

parted :
    (cs : List ℕ) (n l g : ℕ)
    → All IsFactor cs
    → fits cs l g ≡ true
    → n + 1 ≤ full cs
    → halved cs (n + 1) q128 + g ≤ halved cs n l
parted [] n l g small f h = absurd (omega (arith, h))
parted (c ∷ cs) n l g small f h = elim (Bool-cases (n % 2 == 1)) [
  | inr e ↦
      let odd : ((n + 1) % 2 == 1) ≡ true = ground arith in
      let half : (n + 1) / 2 ≡ n / 2 = ground arith in
      let unit : q128 * c / q128 ≡ c = omega arith in
      let least : g ≤ least_gap cs (l - c) = ground arith in
      let below : c ≤ l = ground arith in
      rw (e, odd, half, unit)
        (omega (arith, least, gap_kept cs (n / 2) c l (l - c) small.1 (omega (arith, below))))
  | inl e ↦
      let even : ((n + 1) % 2 == 1) ≡ false = ground arith in
      let half : (n + 1) / 2 ≡ n / 2 + 1 = ground arith in
      rw (e, even, half) (parted cs (n / 2) (l * c / q128) g small.1 (ground arith) (ground arith))
]

halved-scaled :
    (abs bit : ℕ) (cs : List (ℕ × ℕ)) (r : ℕ)
    → AreBits bit cs
    → scaled abs cs r ≡ halved (values cs) (abs / bit) r
unfolding scaled
halved-scaled abs bit [] r h = refl
halved-scaled abs bit ((b, c) ∷ cs) r h =
    let here : abs / b ≡ abs / bit = rw (h.0) refl in
    let next : abs / (2 * bit) ≡ abs / bit / 2 =
      rw (mul_comm 2 bit) (sym (div-div-eq-div-mul abs bit 2)) in
    let step = if abs / bit % 2 == 1 then r * c / q128 else r in
    rw here (
      subst (λ m. scaled abs cs step ≡ halved (values cs) m step) next
        (halved-scaled abs (2 * bit) cs step h.1))

abbrev all_values : List ℕ
all_values = first_factor ∷ values factors

ratio_halved : (abs : ℕ) → ratio_of abs ≡ halved all_values abs q128
unfolding ratio_of
ratio_halved abs =
    let one : abs / 1 ≡ abs = omega arith in
    let unit : q128 * first_factor / q128 ≡ first_factor = omega arith in
    rw one (rw unit (halved-scaled abs 2 factors _ (ground arith)))

values_are_small : All IsFactor all_values
values_are_small = ground arith

abbrev pub gap : ℕ
gap = 290014808618

-- Consecutive magnitudes.
pub ratio_parted : (n : ℕ) → n + 1 ≤ max_tick → ratio_of (n + 1) + gap ≤ ratio_of n
ratio_parted n h =
    rw (ratio_halved (n + 1), ratio_halved n)
      (parted all_values n q128 gap values_are_small refl (omega (arith, h)))
