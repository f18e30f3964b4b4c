-- ===== src/V4/Price.antt =====
-- `sqrtPriceAtTick`: the port of TickMath, on integers. A bit of the tick is tested by a quotient,
-- and a shift to the right is a division by a power of 2.
use funi.Common.{
  ℕ, ◌+◌, ◌-◌, ◌*◌, ◌/◌, ◌%◌, ◌^◌, Bool, List, [], ◌∷◌, ltb, ◌==◌, if◌then◌else◌, Result, ok, err,
  ℤ, magnitude, is_positive,
}
use funi.V4.Errors.{Error, tick_overflow}

abbrev pub max_tick : ℕ
max_tick = 887272

abbrev pub q96 : ℕ
q96 = 2 ^ 96

abbrev pub q128 : ℕ
q128 = 2 ^ 128

-- The factor of the lowest bit, and the table of the others.
abbrev pub first_factor : ℕ
first_factor = 340265354078544963557816517032075149313

abbrev pub factors : List (ℕ × ℕ)
factors =
    (2, 340248342086729790484326174814286782778)
    ∷ (4, 340214320654664324051920982716015181260)
    ∷ (8, 340146287995602323631171512101879684304)
    ∷ (16, 340010263488231146823593991679159461444)
    ∷ (32, 339738377640345403697157401104375502016)
    ∷ (64, 339195258003219555707034227454543997025)
    ∷ (128, 338111622100601834656805679988414885971)
    ∷ (256, 335954724994790223023589805789778977700)
    ∷ (512, 331682121138379247127172139078559817300)
    ∷ (1024, 323299236684853023288211250268160618739)
    ∷ (2048, 307163716377032989948697243942600083929)
    ∷ (4096, 277268403626896220162999269216087595045)
    ∷ (8192, 225923453940442621947126027127485391333)
    ∷ (16384, 149997214084966997727330242082538205943)
    ∷ (32768, 66119101136024775622716233608466517926)
    ∷ (65536, 12847376061809297530290974190478138313)
    ∷ (131072, 485053260817066172746253684029974020)
    ∷ (262144, 691415978906521570653435304214168)
    ∷ (524288, 1404880482679654955896180642)
    ∷ []

abbrev pub has_bit : ℕ → ℕ → Bool
has_bit n bit = n / bit % 2 == 1

unfoldable pub scaled : ℕ → List (ℕ × ℕ) → ℕ → ℕ
scaled abs [] ratio = ratio
scaled abs ((bit, c) ∷ cs) ratio =
    scaled abs cs (if has_bit abs bit then ratio * c / q128 else ratio)

unfoldable pub ratio_of : ℕ → ℕ
unfolding scaled
ratio_of abs = scaled abs factors (if has_bit abs 1 then first_factor else q128)

-- `(ratio>>32n)+(ratio%(1n<<32n)===0n?0n:1n)`
abbrev pub rounded : ℕ → ℕ
rounded ratio = ratio / 2 ^ 32 + (if ratio % 2 ^ 32 == 0 then 0 else 1)

unfoldable pub sqrt_price_at_tick : ℤ → Result Error ℕ
unfolding ratio_of
sqrt_price_at_tick tick =
    if ltb max_tick (magnitude tick)
    then err tick_overflow
    else ok (
        rounded (
          if is_positive tick
          then (2 ^ 256 - 1) / ratio_of (magnitude tick)
          else ratio_of (magnitude tick)))
