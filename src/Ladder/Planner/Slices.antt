-- ===== src/Ladder/Planner/Slices.antt =====
-- The slices of a downside.
use funi.Common.{ℕ, ◌+◌, ◌/◌, ◌≤◌, ◌<◌, ◌≡◌, refl, false, List, [], ◌∷◌, arith, ok}
use funi.Ladder.Planner.Defs.{
  Slice, scaled_boundaries, slices_between, collapses_after, weights_bps, v4_bid_ladder_slices,
}

-- Slices from one drop to another: each begins where the one before ended and goes deeper.
pub IsLadder : ℕ → ℕ → List Slice → Type 0
IsLadder from to [] = from ≡ to
IsLadder from to (s ∷ ss) =
    (s.upper_drop_bps ≡ from)
    × (s.upper_drop_bps < s.lower_drop_bps)
    × IsLadder s.lower_drop_bps to ss

abbrev pub total_weight : List Slice → ℕ
total_weight [] = 0
total_weight (s ∷ ss) = s.weight_bps + total_weight ss

slices_valid : (m : ℕ) → 50 ≤ m → m < 10000 → collapses_after 0 (scaled_boundaries m) ≡ false
slices_valid m lo hi = ground arith

-- A maximal downside from 50 to 9999 basis points has slices: they lead without a gap from a fiftieth
-- of it, rounded down, to exactly the downside itself, each goes deeper than it begins, and their
-- weights add up to 10000.
pub slices_cover :
    (m : ℕ)
    → 50 ≤ m
    → m < 10000
    → (ss : List Slice) × (v4_bid_ladder_slices m ≡ ok ss)
      × IsLadder (m / 50) m ss
      × (total_weight ss ≡ 10000)
unfolding v4_bid_ladder_slices IsLadder
slices_cover m lo hi = (
  slices_between (scaled_boundaries m) weights_bps,
  ground (arith, slices_valid m lo hi),
  ground arith,
  refl,
)
