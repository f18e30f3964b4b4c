-- ===== src/Ladder/Planner/Tests.antt =====
-- The theorems on the planner, applied to a downside of half and to a small funding.
use funi.Common.{ℕ, ◌≡◌, refl, List, [], ◌∷◌, ok, arith, sum}
use funi.Ladder.Planner.Defs.{Slice, v4_bid_ladder_slices, split_v4_bid_ladder_funding}
use funi.Ladder.Planner.Slices.{IsLadder, total_weight, slices_cover}
use funi.Ladder.Planner.Funding.{AreShares, split_conserves}

slices_cover_example :
    (ss : List Slice) × (v4_bid_ladder_slices 5000 ≡ ok ss)
    × IsLadder 100 5000 ss
    × (total_weight ss ≡ 10000)
slices_cover_example = slices_cover 5000 (omega arith) (omega arith)

split_conserves_example :
    (amounts : List ℕ) × (split_v4_bid_ladder_funding 13 ≡ ok amounts)
    × (sum amounts ≡ 13)
    × AreShares 13 (800 ∷ 1200 ∷ 1800 ∷ 2500 ∷ 3700 ∷ []) amounts
split_conserves_example = split_conserves 13 (omega arith)

split_of_13 : split_v4_bid_ladder_funding 13 ≡ ok (1 ∷ 1 ∷ 2 ∷ 3 ∷ 6 ∷ [])
unfolding split_v4_bid_ladder_funding
split_of_13 = refl
