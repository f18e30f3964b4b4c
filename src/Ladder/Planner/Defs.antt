-- ===== src/Ladder/Planner/Defs.antt =====
-- `v4BidLadderSlices` and `splitV4BidLadderFunding`. The scaled boundary is `Math.floor` of a quotient
-- of doubles whose terms are below 2^53, so it is the quotient of integers.
use funi.Common.{
  ℕ, ◌-◌, ◌*◌, ◌/◌, Bool, false, ◌||◌, List, [], ◌∷◌, ◌++◌, map, leb, ◌==◌, if◌then◌else◌,
  any_where, sum, Result, ok, err,
}

pub data Error : Type 0 where
  max_downside_invalid scaled_boundary_collapse funding_invalid capital_too_small : Error

-- `V4_BID_LADDER_NORMALIZED_BOUNDARIES_BPS`, but for the last, and `V4_BID_LADDER_WEIGHTS_BPS`.
abbrev pub normalized_boundaries_bps : List ℕ
normalized_boundaries_bps = 100 ∷ 500 ∷ 1200 ∷ 2200 ∷ 3500 ∷ []

abbrev pub weights_bps : List ℕ
weights_bps = 800 ∷ 1200 ∷ 1800 ∷ 2500 ∷ 3700 ∷ []

abbrev pub weight_total_bps : ℕ
weight_total_bps = 10000

pub record Slice : Type 0 where
  pub upper_drop_bps : ℕ
  pub lower_drop_bps : ℕ
  pub weight_bps : ℕ

abbrev pub scaled_boundaries : ℕ → List ℕ
scaled_boundaries max_downside_bps =
    map (λ value. value * max_downside_bps / 5000) normalized_boundaries_bps
    ++ max_downside_bps ∷ []

-- A boundary that is 0, or no larger than the one before it.
abbrev pub collapses_after : ℕ → List ℕ → Bool
collapses_after last [] = false
collapses_after last (b ∷ bs) = leb b last || collapses_after b bs

abbrev pub slices_between : List ℕ → List ℕ → List Slice
slices_between (u ∷ l ∷ bs) (w ∷ ws) =
    record { upper_drop_bps = u; lower_drop_bps = l; weight_bps = w } ∷ slices_between (l ∷ bs) ws
slices_between _ _ = []

-- `v4BidLadderSlices`
unfoldable pub v4_bid_ladder_slices : ℕ → Result Error (List Slice)
v4_bid_ladder_slices max_downside_bps =
    if max_downside_bps == 0 || leb 10000 max_downside_bps
    then err max_downside_invalid
    else (if collapses_after 0 (scaled_boundaries max_downside_bps)
        then err scaled_boundary_collapse
        else ok (slices_between (scaled_boundaries max_downside_bps) weights_bps))

-- The first four amounts, and the last, which is what is left.
abbrev pub first_amounts : ℕ → List ℕ
first_amounts total =
    map (λ weight. total * weight / weight_total_bps) (800 ∷ 1200 ∷ 1800 ∷ 2500 ∷ [])

-- `splitV4BidLadderFunding`
unfoldable pub split_v4_bid_ladder_funding : ℕ → Result Error (List ℕ)
split_v4_bid_ladder_funding total =
    if total == 0
    then err funding_invalid
    else (let amounts : List ℕ = first_amounts total ++ (total - sum (first_amounts total)) ∷ [] in
        if any_where (λ amount. amount == 0) amounts then err capital_too_small else ok amounts)
