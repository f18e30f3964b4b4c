-- ===== src/Ladder/Planner/Funding.antt =====
-- The split of the funding.
use funi.Common.{ℕ, ◌+◌, ◌-◌, ◌*◌, ◌/◌, ◌≤◌, ◌<◌, ◌≡◌, List, [], ◌∷◌, ◌++◌, arith, ok, sum}
use funi.Ladder.Planner.Defs.{split_v4_bid_ladder_funding, first_amounts}

-- An amount that gets at least its weight of the total, rounded down, and less than four units more.
abbrev pub IsShare : ℕ → ℕ → ℕ → Type 0
IsShare total weight amount =
    (0 < amount) × (total * weight / 10000 ≤ amount) × (amount ≤ total * weight / 10000 + 4)

pub AreShares : ℕ → List ℕ → List ℕ → Type 0
AreShares total [] [] = Unit
AreShares total (w ∷ ws) (a ∷ rest) = IsShare total w a × AreShares total ws rest
AreShares total _ _ = ⊥

-- A funding of at least 13 units is split into five amounts that add up to exactly the funding, each
-- of them positive, at least its weight of the funding rounded down, and at most 4 units above that.
pub split_conserves :
    (total : ℕ)
    → 13 ≤ total
    → (amounts : List ℕ) × (split_v4_bid_ladder_funding total ≡ ok amounts)
      × (sum amounts ≡ total)
      × AreShares total (800 ∷ 1200 ∷ 1800 ∷ 2500 ∷ 3700 ∷ []) amounts
unfolding split_v4_bid_ladder_funding AreShares
split_conserves total h = (
  first_amounts total ++ (total - sum (first_amounts total)) ∷ [],
  ground arith,
  omega arith,
  ground arith,
)
