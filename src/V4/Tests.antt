-- ===== src/V4/Tests.antt =====
-- The theorems on pools and plans, applied to one pool.
use funi.Common.{
  ℕ, ◌<◌, ◌^◌, ◌≤◌, ◌≡◌, refl, true, not, ◌&&◌, none, text, lower, text_eq, leb, ok, arith, pos,
  negsuc,
}
use funi.V4.Price.{sqrt_price_at_tick}
use funi.V4.PriceOrder.{sqrt_price_rises, sqrt_price_bounds}
use funi.V4.Pool.{
  PoolState, v4_execution_blockers, max_execution_static_fee_pips, is_empty, exceeds, zero_address,
}
use funi.V4.Blockers.{execution_is_open}
use funi.V4.Plan.{Index, PlanInput, MintPlan, plan_between, amounts_between}
use funi.V4.Funding.{IsFunded, plan-IsFunded}
use funi.V4.Exposure.{amounts_are_bounded}

abbrev pool : PoolState
pool = record {
  key = record {
    currency0 = text "0xaa";
    currency1 = text "0xbb";
    fee = 3000;
    tick_spacing = 60;
    hooks = zero_address;
  };
  sqrt_price_x96 = 2 ^ 97;
  tick = pos 13863;
  liquidity = 5;
  initialized = true;
  block_number = 1;
  lp_fee = none;
  fee_semantics = none;
  hook_blockers = none;
}

abbrev input : PlanInput
input = record {
  pool = pool;
  target = text "0xAA";
  funding = text "0xbb";
  funding_amount = 1001;
  owner = text "0xcc";
  deadline = 9;
  range_valid = true;
  tick_lower = negsuc 59;
  tick_upper = pos 60;
}

price_at_zero : sqrt_price_at_tick (pos 0) ≡ ok (2 ^ 96)
unfolding sqrt_price_at_tick
price_at_zero = refl

-- The least price of TickMath.
price_at_min_tick : sqrt_price_at_tick (negsuc 887271) ≡ ok 4295128739
unfolding sqrt_price_at_tick
price_at_min_tick = refl

execution_is_open_example : is_empty (v4_execution_blockers pool max_execution_static_fee_pips) ≡ (
    leb 3000 50000
    && (not (exceeds none 1000000) && (text_eq (lower zero_address) zero_address && true)))
execution_is_open_example = execution_is_open pool refl refl

plan-IsFunded_example :
    (plan : MintPlan) × (plan_between input Index.zeroth Index.first (2 ^ 95) (2 ^ 96) ≡ ok plan)
    × IsFunded Index.first 1001 plan (amounts_between (2 ^ 97) (2 ^ 95) (2 ^ 96) plan.liquidity)
plan-IsFunded_example =
    plan-IsFunded input Index.zeroth Index.first (2 ^ 95) (2 ^ 96) (2 ^ 97) (omega arith)
      (omega arith) (omega arith) (omega arith)

amounts_are_bounded_example :
    ((amounts_between (2 ^ 96) (2 ^ 95) (2 ^ 97) 1000).0
      ≤ (amounts_between (2 ^ 95) (2 ^ 95) (2 ^ 97) 1000).0)
    × ((amounts_between (2 ^ 96) (2 ^ 95) (2 ^ 97) 1000).1
        ≤ (amounts_between (2 ^ 97) (2 ^ 95) (2 ^ 97) 1000).1)
amounts_are_bounded_example =
    amounts_are_bounded (2 ^ 96) (2 ^ 95) (2 ^ 97) 1000 (omega arith) (omega arith)

sqrt_price_rises_example :
    (p q : ℕ) × (sqrt_price_at_tick (negsuc 59) ≡ ok p)
    × (sqrt_price_at_tick (pos 60) ≡ ok q)
    × (p < q)
sqrt_price_rises_example = sqrt_price_rises (negsuc 59) (pos 60) refl (omega arith) (omega arith)

sqrt_price_bounds_example :
    (p : ℕ) × (sqrt_price_at_tick (negsuc 59) ≡ ok p)
    × (4295128739 ≤ p)
    × (p ≤ 1461446703485210103287273052203988822378723970342)
    × (p < 2 ^ 160)
    × (sqrt_price_at_tick (negsuc 887271) ≡ ok 4295128739)
    × (sqrt_price_at_tick (pos 887272) ≡ ok 1461446703485210103287273052203988822378723970342)
sqrt_price_bounds_example = sqrt_price_bounds (negsuc 59) (omega arith)
