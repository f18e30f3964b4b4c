-- ===== src/V4/Plan.antt =====
-- The single-sided mint plan, and the amounts and state of a position.
use funi.Common.{
  ℕ, ◌+◌, ◌-◌, ◌*◌, ◌/◌, ◌%◌, Bool, true, false, not, ◌&&◌, ◌||◌, Option, none, some, Text, lower,
  text_eq, ltb, leb, ◌==◌, if◌then◌else◌, Result, ok, err, ◌>>=◌, ◌>>◌, throw_if, ℤ, pos, negsuc,
  ltb_ℤ, leb_ℤ, is_multiple,
}
use funi.V4.Errors.{
  Error, token_orientation_mismatch, pool_execution_blocked, range_request_invalid,
  tick_spacing_invalid, not_strict_funding_only, tick_range_invalid, division_by_zero,
  funding_cap_exceeded, target_amount_must_be_zero, exactly_one_funding_token_required,
  funding_or_liquidity_zero, position_amount_input_invalid, slippage_invalid, range_state_invalid,
}
use funi.V4.Price.{q96, max_tick, sqrt_price_at_tick}
use funi.V4.Pool.{
  PoolKey, PoolState, v4_execution_blockers, max_execution_static_fee_pips, is_empty,
}

-- A token's index in the pool key.
pub data Index : Type 0 where
  zeroth first : Index

abbrev pub index_eq : Index → Index → Bool
index_eq Index.zeroth Index.zeroth = true
index_eq Index.first Index.first = true
index_eq _ _ = false

abbrev pub index_of : PoolKey → Text → Option Index
index_of key token =
    if text_eq (lower key.currency0) (lower token)
    then some Index.zeroth
    else (if text_eq (lower key.currency1) (lower token) then some Index.first else none)

abbrev pub roles : Option Index → Option Index → Result Error (Index × Index)
roles (some t) (some f) = if index_eq t f then err token_orientation_mismatch else ok (t, f)
roles _ _ = err token_orientation_mismatch

-- `genericV4Roles`: the target's index and the funding token's.
unfoldable pub generic_v4_roles : PoolState → Text → Text → Result Error (Index × Index)
unfolding v4_execution_blockers
generic_v4_roles pool target funding = do
  (t, f) ← roles (index_of pool.key target) (index_of pool.key funding)
  throw_if (not (is_empty (v4_execution_blockers pool max_execution_static_fee_pips)))
      pool_execution_blocked
  ok (t, f)

abbrev pub ceil_div : ℕ → ℕ → ℕ
ceil_div a b = a / b + (if a % b == 0 then 0 else 1)

-- The liquidity that an amount of the funding token buys between two prices, and what it costs.
abbrev pub liquidity_for : Index → ℕ → ℕ → ℕ → ℕ
liquidity_for Index.first amount lower upper = amount * q96 / (upper - lower)
liquidity_for Index.zeroth amount lower upper = amount * lower * upper / (q96 * (upper - lower))

abbrev pub cost_of : Index → ℕ → ℕ → ℕ → ℕ
cost_of Index.first liquidity lower upper = ceil_div (liquidity * (upper - lower)) q96
cost_of Index.zeroth liquidity lower upper =
    ceil_div (liquidity * (upper - lower) * q96) (lower * upper)

pub record MintPlan : Type 0 where
  pub tick_lower : ℤ
  pub tick_upper : ℤ
  pub liquidity : ℕ
  pub amount0_max : ℕ
  pub amount1_max : ℕ
  pub owner : Text
  pub deadline : ℕ
  pub target_index : Index
  pub funding_index : Index
  pub current_tick : ℤ
  pub sqrt_price_x96 : ℕ
  pub amount0_expected : ℕ
  pub amount1_expected : ℕ

pub record PlanInput : Type 0 where
  pub pool : PoolState
  pub target : Text
  pub funding : Text
  pub funding_amount : ℕ
  pub owner : Text
  pub deadline : ℕ
  pub range_valid : Bool
  pub tick_lower : ℤ
  pub tick_upper : ℤ

abbrev pub on_index : Index → Index → ℕ → ℕ
on_index i j n = if index_eq i j then n else 0

-- The guards of `buildV4Mint`.
unfoldable pub build_v4_mint : MintPlan → Result Error MintPlan
build_v4_mint plan = do
  throw_if
      ((index_eq plan.funding_index Index.zeroth && not (plan.amount1_max == 0))
        || (index_eq plan.funding_index Index.first && not (plan.amount0_max == 0)))
      target_amount_must_be_zero
  throw_if
      ((plan.amount0_max == 0 && plan.amount1_max == 0)
        || (not (plan.amount0_max == 0) && not (plan.amount1_max == 0)))
      exactly_one_funding_token_required
  throw_if (plan.liquidity == 0) funding_or_liquidity_zero
  ok plan

-- Between two prices. A negative divisor makes the liquidity negative or zero, which is refused.
unfoldable pub plan_between : PlanInput → Index → Index → ℕ → ℕ → Result Error MintPlan
unfolding build_v4_mint
plan_between i t f lower upper =
    if lower == upper
    then err division_by_zero
    else (if ltb upper lower
        then err funding_cap_exceeded
        else (let liquidity = liquidity_for f i.funding_amount lower upper in
            let expected = cost_of f liquidity lower upper in
            if liquidity == 0 || (expected == 0 || ltb i.funding_amount expected)
            then err funding_cap_exceeded
            else build_v4_mint (record {
              tick_lower = i.tick_lower;
              tick_upper = i.tick_upper;
              liquidity = liquidity;
              amount0_max = on_index f Index.zeroth i.funding_amount;
              amount1_max = on_index f Index.first i.funding_amount;
              owner = i.owner;
              deadline = i.deadline;
              target_index = t;
              funding_index = f;
              current_tick = i.pool.tick;
              sqrt_price_x96 = i.pool.sqrt_price_x96;
              amount0_expected = on_index f Index.zeroth expected;
              amount1_expected = on_index f Index.first expected;
            })))

abbrev pub min_tick : ℤ
min_tick = negsuc 887271

-- `buildGenericV4SingleSidedPlanAtTicks`
unfoldable pub build_plan_at_ticks : PlanInput → Result Error MintPlan
unfolding generic_v4_roles plan_between sqrt_price_at_tick
build_plan_at_ticks i = do
  throw_if (not i.range_valid) range_request_invalid
  (t, f) ← generic_v4_roles i.pool i.target i.funding
  throw_if (i.pool.key.tick_spacing == 0) tick_spacing_invalid
  throw_if
      (not (is_multiple i.tick_lower i.pool.key.tick_spacing)
        || not (is_multiple i.tick_upper i.pool.key.tick_spacing))
      tick_spacing_invalid
  throw_if (index_eq t Index.zeroth && ltb_ℤ i.pool.tick i.tick_upper) not_strict_funding_only
  throw_if (index_eq t Index.first && ltb_ℤ i.tick_lower i.pool.tick) not_strict_funding_only
  throw_if
      (leb_ℤ i.tick_lower min_tick
        || (ltb_ℤ (pos max_tick) i.tick_upper || leb_ℤ i.tick_upper i.tick_lower))
      tick_range_invalid
  lower ← sqrt_price_at_tick i.tick_lower
  upper ← sqrt_price_at_tick i.tick_upper
  plan_between i t f lower upper

-- The two amounts that a liquidity stands for at a price, between two other prices.
unfoldable pub amounts_between : ℕ → ℕ → ℕ → ℕ → ℕ × ℕ
amounts_between price lower upper liquidity =
    if leb price lower
    then (liquidity * (upper - lower) * q96 / (lower * upper), 0)
    else (if ltb price upper
        then (
          liquidity * (upper - price) * q96 / (price * upper),
          liquidity * (price - lower) / q96,
        )
        else (0, liquidity * (upper - lower) / q96))

-- `amountsForLiquidity`
unfoldable pub amounts_for_liquidity : ℕ → ℤ → ℤ → ℕ → Result Error (ℕ × ℕ)
unfolding amounts_between sqrt_price_at_tick
amounts_for_liquidity price tick_lower tick_upper liquidity = do
  throw_if (leb_ℤ tick_upper tick_lower) position_amount_input_invalid
  lower ← sqrt_price_at_tick tick_lower
  upper ← sqrt_price_at_tick tick_upper
  ok (amounts_between price lower upper liquidity)

-- `slippageMinimums`
unfoldable pub slippage_minimums : ℕ → ℕ → ℕ → Result Error (ℕ × ℕ)
slippage_minimums token0 token1 slippage_bps =
    if ltb 10000 slippage_bps
    then err slippage_invalid
    else ok (token0 * (10000 - slippage_bps) / 10000, token1 * (10000 - slippage_bps) / 10000)

pub data RangeState : Type 0 where
  below_range in_range above_range : RangeState

-- `classifyV4RangeState`: lower inclusive, upper exclusive.
unfoldable pub classify_v4_range_state : ℤ → ℤ → ℤ → Result Error RangeState
classify_v4_range_state current lower upper =
    if leb_ℤ upper lower
    then err range_state_invalid
    else ok (
        if ltb_ℤ current lower
        then below_range
        else (if leb_ℤ upper current then above_range else in_range))
