-- ===== src/V4/Funding.antt =====
-- What a mint plan spends, and what its liquidity gives back.
use funi.Common.{
  ℕ, ◌+◌, ◌-◌, ◌*◌, ◌/◌, ◌%◌, ◌≤◌, ◌<◌, ◌≡◌, refl, inl, inr, arith, ◌==◌, ok, Bool-cases,
}
use native.Mathlib.Nat.{
  div-mul-le_self, le_of_mul-le-mul_left, lt_of_mul-lt-mul_left, div-add-mod, mul-pos,
}
use funi.V4.Price.{q96}
use funi.V4.Plan.{
  Index, ceil_div, liquidity_for, cost_of, MintPlan, PlanInput, on_index, build_v4_mint,
  plan_between, amounts_between,
}

-- The least integer that is no less than the quotient.
ceil_div_le : (x a f : ℕ) → 0 < a → x ≤ a * f → ceil_div x a ≤ f
ceil_div_le x a f nz h = elim (Bool-cases (x % a == 0)) [
  | inl e ↦ rw e (omega (arith, least))
  | inr e ↦
      rw e (
        omega
          (arith, lt_of_mul-lt-mul_left a {m = x / a} {n = f} (ground (arith, div-add-mod x a))))
]
  where
    least : x / a ≤ f
    least = le_of_mul-le-mul_left {m = x / a} {n = f} {k = a} (omega (arith, div-add-mod x a)) nz

ceil_div-pos : (x a : ℕ) → 0 < x → 0 < ceil_div x a
ceil_div-pos x a nz = elim (Bool-cases (x % a == 0)) [
  | inr e ↦ rw e (omega arith)
  | inl e ↦ rw e (elim (Bool-cases (x / a == 0)) [
    | inr n ↦ ground arith
    | inl z ↦ absurd (ground (arith, div-add-mod x a))
  ])
]

-- The two amounts of a plan, by index.
abbrev pub of : Index → ℕ → ℕ → ℕ
of Index.zeroth a0 a1 = a0
of Index.first a0 a1 = a1

abbrev pub other : Index → Index
other Index.zeroth = Index.first
other Index.first = Index.zeroth

-- The plan that is written where the prices are in order and some liquidity is bought.
abbrev written : PlanInput → Index → Index → ℕ → ℕ → MintPlan
written i t f lower upper =
    let liquidity = liquidity_for f i.funding_amount lower upper in
    let expected = cost_of f liquidity lower upper in
    record {
      tick_lower = i.tick_lower;
      tick_upper = i.tick_upper;
      liquidity = liquidity;
      amount0_max = on_index f Index.zeroth i.funding_amount;
      amount1_max = on_index f Index.first i.funding_amount;
      owner = i.owner;
      deadline = i.deadline;
      target_index = t;
      funding_index = f;
      current_tick = i.pool.tick;
      sqrt_price_x96 = i.pool.sqrt_price_x96;
      amount0_expected = on_index f Index.zeroth expected;
      amount1_expected = on_index f Index.first expected;
    }

module _ (amount lower upper : ℕ) (low_pos : 0 < lower) (ordered : lower < upper) where
  -- The cost of the liquidity that an amount buys is no more than the amount.
  cost_le : (f : Index) → cost_of f (liquidity_for f amount lower upper) lower upper ≤ amount
  cost_le Index.first =
      ceil_div_le _ q96 amount (omega arith)
        (omega (arith, div-mul-le_self (amount * q96) (upper - lower)))
  cost_le Index.zeroth =
      ceil_div_le _ (lower * upper) amount (mul-pos low_pos (omega arith))
        (omega (arith, div-mul-le_self (amount * lower * upper) (q96 * (upper - lower))))

  cost-pos :
      (f : Index)
      → 0 < liquidity_for f amount lower upper
      → 0 < cost_of f (liquidity_for f amount lower upper) lower upper
  cost-pos Index.first h = ceil_div-pos _ q96 (mul-pos h (omega arith))
  cost-pos Index.zeroth h = ceil_div-pos _ (lower * upper) (
      mul-pos {m = liquidity_for Index.zeroth amount lower upper * (upper - lower)} {n = q96}
        (mul-pos h (omega arith)) (omega arith))

module _ (i : PlanInput) (t : Index) (lower upper : ℕ) (low_pos : 0 < lower)
    (ordered : lower < upper) where
  plan_written :
      (f : Index)
      → 0 < liquidity_for f i.funding_amount lower upper
      → plan_between i t f lower upper ≡ ok (written i t f lower upper)
  unfolding plan_between build_v4_mint
  plan_written Index.zeroth h = ground (
    arith,
    cost_le i.funding_amount lower upper low_pos ordered Index.zeroth,
    cost-pos i.funding_amount lower upper low_pos ordered Index.zeroth h,
  )
  plan_written Index.first h = ground (
    arith,
    cost_le i.funding_amount lower upper low_pos ordered Index.first,
    cost-pos i.funding_amount lower upper low_pos ordered Index.first h,
  )

-- The price is still on the side where the position holds the funding token alone.
abbrev pub IsBeyond : Index → ℕ → ℕ → ℕ → Type 0
IsBeyond Index.zeroth price lower upper = price ≤ lower
IsBeyond Index.first price lower upper = upper ≤ price

-- A rounded-up quotient is at most one more than the quotient.
ceil_div_close : (x a : ℕ) → (x / a ≤ ceil_div x a) × (ceil_div x a ≤ x / a + 1)
ceil_div_close x a = ground arith

amounts_close :
    (f : Index) (price lower upper liquidity : ℕ)
    → lower < upper
    → IsBeyond f price lower upper
    → let back = amounts_between price lower upper liquidity in
      (of (other f) back.0 back.1 ≡ 0)
      × (of f back.0 back.1 ≤ cost_of f liquidity lower upper)
      × (cost_of f liquidity lower upper ≤ of f back.0 back.1 + 1)
unfolding amounts_between
amounts_close Index.zeroth price lower upper liquidity h beyond =
    ground (arith, ceil_div_close (liquidity * (upper - lower) * q96) (lower * upper))
amounts_close Index.first price lower upper liquidity h beyond =
    ground (arith, ceil_div_close (liquidity * (upper - lower)) q96)

-- What a plan does with an amount of the funding token, and what its liquidity stands for later.
pub record IsFunded (f : Index) (amount : ℕ) (plan : MintPlan) (back : ℕ × ℕ) : Type 0 where
  pub buys : 0 < plan.liquidity
  pub capped : of f plan.amount0_max plan.amount1_max ≡ amount
  pub other_capped : of (other f) plan.amount0_max plan.amount1_max ≡ 0
  pub costs : 0 < of f plan.amount0_expected plan.amount1_expected
  pub within : of f plan.amount0_expected plan.amount1_expected ≤ amount
  pub other_free : of (other f) plan.amount0_expected plan.amount1_expected ≡ 0
  pub no_more_back : of f back.0 back.1 ≤ of f plan.amount0_expected plan.amount1_expected
  pub one_less_back : of f plan.amount0_expected plan.amount1_expected ≤ of f back.0 back.1 + 1
  pub no_other_back : of (other f) back.0 back.1 ≡ 0

-- Between two prices in order, an amount that buys some liquidity always gives a plan: its cap is
-- the amount on the funding token and 0 on the other, it expects to spend more than 0 and no more
-- than that cap and nothing of the other token; and at any price still beyond the range its
-- liquidity stands for that expected amount or one unit less, and for none of the other token.
pub plan-IsFunded :
    (i : PlanInput) (t f : Index) (lower upper price : ℕ)
    → 0 < lower
    → lower < upper
    → 0 < liquidity_for f i.funding_amount lower upper
    → IsBeyond f price lower upper
    → (plan : MintPlan) × (plan_between i t f lower upper ≡ ok plan)
      × IsFunded f i.funding_amount plan (amounts_between price lower upper plan.liquidity)
plan-IsFunded i t f lower upper price nz h buys beyond =
    (written i t f lower upper, plan_written i t lower upper nz h f buys, funded f buys beyond)
  where
    funded :
        (g : Index)
        → 0 < liquidity_for g i.funding_amount lower upper
        → IsBeyond g price lower upper
        → IsFunded g i.funding_amount
            (written i t g lower upper)
            (amounts_between price lower upper (liquidity_for g i.funding_amount lower upper))
    funded Index.zeroth b y =
        let close = amounts_close Index.zeroth price lower upper _ h y in
        record {
          buys = b;
          capped = refl;
          other_capped = refl;
          costs = cost-pos i.funding_amount lower upper nz h Index.zeroth b;
          within = cost_le i.funding_amount lower upper nz h Index.zeroth;
          other_free = refl;
          no_more_back = close.1;
          one_less_back = close.2;
          no_other_back = close.0;
        }
    funded Index.first b y =
        let close = amounts_close Index.first price lower upper _ h y in
        record {
          buys = b;
          capped = refl;
          other_capped = refl;
          costs = cost-pos i.funding_amount lower upper nz h Index.first b;
          within = cost_le i.funding_amount lower upper nz h Index.first;
          other_free = refl;
          no_more_back = close.1;
          one_less_back = close.2;
          no_other_back = close.0;
        }
