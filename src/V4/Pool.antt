-- ===== src/V4/Pool.antt =====
-- The pool key, the meaning of its fee and hooks, and what blocks execution on it.
use funi.Common.{
  ℕ, Bool, true, false, not, ◌&&◌, ◌||◌, Option, none, some, List, [], ◌∷◌, ◌++◌, Text, text, lower,
  text_eq, ltb, leb, ◌==◌, if◌then◌else◌, delete_where, ◌/◌, ◌%◌, ℤ,
}

pub record PoolKey : Type 0 where
  pub currency0 : Text
  pub currency1 : Text
  pub fee : ℕ
  pub tick_spacing : ℕ
  pub hooks : Text

pub data Blocker : Type 0 where
  malformed_initialize_fee : Blocker
  unknown_dynamic_fee_bits : Blocker
  static_fee_out_of_range : Blocker
  current_lp_fee_out_of_range : Blocker
  dynamic_fee_unsupported : Blocker
  nonzero_hook_unsupported : Blocker
  pool_not_initialized : Blocker
  extreme_static_fee : Blocker

-- The fields of `V4FeeSemantics` that `v4ExecutionBlockers` reads.
pub record FeeSemantics : Type 0 where
  pub initialize_fee_raw : ℕ
  pub dynamic_fee : Bool
  pub static_fee_pips : Option ℕ
  pub current_lp_fee_pips : Option ℕ
  pub blockers : List Blocker

pub record PoolState : Type 0 where
  pub key : PoolKey
  pub sqrt_price_x96 : ℕ
  pub tick : ℤ
  pub liquidity : ℕ
  pub initialized : Bool
  pub block_number : ℕ
  pub lp_fee : Option ℕ
  pub fee_semantics : Option FeeSemantics
  pub hook_blockers : Option (List Blocker)

abbrev pub dynamic_fee_flag : ℕ
dynamic_fee_flag = 8388608

abbrev pub max_static_fee_pips : ℕ
max_static_fee_pips = 1000000

abbrev pub max_execution_static_fee_pips : ℕ
max_execution_static_fee_pips = 50000

abbrev pub push_if : Bool → Blocker → List Blocker → List Blocker
push_if c b bs = if c then bs ++ b ∷ [] else bs

abbrev pub exceeds : Option ℕ → ℕ → Bool
exceeds none n = false
exceeds (some fee) n = ltb n fee

-- `(initializeFeeRaw & 0x800000) !== 0`
abbrev pub has_dynamic_flag : ℕ → Bool
has_dynamic_flag fee = fee / dynamic_fee_flag % 2 == 1

-- `decodeV4Fee`, on a fee that is an integer.
unfoldable pub decode_v4_fee : ℕ → Option ℕ → FeeSemantics
decode_v4_fee fee lp_fee =
    let dynamic = has_dynamic_flag fee in
    let static_fee = if dynamic then none else some fee in
    record {
      initialize_fee_raw = fee;
      dynamic_fee = dynamic;
      static_fee_pips = static_fee;
      current_lp_fee_pips = lp_fee;
      blockers = push_if dynamic dynamic_fee_unsupported (
          push_if (exceeds lp_fee max_static_fee_pips) current_lp_fee_out_of_range (
            push_if (exceeds static_fee max_static_fee_pips) static_fee_out_of_range (
              push_if (dynamic && not (fee == dynamic_fee_flag)) unknown_dynamic_fee_bits
                (push_if (ltb 16777215 fee) malformed_initialize_fee []))));
    }

abbrev pub zero_address : Text
zero_address = text "0x0000000000000000000000000000000000000000"

-- `classifyV4Hooks`
unfoldable pub hook_blockers_of : Text → List Blocker
hook_blockers_of hooks =
    if text_eq (lower hooks) zero_address then [] else nonzero_hook_unsupported ∷ []

abbrev pub fee_of : PoolState → Option FeeSemantics → FeeSemantics
fee_of pool none = decode_v4_fee pool.key.fee pool.lp_fee
fee_of pool (some f) = f

abbrev pub hooks_of : PoolState → Option (List Blocker) → List Blocker
hooks_of pool none = hook_blockers_of pool.key.hooks
hooks_of pool (some bs) = bs

abbrev pub code : Blocker → ℕ
code malformed_initialize_fee = 0
code unknown_dynamic_fee_bits = 1
code static_fee_out_of_range = 2
code current_lp_fee_out_of_range = 3
code dynamic_fee_unsupported = 4
code nonzero_hook_unsupported = 5
code pool_not_initialized = 6
code extreme_static_fee = 7

-- `[...new Set(blockers)]`: the first of equal blockers stays.
abbrev pub unique : List Blocker → List Blocker
unique [] = []
unique (b ∷ bs) = b ∷ delete_where (λ x. code x == code b) (unique bs)

-- `v4ExecutionBlockers`
unfoldable pub v4_execution_blockers : PoolState → ℕ → List Blocker
unfolding decode_v4_fee hook_blockers_of
v4_execution_blockers pool extreme_fee_pips =
    let fee = fee_of pool pool.fee_semantics in
    unique (
      push_if (exceeds fee.static_fee_pips extreme_fee_pips) extreme_static_fee (
        push_if (not pool.initialized) pool_not_initialized
          (fee.blockers ++ hooks_of pool pool.hook_blockers)))

abbrev pub is_empty : List Blocker → Bool
is_empty [] = true
is_empty (b ∷ bs) = false

pub data Approval : Type 0 where
  erc20_to_permit2_required permit2_to_position_manager_required ready_to_mint : Approval

-- `v4ApprovalRequirement`
unfoldable pub v4_approval_requirement : ℕ → ℕ → ℕ → ℕ → ℕ → Approval
v4_approval_requirement erc20_allowance permit_amount permit_expiration required now =
    if ltb erc20_allowance required
    then erc20_to_permit2_required
    else (if ltb permit_amount required || leb permit_expiration now
        then permit2_to_position_manager_required
        else ready_to_mint)
