-- ===== src/V4/Errors.antt =====
-- What the adapter throws.
pub data Error : Type 0 where
  tick_overflow : Error
  token_orientation_mismatch : Error
  pool_execution_blocked : Error
  range_request_invalid : Error
  tick_spacing_invalid : Error
  not_strict_funding_only : Error
  tick_range_invalid : Error
  division_by_zero : Error
  funding_cap_exceeded : Error
  target_amount_must_be_zero : Error
  exactly_one_funding_token_required : Error
  funding_or_liquidity_zero : Error
  position_amount_input_invalid : Error
  slippage_invalid : Error
  range_state_invalid : Error
