-- ===== src/Ladder/Store/ReadBack.antt =====
-- What is read back of a ladder after its creation.
use funi.Common.{◌≡◌, none, lower}
use funi.Ladder.Store.Rows.{planned, Ladder, LegPlan, Leg, Store}
use funi.Ladder.Store.Create.{Plan}

-- The columns of the ladder against the plan: addresses and hashes without case.
pub record IsRowOf (plan : Plan) (l : Ladder) : Type 0 where
  pub ladder_id : l.ladder_id ≡ plan.ladder_id
  pub strategy_version : l.strategy_version ≡ plan.strategy_version
  pub execution_mode : l.execution_mode ≡ plan.execution_mode
  pub pool_id : l.pool_id ≡ lower plan.pool_id
  pub currency0 : l.key.currency0 ≡ lower plan.key.currency0
  pub currency1 : l.key.currency1 ≡ lower plan.key.currency1
  pub fee : l.key.fee ≡ plan.key.fee
  pub tick_spacing : l.key.tick_spacing ≡ plan.key.tick_spacing
  pub hooks : l.key.hooks ≡ lower plan.key.hooks
  pub funding_token : l.funding_token ≡ lower plan.funding_token
  pub target_token : l.target_token ≡ lower plan.target_token
  pub funding_index : l.funding_index ≡ plan.funding_index
  pub target_index : l.target_index ≡ plan.target_index
  pub reference_tick : l.reference_tick ≡ plan.tick
  pub reference_block : l.reference_block ≡ plan.block_number
  pub total_funding_amount : l.total_funding_amount ≡ plan.total_funding_amount
  pub entry_usd_snapshot : l.entry_usd_snapshot ≡ plan.entry_usd_snapshot
  pub is_planned : l.status ≡ planned
  pub is_open_ended : l.terminal_at_ms ≡ none
  pub is_first_revision : l.revision ≡ 0
  pub created_at_ms : l.created_at_ms ≡ plan.created_at_ms
  pub updated_at_ms : l.updated_at_ms ≡ plan.created_at_ms

pub record IsFresh (plan : Plan) (g : Leg) : Type 0 where
  pub ladder_id : g.ladder_id ≡ plan.ladder_id
  pub is_planned : g.status ≡ planned
  pub no_token : g.token_id ≡ none
  pub no_open_batch : g.open_batch_id ≡ none
  pub no_close_batch : g.close_batch_id ≡ none
  pub created_at_ms : g.created_at_ms ≡ plan.created_at_ms

abbrev pub leg_plan : Leg → LegPlan
leg_plan g = g.plan
