-- ===== src/Ladder/Store/Rows.antt =====
-- The rows of `v4_bid_ladders`, `v4_bid_ladder_legs` and `v4_bid_ladder_usdg_reset_v1`, and the
-- statements that read them.
use funi.Common.{
  ℕ, Bool, true, false, Option, List, [], ◌∷◌, Text, text_eq, leb, ℤ, if◌then◌else◌, select_where,
  first_where,
}

pub data Mode : Type 0 where
  dry_run : Mode
  live : Mode

pub data Status : Type 0 where
  planned : Status
  opened : Status
  closed : Status
  cancelled : Status

abbrev pub status_eq : Status → Status → Bool
status_eq planned planned = true
status_eq opened opened = true
status_eq closed closed = true
status_eq cancelled cancelled = true
status_eq _ _ = false

abbrev pub mode_eq : Mode → Mode → Bool
mode_eq dry_run dry_run = true
mode_eq live live = true
mode_eq _ _ = false

pub record PoolKey : Type 0 where
  pub currency0 : Text
  pub currency1 : Text
  pub fee : ℕ
  pub tick_spacing : ℕ
  pub hooks : Text

pub record Ladder : Type 0 where
  pub ladder_id : Text
  pub strategy_version : Text
  pub execution_mode : Mode
  pub pool_id : Text
  pub key : PoolKey
  pub funding_token : Text
  pub target_token : Text
  pub funding_index : ℕ
  pub target_index : ℕ
  pub reference_tick : ℤ
  pub reference_block : ℕ
  pub reference_block_hash : Option Text
  pub total_funding_amount : ℕ
  pub entry_usd_snapshot : Option ℕ
  pub status : Status
  pub created_at_ms : ℕ
  pub updated_at_ms : ℕ
  pub terminal_reason : Option Text
  pub terminal_at_ms : Option ℕ
  pub revision : ℕ

-- What the plan says of a leg, which its row repeats.
pub record LegPlan : Type 0 where
  pub leg_index : ℕ
  pub upper_drop_bps : ℕ
  pub lower_drop_bps : ℕ
  pub weight_bps : ℕ
  pub tick_lower : ℤ
  pub tick_upper : ℤ
  pub funding_amount : ℕ
  pub planned_liquidity : ℕ
  pub funding_index : ℕ
  pub target_index : ℕ

pub record Leg : Type 0 where
  pub ladder_id : Text
  pub plan : LegPlan
  pub status : Status
  pub created_at_ms : ℕ
  pub updated_at_ms : ℕ
  pub token_id : Option Text
  pub open_batch_id : Option Text
  pub close_batch_id : Option Text

pub data CreationReason : Type 0 where
  initial_open : CreationReason
  usdg_reset_reposition : CreationReason

pub data Phase : Type 0 where
  open_pending : Phase
  watching : Phase
  close_prepared : Phase
  close_submitted : Phase
  close_confirmed : Phase
  principal_reconciled : Phase
  reopen_planned : Phase
  reopen_prepared : Phase
  reopen_submitted : Phase
  completed : Phase
  blocked : Phase
  operator_closed : Phase

pub data CloseReason : Type 0 where
  normal_operator_close : CloseReason
  reset_reposition : CloseReason

pub record Reset : Type 0 where
  pub ladder_id : Text
  pub root_ladder_id : Text
  pub previous_ladder_id : Option Text
  pub next_ladder_id : Option Text
  pub generation : ℕ
  pub creation_reason : CreationReason
  pub phase : Phase
  pub close_reason : Option CloseReason
  pub close_workflow_identity : Option Text
  pub reopen_workflow_identity : Option Text
  pub returned_usdg_principal : Option ℕ
  pub returned_target_principal : Option ℕ
  pub returned_usdg_fee : Option ℕ
  pub returned_target_fee : Option ℕ
  pub block_reason : Option Text
  pub revision : ℕ
  pub created_at_ms : ℕ
  pub updated_at_ms : ℕ

pub record Store : Type 0 where
  pub ladders : List Ladder
  pub legs : List Leg
  pub resets : List Reset

abbrev pub is_ladder : Text → Ladder → Bool
is_ladder id l = text_eq l.ladder_id id

abbrev pub is_leg_of : Text → Leg → Bool
is_leg_of id l = text_eq l.ladder_id id

abbrev pub is_reset_of : Text → Reset → Bool
is_reset_of id r = text_eq r.ladder_id id

unfoldable pub load_bid_ladder : Store → Text → Option Ladder
load_bid_ladder db id = first_where (is_ladder id) db.ladders

-- `ORDER BY`, and `sort` by a number: stable.
module _ {A : Type 0} (key : A → ℕ) where
  abbrev pub insert_by : A → List A → List A
  insert_by x [] = x ∷ []
  insert_by x (y ∷ ys) = if leb (key x) (key y) then x ∷ y ∷ ys else y ∷ insert_by x ys

  abbrev pub order_by : List A → List A
  order_by [] = []
  order_by (x ∷ xs) = insert_by x (order_by xs)

abbrev pub index_of : Leg → ℕ
index_of l = l.plan.leg_index

unfoldable pub list_bid_ladder_legs : Store → Text → List Leg
list_bid_ladder_legs db id = order_by index_of (select_where (is_leg_of id) db.legs)

unfoldable pub load_bid_ladder_usd_reset : Store → Text → Option Reset
load_bid_ladder_usd_reset db id = first_where (is_reset_of id) db.resets
