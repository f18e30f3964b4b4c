-- ===== src/Ladder/Store/Create.antt =====
-- `createBidLadder`, `createDryRunBidLadder` and `createLiveBidLadder`.
use funi.Common.{
  ℕ, suc, ◌+◌, Bool, true, false, not, ◌&&◌, ◌||◌, Option, none, some, List, [], ◌∷◌, ◌++◌, map,
  Text, text, text_eq, lower, same_text, trim_end, trim_start, is_empty, ltb, ◌==◌, ℤ,
  if◌then◌else◌, any_where, update_where, count_where, length, sum, Result, ok, err, ◌>>=◌, ◌>>◌,
  throw_if, eq_ℤ,
}
use funi.Ladder.Store.Rows.{
  Mode, dry_run, live, mode_eq, planned, status_eq, PoolKey, Ladder, LegPlan, Leg, CreationReason,
  initial_open, usdg_reset_reposition, open_pending, Reset, Store, load_bid_ladder, order_by,
  list_bid_ladder_legs, load_bid_ladder_usd_reset,
}

-- `V4BidLadderPersistencePlan`; a funding amount or a liquidity that is not positive is refused, so
-- that a natural number stands for either.
pub record Plan : Type 0 where
  pub ladder_id : Text
  pub strategy_version : Text
  pub execution_mode : Mode
  pub pool_id : Text
  pub key : PoolKey
  pub tick : ℤ
  pub block_number : ℕ
  pub funding_token : Text
  pub target_token : Text
  pub funding_index : ℕ
  pub target_index : ℕ
  pub reference_block_hash : Option Text
  pub total_funding_amount : ℕ
  pub entry_usd_snapshot : Option ℕ
  pub created_at_ms : ℕ
  pub legs : List LegPlan

pub record ResetCreation : Type 0 where
  pub root_ladder_id : Text
  pub previous_ladder_id : Option Text
  pub generation : ℕ
  pub creation_reason : CreationReason

pub data Error : Type 0 where
  persistence_plan_invalid : Error
  plan_conflict : Error
  reset_lineage_conflict : Error
  reset_lineage_invalid : Error
  reset_child_link_conflict : Error
  constraint : Error

abbrev pub plan_index : LegPlan → ℕ
plan_index l = l.leg_index

abbrev pub funding_of : LegPlan → ℕ
funding_of l = l.funding_amount

-- `[...plan.legs].sort((a, b) => a.legIndex - b.legIndex)`
abbrev pub sorted_legs : Plan → List LegPlan
sorted_legs plan = order_by plan_index plan.legs

-- Leg `n` and those after it stand at their own indices and hold something.
abbrev pub legs_valid_from : ℕ → List LegPlan → Bool
legs_valid_from n [] = true
legs_valid_from n (l ∷ ls) =
    (l.leg_index == n)
    && (ltb 0 l.funding_amount && (ltb 0 l.planned_liquidity && legs_valid_from (suc n) ls))

abbrev pub version_v1 : Text
version_v1 = text "V4_BID_LADDER_V1"

unfoldable pub plan_valid : Plan → Bool
plan_valid plan =
    text_eq plan.strategy_version version_v1
    && (not (is_empty (trim_end (trim_start plan.ladder_id)))
        && ((length (sorted_legs plan) == 5)
            && (legs_valid_from 0 (sorted_legs plan)
                && (sum (map funding_of (sorted_legs plan)) == plan.total_funding_amount))))

-- `Number(parent.entry_usd_snapshot) === plan.entryUsdSnapshot`, or both absent.
abbrev pub same_snapshot : Option ℕ → Option ℕ → Bool
same_snapshot none none = true
same_snapshot none (some b) = false
same_snapshot (some a) none = false
same_snapshot (some a) (some b) = a == b

abbrev pub hash_text : Option Text → Text
hash_text none = []
hash_text (some h) = lower h

unfoldable pub parent_same : Plan → Ladder → Bool
parent_same plan l =
    text_eq l.strategy_version plan.strategy_version
    && (mode_eq l.execution_mode plan.execution_mode
        && (same_text l.pool_id plan.pool_id
            && (same_text l.key.currency0 plan.key.currency0
                && (same_text l.key.currency1 plan.key.currency1
                    && ((l.key.fee == plan.key.fee)
                        && ((l.key.tick_spacing == plan.key.tick_spacing)
                            && (same_text l.key.hooks plan.key.hooks
                                && (same_text l.funding_token plan.funding_token
                                    && (same_text l.target_token plan.target_token
                                        && ((l.funding_index == plan.funding_index)
                                            && ((l.target_index == plan.target_index)
                                                && (eq_ℤ l.reference_tick plan.tick
                                                    && ((l.reference_block == plan.block_number)
                                                        && (text_eq
                                                            (hash_text l.reference_block_hash)
                                                            (hash_text plan.reference_block_hash)
                                                            && ((l.total_funding_amount
                                                            == plan.total_funding_amount)
                                                            && same_snapshot l.entry_usd_snapshot
                                                            plan.entry_usd_snapshot)))))))))))))))

abbrev pub leg_plan_eq : LegPlan → LegPlan → Bool
leg_plan_eq a b =
    (a.leg_index == b.leg_index)
    && ((a.upper_drop_bps == b.upper_drop_bps)
        && ((a.lower_drop_bps == b.lower_drop_bps)
            && ((a.weight_bps == b.weight_bps)
                && (eq_ℤ a.tick_lower b.tick_lower
                    && (eq_ℤ a.tick_upper b.tick_upper
                        && ((a.funding_amount == b.funding_amount)
                            && ((a.planned_liquidity == b.planned_liquidity)
                                && ((a.funding_index == b.funding_index)
                                    && (a.target_index == b.target_index)))))))))

abbrev pub leg_same : LegPlan → Leg → Bool
leg_same p l = leg_plan_eq l.plan p && status_eq l.status planned

-- Every stored leg against the planned one at its place.
abbrev pub legs_same : List LegPlan → List Leg → Bool
legs_same ps [] = true
legs_same [] (l ∷ ls) = false
legs_same (p ∷ ps) (l ∷ ls) = leg_same p l && legs_same ps ls

abbrev pub equivalent : Plan → Ladder → List Leg → Bool
equivalent plan parent stored =
    parent_same plan parent && ((length stored == 5) && legs_same (sorted_legs plan) stored)

abbrev pub id_or_empty : Option Text → Text
id_or_empty none = []
id_or_empty (some t) = t

abbrev pub reason_eq : CreationReason → CreationReason → Bool
reason_eq initial_open initial_open = true
reason_eq usdg_reset_reposition usdg_reset_reposition = true
reason_eq _ _ = false

abbrev pub lineage_same : ResetCreation → Option Reset → Bool
lineage_same r none = false
lineage_same r (some stored) =
    text_eq stored.root_ladder_id r.root_ladder_id
    && (text_eq (id_or_empty stored.previous_ladder_id) (id_or_empty r.previous_ladder_id)
        && ((stored.generation == r.generation)
            && reason_eq stored.creation_reason r.creation_reason))

abbrev pub lineage_checked : Store → Text → Option ResetCreation → Bool
lineage_checked db id none = true
lineage_checked db id (some r) = lineage_same r (load_bid_ladder_usd_reset db id)

abbrev pub new_ladder : Plan → Ladder
new_ladder plan = record {
  ladder_id = plan.ladder_id;
  strategy_version = plan.strategy_version;
  execution_mode = plan.execution_mode;
  pool_id = lower plan.pool_id;
  key = record {
    currency0 = lower plan.key.currency0;
    currency1 = lower plan.key.currency1;
    fee = plan.key.fee;
    tick_spacing = plan.key.tick_spacing;
    hooks = lower plan.key.hooks;
  };
  funding_token = lower plan.funding_token;
  target_token = lower plan.target_token;
  funding_index = plan.funding_index;
  target_index = plan.target_index;
  reference_tick = plan.tick;
  reference_block = plan.block_number;
  reference_block_hash = elim plan.reference_block_hash [ none ↦ none | some h ↦ some (lower h) ];
  total_funding_amount = plan.total_funding_amount;
  entry_usd_snapshot = plan.entry_usd_snapshot;
  status = planned;
  created_at_ms = plan.created_at_ms;
  updated_at_ms = plan.created_at_ms;
  terminal_reason = none;
  terminal_at_ms = none;
  revision = 0;
}

abbrev pub new_leg : Text → ℕ → LegPlan → Leg
new_leg id at p = record {
  ladder_id = id;
  plan = p;
  status = planned;
  created_at_ms = at;
  updated_at_ms = at;
  token_id = none;
  open_batch_id = none;
  close_batch_id = none;
}

-- The first two INSERT statements.
abbrev pub with_rows : Store → Plan → Store
with_rows db plan = record db {
  ladders = db.ladders ++ new_ladder plan ∷ [];
  legs = db.legs ++ map (new_leg plan.ladder_id plan.created_at_ms) (sorted_legs plan);
}

-- `Boolean(reset.previousLadderId)`
abbrev pub truthy : Option Text → Bool
truthy none = false
truthy (some t) = not (is_empty t)

abbrev pub generation_valid : Text → ResetCreation → Bool
generation_valid id r =
    ((r.generation == 0)
      && (not (truthy r.previous_ladder_id)
          && (text_eq r.root_ladder_id id && reason_eq r.creation_reason initial_open)))
    || (ltb 0 r.generation
        && (truthy r.previous_ladder_id && reason_eq r.creation_reason usdg_reset_reposition))

abbrev pub new_reset : Plan → ResetCreation → Reset
new_reset plan r = record {
  ladder_id = plan.ladder_id;
  root_ladder_id = r.root_ladder_id;
  previous_ladder_id = r.previous_ladder_id;
  next_ladder_id = none;
  generation = r.generation;
  creation_reason = r.creation_reason;
  phase = open_pending;
  close_reason = none;
  close_workflow_identity = none;
  reopen_workflow_identity = none;
  returned_usdg_principal = none;
  returned_target_principal = none;
  returned_usdg_fee = none;
  returned_target_fee = none;
  block_reason = none;
  revision = 0;
  created_at_ms = plan.created_at_ms;
  updated_at_ms = plan.created_at_ms;
}

abbrev pub shares : Option Text → Option Text → Bool
shares (some a) (some b) = text_eq a b
shares _ _ = false

-- The unique keys of the reset table.
abbrev pub reset_clashes : Reset → Reset → Bool
reset_clashes new old =
    text_eq old.ladder_id new.ladder_id
    || (shares old.previous_ladder_id new.previous_ladder_id
        || (text_eq old.root_ladder_id new.root_ladder_id && (old.generation == new.generation)))

abbrev pub may_link : Text → Text → Reset → Bool
may_link previous id r =
    text_eq r.ladder_id previous && (elim r.next_ladder_id [ none ↦ true | some n ↦ text_eq n id ])

abbrev pub linked : Text → ℕ → Reset → Reset
linked id at r = record r {
  next_ladder_id = some id;
  revision = r.revision + 1;
  updated_at_ms = at;
}

-- `next_ladder_id` is unique.
abbrev pub is_next_of : Text → Text → Reset → Bool
is_next_of id previous r = shares r.next_ladder_id (some id) && not (text_eq r.ladder_id previous)

abbrev pub with_link : Store → Plan → Option Text → Result Error Store
with_link db plan none = ok db
with_link db plan (some previous) =
    if is_empty previous
    then ok db
    else if any_where (is_next_of plan.ladder_id previous) db.resets
    then err constraint
    else if count_where (may_link previous plan.ladder_id) db.resets == 1
    then ok (record db {
      resets =
          update_where (may_link previous plan.ladder_id) (linked plan.ladder_id plan.created_at_ms)
            db.resets;
    })
    else err reset_child_link_conflict

abbrev pub with_reset : Store → Plan → Option ResetCreation → Result Error Store
with_reset db plan none = ok db
with_reset db plan (some r) = do
  throw_if (not (generation_valid plan.ladder_id r)) reset_lineage_invalid
  throw_if (any_where (reset_clashes (new_reset plan r)) db.resets) constraint
  with_link (record db { resets = db.resets ++ new_reset plan r ∷ [] }) plan r.previous_ladder_id

-- Whether it wrote, with the store after it.
abbrev pub created_from :
    Store → Plan → Option ResetCreation → Option Ladder → Result Error (Store × Bool)
created_from db plan reset (some existing) = do
  throw_if (not (equivalent plan existing (list_bid_ladder_legs db plan.ladder_id))) plan_conflict
  throw_if (not (lineage_checked db plan.ladder_id reset)) reset_lineage_conflict
  ok (db, false)
created_from db plan reset none = do db' ← with_reset (with_rows db plan) plan reset; ok (db', true)

unfoldable pub create_bid_ladder : Store → Plan → Option ResetCreation → Result Error (Store × Bool)
unfolding plan_valid load_bid_ladder
create_bid_ladder db plan reset =
    if plan_valid plan
    then created_from db plan reset (load_bid_ladder db plan.ladder_id)
    else err persistence_plan_invalid

unfoldable pub create_dry_run_bid_ladder : Store → Plan → Result Error (Store × Bool)
create_dry_run_bid_ladder db plan =
    if mode_eq plan.execution_mode dry_run
    then create_bid_ladder db plan none
    else err persistence_plan_invalid

unfoldable pub create_live_bid_ladder :
    Store → Plan → Option ResetCreation → Result Error (Store × Bool)
create_live_bid_ladder db plan reset =
    if mode_eq plan.execution_mode live
    then create_bid_ladder db plan reset
    else err persistence_plan_invalid
