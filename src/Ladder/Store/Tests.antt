-- ===== src/Ladder/Store/Tests.antt =====
-- The theorems on the stored ladders, applied to the plan of one ladder and to its reset.
use funi.Common.{
  List, ℕ, ◌+◌, ◌*◌, ◌≡◌, refl, false, none, some, [], ◌∷◌, text, text_eq, lower, pos, ok, err,
  arith, Bool, ◌++◌, ◌⊎◌, ◌&&◌, count_where, length,
}
use funi.Ladder.Store.Rows.{
  live, Ladder, LegPlan, close_confirmed, reset_reposition, Store, Reset, initial_open,
  open_pending, watching, close_prepared, load_bid_ladder,
}
use funi.Ladder.Store.Create.{
  Plan, ResetCreation, plan_valid, new_reset, with_rows, create_bid_ladder, version_v1,
}
use funi.Ladder.Store.Again.{create_again}
use funi.Ladder.Store.Reset.{
  TransitionInput, moved, phase_allowed, transition_conflict, transition_bid_ladder_usd_reset,
  list_bid_ladder_usd_reset_candidates,
}
use funi.Ladder.Store.Candidates.{IsOrdered, is_pending, candidates_are_oldest}
use funi.Ladder.Store.Moves.{run, transition_wins_once}

abbrev leg : ℕ → ℕ → ℕ → ℕ → LegPlan
leg n upper lower weight = record {
  leg_index = n;
  upper_drop_bps = upper;
  lower_drop_bps = lower;
  weight_bps = weight;
  tick_lower = pos (60 * n);
  tick_upper = pos (60 * n + 60);
  funding_amount = weight;
  planned_liquidity = 9;
  funding_index = 1;
  target_index = 0;
}

-- The legs come in another order than that of their indices.
abbrev plan : Plan
plan = record {
  ladder_id = text "L";
  strategy_version = version_v1;
  execution_mode = live;
  pool_id = text "0xAb";
  key = record {
    currency0 = text "0xA";
    currency1 = text "0xB";
    fee = 500;
    tick_spacing = 60;
    hooks = text "0x0";
  };
  tick = pos 7;
  block_number = 100;
  funding_token = text "0xB";
  target_token = text "0xA";
  funding_index = 1;
  target_index = 0;
  reference_block_hash = some (text "0xF");
  total_funding_amount = 10000;
  entry_usd_snapshot = none;
  created_at_ms = 5;
  legs =
      leg 1 500 1200 1200
      ∷ leg 0 100 500 800
      ∷ leg 2 1200 2200 1800
      ∷ leg 4 3500 5000 3700
      ∷ leg 3 2200 3500 2500
      ∷ [];
}

abbrev lineage : ResetCreation
lineage = record {
  root_ladder_id = text "L";
  previous_ladder_id = none;
  generation = 0;
  creation_reason = initial_open;
}

abbrev empty : Store
empty = record { ladders = []; legs = []; resets = [] }

abbrev stored : Store
stored = record (with_rows empty plan) { resets = new_reset plan lineage ∷ [] }

create_again_example : create_bid_ladder stored plan (some lineage) ≡ ok (stored, false)
unfolding create_bid_ladder plan_valid load_bid_ladder text_eq
create_again_example = create_again empty stored plan (some lineage) refl refl

abbrev move : TransitionInput
move = record {
  ladder_id = text "L";
  from = open_pending ∷ watching ∷ [];
  to = close_prepared;
  close_reason = none;
  close_workflow_identity = some (text "w");
  reopen_workflow_identity = none;
  returned_usdg_principal = none;
  returned_target_principal = some (pos 3);
  returned_usdg_fee = none;
  returned_target_fee = none;
  block_reason = none;
  now_ms = 9;
}

abbrev row : Reset
row = new_reset plan lineage

abbrev confirmed : TransitionInput
confirmed = record move {
  from = close_prepared ∷ [];
  to = close_confirmed;
  close_reason = some reset_reposition;
}

transition_wins_once_example :
    transition_bid_ladder_usd_reset (run (moved move row ∷ []) (confirmed ∷ [])) move
    ≡ err transition_conflict
unfolding transition_bid_ladder_usd_reset phase_allowed text_eq
transition_wins_once_example =
    transition_wins_once (row ∷ []) (moved move row ∷ []) (confirmed ∷ []) move move refl
      (omega arith) refl refl refl refl (refl, tt)

candidates_are_oldest_example :
    (rs rest : List Reset) × (list_bid_ladder_usd_reset_candidates stored 8 ≡ ok rs)
    × IsOrdered (rs ++ rest)
    × ((p : Reset → Bool)
        → count_where p (rs ++ rest)
          ≡ count_where (λ r. is_pending stored.ladders r && p r) stored.resets)
    × ((length rs ≡ 8) ⊎ (rest ≡ []))
candidates_are_oldest_example = candidates_are_oldest stored 8 (omega arith) (omega arith)
