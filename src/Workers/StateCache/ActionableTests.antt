-- ===== src/Workers/StateCache/ActionableTests.antt =====
-- The theorem on convergence, applied to a ladder of five verified legs.
use funi.Common.{
  ℕ, ◌≡◌, refl, true, false, none, some, List, [], ◌∷◌, ◌++◌, map, Option, Text, text, text_eq,
  lower, pos, All, ok, first_where, select_where,
}
use funi.Ladder.Store.Rows.{
  Mode, Status, Ladder, Leg, Reset, CreationReason, open_pending, is_leg_of,
  load_bid_ladder_usd_reset,
}
use funi.Ladder.Store.Reset.{moved, phase_allowed, transition_bid_ladder_usd_reset}
use funi.Workers.StateCache.Actionable.{
  Tables, Position, Reconciled, joined, is_fresh, first_registered, open_ladder, awaits_opening,
  to_watching, fully_actionable_v4_bid_ladder, converge_open_pending_v4_bid_ladder,
}
use funi.Workers.StateCache.Converged.{is_proven, converged-is_proven}

-- Every text is the instant 1000.
abbrev date_parse : Text → Option ℕ
date_parse t = some 1000

abbrev opened_ladder : Ladder
opened_ladder = record {
  ladder_id = text "L";
  strategy_version = text "v";
  execution_mode = Mode.live;
  pool_id = text "P";
  key = record {
    currency0 = text "u";
    currency1 = text "t";
    fee = 100;
    tick_spacing = 1;
    hooks = text "h";
  };
  funding_token = text "u";
  target_token = text "t";
  funding_index = 0;
  target_index = 1;
  reference_tick = pos 0;
  reference_block = 1;
  reference_block_hash = none;
  total_funding_amount = 5;
  entry_usd_snapshot = none;
  status = Status.opened;
  created_at_ms = 1;
  updated_at_ms = 1;
  terminal_reason = none;
  terminal_at_ms = none;
  revision = 0;
}

abbrev opened_leg : ℕ → Leg
opened_leg i = record {
  ladder_id = text "L";
  plan = record {
    leg_index = i;
    upper_drop_bps = 100;
    lower_drop_bps = 200;
    weight_bps = 2000;
    tick_lower = pos 0;
    tick_upper = pos 10;
    funding_amount = 1;
    planned_liquidity = 1;
    funding_index = 0;
    target_index = 1;
  };
  status = Status.opened;
  created_at_ms = 1;
  updated_at_ms = 1;
  token_id = some (i ∷ []);
  open_batch_id = none;
  close_batch_id = none;
}

abbrev minted : ℕ → Position
minted i = record { token_id = i ∷ []; pool_id = text "p"; open_intent_id = some (text "L") }

abbrev owned : ℕ → Reconciled
owned i = record {
  position_id = text "v4:" ++ i ∷ [];
  owner_status = text "VERIFIED_OWNED";
  confirmed_active = true;
  terminal_reason = none;
  fresh_until_ms = 2000;
}

abbrev pending : Reset
pending = record {
  ladder_id = text "L";
  root_ladder_id = text "L";
  previous_ladder_id = none;
  next_ladder_id = none;
  generation = 0;
  creation_reason = CreationReason.initial_open;
  phase = open_pending;
  close_reason = none;
  close_workflow_identity = none;
  reopen_workflow_identity = none;
  returned_usdg_principal = none;
  returned_target_principal = none;
  returned_usdg_fee = none;
  returned_target_fee = none;
  block_reason = none;
  revision = 0;
  created_at_ms = 1;
  updated_at_ms = 1;
}

abbrev indices : List ℕ
indices = 48 ∷ 49 ∷ 50 ∷ 51 ∷ 52 ∷ []

abbrev tables : Tables
tables = record {
  store = record {
    ladders = opened_ladder ∷ [];
    legs = map opened_leg indices;
    resets = pending ∷ [];
  };
  registry =
      record {
        pool_id = text "P";
        refresh_block = some (text "9");
        last_refreshed_at = some (text "now");
      }
      ∷ [];
  positions = map minted indices;
  reconciled = map owned indices;
}

abbrev watched_resets : List Reset
watched_resets = moved (to_watching (text "L") 1500) pending ∷ []

reads_the_ladder : first_where (open_ladder (text "L")) tables.store.ladders ≡ some opened_ladder
unfolding text_eq
reads_the_ladder = refl

converges :
    converge_open_pending_v4_bid_ladder date_parse tables (text "L") 1500 600
    ≡ ok (watched_resets, true)
unfolding converge_open_pending_v4_bid_ladder fully_actionable_v4_bid_ladder joined
    transition_bid_ladder_usd_reset phase_allowed load_bid_ladder_usd_reset text_eq lower
converges = refl

-- One millisecond after the registry row has grown old, nothing moves.
stale_does_not_converge :
    converge_open_pending_v4_bid_ladder date_parse tables (text "L") 1601 600
    ≡ ok (pending ∷ [], false)
unfolding converge_open_pending_v4_bid_ladder fully_actionable_v4_bid_ladder joined
    load_bid_ladder_usd_reset text_eq lower
stale_does_not_converge = refl

converged-is_proven_example :
    (awaits_opening (load_bid_ladder_usd_reset tables.store (text "L")) ≡ true)
    × (transition_bid_ladder_usd_reset tables.store.resets (to_watching (text "L") 1500)
        ≡ ok watched_resets)
    × (is_fresh date_parse (first_registered (joined tables opened_ladder)) 1500 600 ≡ true)
    × All
        (λ x. is_proven tables 1500 opened_ladder x ≡ true)
        (select_where (is_leg_of opened_ladder.ladder_id) tables.store.legs)
converged-is_proven_example =
    converged-is_proven date_parse tables (text "L") 1500 600 opened_ladder watched_resets
      reads_the_ladder converges
