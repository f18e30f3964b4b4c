-- ===== src/Ladder/Cancellation/Tests.antt =====
-- The theorems on cancellation, applied to a ladder that was planned and left for half an hour.
use funi.Common.{ℕ, ◌+◌, ◌*◌, ◌≡◌, refl, none, some, Option, [], ◌∷◌, Text, text, text_eq, pos, ok}
use funi.Ladder.Store.Rows.{
  live, planned, Ladder, Leg, Store, load_bid_ladder, list_bid_ladder_legs,
}
use funi.Ladder.Store.Create.{version_v1, new_leg}
use funi.Ladder.Cancellation.Evidence.{
  Json, Evidence, includes, keyed_refers, linked_refers, visits,
}
use funi.Ladder.Cancellation.Blockers.{
  auto_expiry_reason, is_advanced, parent_blockers, leg_blockers, evidence_blockers,
  planned_v4_bid_ladder_cancellation_status,
}
use funi.Ladder.Cancellation.Cancel.{
  already_cancelled, with_cancelled, cancel_planned_v4_bid_ladder,
}
use funi.Ladder.Cancellation.Harmless.{IsHarmless}
use funi.Ladder.Cancellation.Safe.{cancelled-IsHarmless, cancelled_is_settled}

abbrev leg : ℕ → Leg
leg n = new_leg (text "L") 5 (record {
  leg_index = n;
  upper_drop_bps = 100 + n;
  lower_drop_bps = 500 + n;
  weight_bps = 800;
  tick_lower = pos (60 * n);
  tick_upper = pos (60 * n + 60);
  funding_amount = 7;
  planned_liquidity = 9;
  funding_index = 1;
  target_index = 0;
})

abbrev ladder : Ladder
ladder = record {
  ladder_id = text "L";
  strategy_version = version_v1;
  execution_mode = live;
  pool_id = text "0xab";
  key = record {
    currency0 = text "0xa";
    currency1 = text "0xb";
    fee = 500;
    tick_spacing = 60;
    hooks = text "0x0";
  };
  funding_token = text "0xb";
  target_token = text "0xa";
  funding_index = 1;
  target_index = 0;
  reference_tick = pos 7;
  reference_block = 100;
  reference_block_hash = none;
  total_funding_amount = 35;
  entry_usd_snapshot = none;
  status = planned;
  created_at_ms = 5;
  updated_at_ms = 5;
  terminal_reason = none;
  terminal_at_ms = none;
  revision = 0;
}

abbrev stored : Store
stored = record {
  ladders = ladder ∷ [];
  legs = leg 0 ∷ leg 1 ∷ leg 2 ∷ leg 3 ∷ leg 4 ∷ [];
  resets = [];
}

-- Another ladder has a journal row, a session mentions this one and is over, a mutex has expired.
abbrev evidence : Evidence
evidence = record {
  journal = record { workflow_identity = text "M"; status = text "SUBMITTED" } ∷ [];
  transaction_intents = [];
  transaction_receipts = [];
  open_intents = [];
  gas_intents = [];
  open_receipt_intents = [];
  v4_positions = [];
  position_tokens = text "1" ∷ [];
  lifecycle_intents = [];
  lifecycle_receipt_intents = [];
  exposures = record { workflow_id = text "L"; released_at = some (text "t") } ∷ [];
  sessions = record { state_json = text "L"; status = text "cancelled"; expires_at_ms = 9 } ∷ [];
  callbacks =
      record { workflow_or_position_id = text "L"; consumed_at_ms = none; expires_at_ms = 10 } ∷ [];
  confirmations = [];
  nonce_mutex_expiries = some (text "t") ∷ [];
  chain_nonce_mutex_expiries = [];
}

-- The whole text is one JSON string, and every instant is 100.
abbrev parse : Text → Option Json
parse t = some (Json.string t)

abbrev date_parse : Text → Option ℕ
date_parse t = some 100

abbrev later : Store
later = with_cancelled stored (text "L") 0 auto_expiry_reason 1800005

cancelled-IsHarmless_example :
    IsHarmless parse date_parse stored evidence (text "L") 0 1800005
    × (later ≡ with_cancelled stored (text "L") 0 auto_expiry_reason 1800005)
    × (◌≡◌ {A = ℕ} 1 (0 + 1))
unfolding cancel_planned_v4_bid_ladder planned_v4_bid_ladder_cancellation_status load_bid_ladder
    list_bid_ladder_legs parent_blockers leg_blockers evidence_blockers includes keyed_refers
    linked_refers visits is_advanced text_eq
cancelled-IsHarmless_example =
    cancelled-IsHarmless parse date_parse stored later evidence (text "L") auto_expiry_reason 0
      1800005 1 refl

cancelled_is_settled_example :
    cancel_planned_v4_bid_ladder parse date_parse later evidence (text "L") 1 (text "x") 1900000
    ≡ ok (later, already_cancelled)
unfolding cancel_planned_v4_bid_ladder planned_v4_bid_ladder_cancellation_status load_bid_ladder
    list_bid_ladder_legs parent_blockers leg_blockers evidence_blockers includes keyed_refers
    linked_refers visits is_advanced text_eq
cancelled_is_settled_example =
    cancelled_is_settled parse date_parse stored later evidence evidence (text "L")
      auto_expiry_reason (text "x") 0 1800005 1 1 1900000 refl
