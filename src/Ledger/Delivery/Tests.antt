-- ===== src/Ledger/Delivery/Tests.antt =====
-- The theorem on deliveries, applied to one that is retried once.
use funi.Common.{
  ◌+◌, ◌≤◌, ◌≡◌, refl, Bool, true, false, List, [], ◌∷◌, Text, text, text_eq, none, some,
}
use funi.Ledger.Delivery.Defs.{
  CardKind, RenderStatus, Deliveries, EnsureInput, FinalizeInput, new_delivery,
  telegram_event_driven, mark_pnl_card_delivery_send_started, finalize_pnl_card_delivery,
  claim_pnl_card_delivery, recover_pnl_card_delivery_claims,
}
use funi.Ledger.Delivery.Once.{
  Call, claims, marks, finalizes, recovers, starts, retries, sends_are_bounded,
}

abbrev daily_card : EnsureInput
daily_card = record {
  delivery_id = text "d";
  card_kind = CardKind.daily;
  economic_event_id = none;
  requested_day_wib = some (text "2026-01-01");
  chat_identity = text "c";
  metadata_json = text "{}";
}

abbrev one_row : Deliveries
one_row = new_delivery daily_card 0 ∷ []

abbrev retry : FinalizeInput
retry = record {
  delivery_id = text "d";
  delivered = false;
  uncertain = false;
  retryable = true;
  message_id = none;
  render_status = RenderStatus.rendered;
  error_code = none;
}

abbrev calls : List Call
calls =
    claims (text "d") telegram_event_driven 1
    ∷ marks (text "d") 2
    ∷ marks (text "d") 3
    ∷ finalizes retry 4
    ∷ claims (text "d") telegram_event_driven 5
    ∷ marks (text "d") 6
    ∷ recovers 100 1
    ∷ claims (text "d") telegram_event_driven 101
    ∷ []

abbrev no_events : Text → Bool
no_events e = false

sends_are_bounded_example :
    starts no_events (text "d") one_row calls ≤ 1 + retries no_events (text "d") one_row calls
unfolding text_eq
sends_are_bounded_example = sends_are_bounded no_events (text "d") calls one_row refl

two_starts : starts no_events (text "d") one_row calls ≡ 2
unfolding starts text_eq mark_pnl_card_delivery_send_started finalize_pnl_card_delivery
    claim_pnl_card_delivery recover_pnl_card_delivery_claims
two_starts = refl
