-- ===== src/Ledger/Delivery/Defs.antt =====
-- The rows of `pnl_card_deliveries` and the methods of the repository on them.
use funi.Common.{
  ℕ, ◌+◌, Bool, true, false, not, ◌&&◌, ◌||◌, Option, none, some, List, [], ◌∷◌, ◌++◌, Text, text,
  text_eq, ltb, leb, ◌==◌, if◌then◌else◌, coalesce, is_none, is_some, Result, ok, err, count_where,
  first_where, any_where, update_where,
}

pub data CardKind : Type 0 where
  close daily : CardKind

pub data RenderStatus : Type 0 where
  pending rendered fallback_text failed : RenderStatus

pub data DeliveryStatus : Type 0 where
  pending sending delivered failed delivery_uncertain : DeliveryStatus

pub data Consumer : Type 0 where
  telegram_event_driven reconcile_fallback : Consumer

pub record Delivery : Type 0 where
  pub delivery_id : Text
  pub card_kind : CardKind
  pub economic_event_id : Option Text
  pub requested_day_wib : Option Text
  pub chat_identity : Text
  pub render_status : RenderStatus
  pub delivery_status : DeliveryStatus
  pub telegram_message_id : Option Text
  pub attempted_at_ms : Option ℕ
  pub delivered_at_ms : Option ℕ
  pub error_code : Option Text
  pub metadata_json : Text
  pub created_at_ms : ℕ
  pub updated_at_ms : ℕ
  pub attempt_count : ℕ
  pub send_started_at_ms : Option ℕ
  pub consumer_source : Option Consumer

abbrev pub Deliveries : Type 0
Deliveries = List Delivery

pub data Error : Type 0 where
  foreign_key_failed recovery_input_invalid send_boundary_conflict finalization_conflict : Error

abbrev pub kind_eq : CardKind → CardKind → Bool
kind_eq CardKind.close CardKind.close = true
kind_eq CardKind.daily CardKind.daily = true
kind_eq _ _ = false

abbrev pub is_pending : DeliveryStatus → Bool
is_pending DeliveryStatus.pending = true
is_pending _ = false

abbrev pub is_sending : DeliveryStatus → Bool
is_sending DeliveryStatus.sending = true
is_sending _ = false

abbrev pub same : Option Text → Option Text → Bool
same (some a) (some b) = text_eq a b
same _ _ = false

abbrev pub has_id : Text → Delivery → Bool
has_id id d = text_eq d.delivery_id id

pub record EnsureInput : Type 0 where
  pub delivery_id : Text
  pub card_kind : CardKind
  pub economic_event_id : Option Text
  pub requested_day_wib : Option Text
  pub chat_identity : Text
  pub metadata_json : Text

-- The two CHECK constraints on what a kind of card names.
abbrev pub well_formed : EnsureInput → Bool
well_formed i =
    (if kind_eq i.card_kind CardKind.close
      then is_some i.economic_event_id
      else is_none i.economic_event_id)
    && (if kind_eq i.card_kind CardKind.daily
        then is_some i.requested_day_wib
        else is_none i.requested_day_wib)

-- The primary key and the two unique indexes.
abbrev pub conflicts : EnsureInput → Delivery → Bool
conflicts i d =
    has_id i.delivery_id d
    || (text_eq d.chat_identity i.chat_identity
        && (kind_eq d.card_kind i.card_kind
            && (if kind_eq i.card_kind CardKind.close
                then same d.economic_event_id i.economic_event_id
                else same d.requested_day_wib i.requested_day_wib)))

abbrev pub new_delivery : EnsureInput → ℕ → Delivery
new_delivery i at = record {
  delivery_id = i.delivery_id;
  card_kind = i.card_kind;
  economic_event_id = i.economic_event_id;
  requested_day_wib = i.requested_day_wib;
  chat_identity = i.chat_identity;
  render_status = RenderStatus.pending;
  delivery_status = DeliveryStatus.pending;
  telegram_message_id = none;
  attempted_at_ms = none;
  delivered_at_ms = none;
  error_code = none;
  metadata_json = i.metadata_json;
  created_at_ms = at;
  updated_at_ms = at;
  attempt_count = 0;
  send_started_at_ms = none;
  consumer_source = none;
}

-- The SELECT of `ensurePnlCardDelivery`.
abbrev pub selected : EnsureInput → Delivery → Bool
selected i d =
    kind_eq d.card_kind i.card_kind
    && (text_eq d.chat_identity i.chat_identity
        && ((kind_eq i.card_kind CardKind.close
              && same d.economic_event_id (some (coalesce i.economic_event_id [])))
            || (kind_eq i.card_kind CardKind.daily
                && same d.requested_day_wib (some (coalesce i.requested_day_wib [])))))

abbrev pub event_exists : (Text → Bool) → Option Text → Bool
event_exists events none = true
event_exists events (some e) = events e

-- INSERT OR IGNORE, with the events that the foreign key may name.
abbrev pub inserted : (Text → Bool) → Deliveries → EnsureInput → ℕ → Result Error Deliveries
inserted events db i at =
    if not (well_formed i) || any_where (conflicts i) db
    then ok db
    else (if event_exists events i.economic_event_id
        then ok (db ++ new_delivery i at ∷ [])
        else err foreign_key_failed)

abbrev pub with_selected :
    EnsureInput → Result Error Deliveries → Result Error (Deliveries × Option Delivery)
with_selected i (ok db) = ok (db, first_where (selected i) db)
with_selected i (err e) = err e

-- `ensurePnlCardDelivery`
unfoldable pub ensure_pnl_card_delivery :
    (Text → Bool) → Deliveries → EnsureInput → ℕ → Result Error (Deliveries × Option Delivery)
ensure_pnl_card_delivery events db i at = with_selected i (inserted events db i at)

-- `attempted_at_ms <= nowMs - leaseTimeoutMs`, false on NULL.
abbrev pub lease_expired : ℕ → ℕ → Option ℕ → Bool
lease_expired now lease none = false
lease_expired now lease (some at) = leb (at + lease) now

abbrev pub unsent : ℕ → ℕ → Delivery → Bool
unsent now lease d =
    is_sending d.delivery_status
    && (is_none d.send_started_at_ms && lease_expired now lease d.attempted_at_ms)

abbrev pub returned : ℕ → Delivery → Delivery
returned now d = record d {
  delivery_status = DeliveryStatus.pending;
  error_code = some (text "CLAIM_LEASE_EXPIRED_BEFORE_SEND");
  updated_at_ms = now;
}

abbrev pub ambiguous : ℕ → ℕ → Delivery → Bool
ambiguous now lease d =
    is_sending d.delivery_status
    && (is_some d.send_started_at_ms && lease_expired now lease d.attempted_at_ms)

abbrev pub uncertain_after_crash : ℕ → Delivery → Delivery
uncertain_after_crash now d = record d {
  delivery_status = DeliveryStatus.delivery_uncertain;
  error_code = some (text "TELEGRAM_SEND_OUTCOME_AMBIGUOUS_AFTER_CRASH");
  updated_at_ms = now;
}

-- `recoverPnlCardDeliveryClaims`, with its two counts.
unfoldable pub recover_pnl_card_delivery_claims :
    Deliveries → ℕ → ℕ → Result Error (Deliveries × ℕ × ℕ)
recover_pnl_card_delivery_claims db now lease =
    if leb 9007199254740992 now || (leb 9007199254740992 lease || ltb lease 1)
    then err recovery_input_invalid
    else (let db' = update_where (unsent now lease) (returned now) db in
        ok (
          update_where (ambiguous now lease) (uncertain_after_crash now) db',
          count_where (unsent now lease) db,
          count_where (ambiguous now lease) db',
        ))

abbrev pub claimable : Text → Delivery → Bool
claimable id d = has_id id d && is_pending d.delivery_status

abbrev pub claimed : Consumer → ℕ → Delivery → Delivery
claimed consumer at d = record d {
  delivery_status = DeliveryStatus.sending;
  attempted_at_ms = some at;
  send_started_at_ms = none;
  attempt_count = d.attempt_count + 1;
  consumer_source = some consumer;
  error_code = none;
  updated_at_ms = at;
}

-- `claimPnlCardDelivery`
unfoldable pub claim_pnl_card_delivery :
    Deliveries → Text → Consumer → ℕ → Deliveries × Option Delivery
claim_pnl_card_delivery db id consumer at =
    let db' = update_where (claimable id) (claimed consumer at) db in
    (db', if count_where (claimable id) db == 1 then first_where (has_id id) db' else none)

abbrev pub may_mark : Text → Delivery → Bool
may_mark id d = has_id id d && (is_sending d.delivery_status && is_none d.send_started_at_ms)

abbrev pub marked : ℕ → Delivery → Delivery
marked at d = record d { send_started_at_ms = some at; updated_at_ms = at }

-- `markPnlCardDeliverySendStarted`
unfoldable pub mark_pnl_card_delivery_send_started : Deliveries → Text → ℕ → Result Error Deliveries
mark_pnl_card_delivery_send_started db id at =
    if count_where (may_mark id) db == 1
    then ok (update_where (may_mark id) (marked at) db)
    else err send_boundary_conflict

pub record FinalizeInput : Type 0 where
  pub delivery_id : Text
  pub delivered : Bool
  pub uncertain : Bool
  pub retryable : Bool
  pub message_id : Option Text
  pub render_status : RenderStatus
  pub error_code : Option Text

abbrev pub final_status : FinalizeInput → DeliveryStatus
final_status i =
    if i.delivered
    then DeliveryStatus.delivered
    else (if i.uncertain
        then DeliveryStatus.delivery_uncertain
        else (if i.retryable then DeliveryStatus.pending else DeliveryStatus.failed))

abbrev pub may_finalize : Text → Delivery → Bool
may_finalize id d = has_id id d && is_sending d.delivery_status

abbrev pub finalized : FinalizeInput → ℕ → Delivery → Delivery
finalized i at d = record d {
  render_status = i.render_status;
  delivery_status = final_status i;
  telegram_message_id = i.message_id;
  delivered_at_ms = if i.delivered then some at else none;
  send_started_at_ms = if is_pending (final_status i) then none else d.send_started_at_ms;
  error_code = i.error_code;
  updated_at_ms = at;
}

-- `finalizePnlCardDelivery`
unfoldable pub finalize_pnl_card_delivery : Deliveries → FinalizeInput → ℕ → Result Error Deliveries
finalize_pnl_card_delivery db i at =
    if count_where (may_finalize i.delivery_id) db == 1
    then ok (update_where (may_finalize i.delivery_id) (finalized i at) db)
    else err finalization_conflict
