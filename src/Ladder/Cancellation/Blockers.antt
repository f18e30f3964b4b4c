-- ===== src/Ladder/Cancellation/Blockers.antt =====
-- `plannedV4BidLadderCancellationStatus`.
use funi.Common.{
  ℕ, ◌-◌, Bool, true, false, ◌&&◌, ◌||◌, not, Option, none, some, List, [], ◌∷◌, ◌++◌, Text, text,
  text_eq, ◌==◌, ltb, if◌then◌else◌, any_where, select_where, first_where, length, is_some, is_none,
}
use funi.Ladder.Store.Rows.{
  planned, cancelled, status_eq, live, mode_eq, Ladder, Leg, Store, load_bid_ladder,
  list_bid_ladder_legs,
}
use funi.Ladder.Store.Create.{version_v1}
use funi.Ladder.Cancellation.Evidence.{
  Json, Keyed, OpenIntent, LifecycleIntent, Journal, Exposure, Session, Callback, Confirmation,
  Evidence, includes, exact_json_reference, keyed_refers, linked_refers,
}

abbrev pub auto_expiry_ms : ℕ
auto_expiry_ms = 1800000

abbrev pub candidate_limit : ℕ
candidate_limit = 20

abbrev pub auto_expiry_reason : Text
auto_expiry_reason = text "AUTO_EXPIRED_PLANNED_30M"

pub data Blocker : Type 0 where
  not_found : Blocker
  strategy_invalid : Blocker
  mode_invalid : Blocker
  state_not_planned : Blocker
  revision_changed : Blocker
  ttl_not_elapsed : Blocker
  leg_set_ambiguous : Blocker
  leg_state_advanced : Blocker
  minted_token_evidence : Blocker
  batch_evidence : Blocker
  transaction_journal_evidence : Text → Blocker
  transaction_intent_evidence : Blocker
  transaction_receipt_evidence : Blocker
  open_intent_advanced : Blocker
  gas_evidence : Blocker
  open_receipt_evidence : Blocker
  canonical_position_evidence : Blocker
  generic_position_evidence : Blocker
  lifecycle_intent_advanced : Blocker
  lifecycle_receipt_evidence : Blocker
  exposure_commitment_evidence : Blocker
  session_identity_ambiguous : Blocker
  active_session : Blocker
  active_callback_authorization : Blocker
  confirmation_expiry_ambiguous : Blocker
  active_confirmation : Blocker
  nonce_expiry_ambiguous : Blocker
  nonce_mutex_present : Blocker
  concurrent_state_changed : Blocker

abbrev pub when : Bool → Blocker → List Blocker
when true b = b ∷ []
when false b = []

module _ {A : Type 0} where
  abbrev pub each : (A → List Blocker) → List A → List Blocker
  each f [] = []
  each f (x ∷ xs) = f x ++ each f xs

abbrev pub is_harmless_state : Text → Bool
is_harmless_state s =
    text_eq s (text "PREVIEWED") || (text_eq s (text "CANCELLED") || text_eq s (text "EXPIRED"))

abbrev pub is_over_state : Text → Bool
is_over_state s = text_eq s (text "CANCELLED") || text_eq s (text "EXPIRED")

unfoldable pub is_advanced : OpenIntent → Bool
is_advanced i =
    not (is_harmless_state i.keyed.state)
    || (is_some i.erc20_approval_hash
        || (is_some i.permit2_approval_hash || (is_some i.mint_hash || is_some i.token_id)))

abbrev pub leg_tokens : List Leg → List Text
leg_tokens [] = []
leg_tokens (l ∷ ls) = elim l.token_id [ none ↦ leg_tokens ls | some t ↦ t ∷ leg_tokens ls ]

-- The parent's own row.
unfoldable pub parent_blockers : Ladder → ℕ → ℕ → List Blocker
parent_blockers p revision now =
    when (not (text_eq p.strategy_version version_v1)) strategy_invalid
    ++ (when (not (mode_eq p.execution_mode live)) mode_invalid
        ++ (when (not (status_eq p.status planned)) state_not_planned
            ++ (when (not (p.revision == revision)) revision_changed
                ++ when (ltb now p.updated_at_ms || ltb (now - p.updated_at_ms) auto_expiry_ms)
                    ttl_not_elapsed)))

abbrev pub leg_advanced : Leg → Bool
leg_advanced l = not (status_eq l.status planned)

abbrev pub leg_minted : Leg → Bool
leg_minted l = is_some l.token_id

abbrev pub leg_batched : Leg → Bool
leg_batched l = is_some l.open_batch_id || is_some l.close_batch_id

unfoldable pub leg_blockers : List Leg → List Blocker
leg_blockers legs =
    when (not (length legs == 5)) leg_set_ambiguous
    ++ (when (any_where leg_advanced legs) leg_state_advanced
        ++ (when (any_where leg_minted legs) minted_token_evidence
            ++ when (any_where leg_batched legs) batch_evidence))

abbrev pub is_journal_of : Text → Journal → Bool
is_journal_of id j = text_eq j.workflow_identity id

abbrev pub journal_blockers : Option Journal → List Blocker
journal_blockers none = []
journal_blockers (some j) = transaction_journal_evidence j.status ∷ []

abbrev pub is_open_exposure : Text → Exposure → Bool
is_open_exposure id x = text_eq x.workflow_id id && is_none x.released_at

abbrev pub is_active_callback : Text → ℕ → Callback → Bool
is_active_callback id now c =
    text_eq c.workflow_or_position_id id && (is_none c.consumed_at_ms && ltb now c.expires_at_ms)

abbrev pub same_intent : Text → Text → Bool
same_intent a b = text_eq b a

pub record CancelStatus : Type 0 where
  pub eligible : Bool
  pub idempotent : Bool
  pub blockers : List Blocker

abbrev pub is_clear : List Blocker → Bool
is_clear [] = true
is_clear (b ∷ bs) = false

-- `activeIsoTimestamp`: `none` for an instant that does not parse.
abbrev pub later_than : ℕ → Option ℕ → Option Bool
later_than now none = none
later_than now (some t) = some (ltb now t)

abbrev pub expiry_blockers : Option Bool → Blocker → Blocker → List Blocker
expiry_blockers none ambiguous active = ambiguous ∷ []
expiry_blockers (some b) ambiguous active = when b active

abbrev pub intent_blockers : Evidence → Text → List Blocker
intent_blockers e intent =
    when (any_where (same_intent intent) e.gas_intents) gas_evidence
    ++ when (any_where (same_intent intent) e.open_receipt_intents) open_receipt_evidence

abbrev pub lifecycle_advanced : Text → LifecycleIntent → Bool
lifecycle_advanced token i =
    text_eq i.token_id token && (not (is_harmless_state i.state) || is_some i.tx_hash)

abbrev pub lifecycle_received : Evidence → Text → LifecycleIntent → Bool
lifecycle_received e token i =
    text_eq i.token_id token && any_where (same_intent i.id) e.lifecycle_receipt_intents

abbrev pub token_blockers : Evidence → Text → List Blocker
token_blockers e token =
    when (any_where (lifecycle_advanced token) e.lifecycle_intents) lifecycle_intent_advanced
    ++ when (any_where (lifecycle_received e token) e.lifecycle_intents) lifecycle_receipt_evidence

abbrev pub intent_id : OpenIntent → Text
intent_id i = i.keyed.id

module _ (parse : Text → Option Json) (date_parse : Text → Option ℕ) where
  abbrev pub active_iso_timestamp : Option Text → ℕ → Option Bool
  active_iso_timestamp none now = later_than now (date_parse [])
  active_iso_timestamp (some t) now = later_than now (date_parse t)

  abbrev pub related : Evidence → Text → List OpenIntent
  related e id = select_where (λ i. keyed_refers parse id i.keyed) e.open_intents

  abbrev pub session_blockers : Text → ℕ → Session → List Blocker
  session_blockers id now s =
      let r = exact_json_reference parse (some s.state_json) id in
      if includes id s.state_json
      then when r.ambiguous session_identity_ambiguous
        ++ when (r.exact && (text_eq s.status (text "active") && ltb now s.expires_at_ms))
            active_session
      else []

  abbrev pub confirmation_blockers : Text → ℕ → Confirmation → List Blocker
  confirmation_blockers id now c =
      if keyed_refers parse id c.keyed && text_eq c.keyed.state (text "AWAITING_CONFIRMATION")
      then expiry_blockers (active_iso_timestamp c.expires_at now) confirmation_expiry_ambiguous
          active_confirmation
      else []

  abbrev pub mutex_blockers : ℕ → Option Text → List Blocker
  mutex_blockers now expires =
      expiry_blockers (active_iso_timestamp expires now) nonce_expiry_ambiguous nonce_mutex_present

  abbrev pub is_unfinished : Text → Keyed → Bool
  is_unfinished id k = keyed_refers parse id k && not (is_over_state k.state)

  abbrev pub is_advanced_open : Text → OpenIntent → Bool
  is_advanced_open id i = keyed_refers parse id i.keyed && is_advanced i

  -- What the tables other than the ladder's own hold against it, `tokens` being those of its legs.
  unfoldable pub evidence_blockers : Evidence → Text → List Text → ℕ → List Blocker
  evidence_blockers e id tokens now =
      journal_blockers (first_where (is_journal_of id) e.journal)
      ++ (when (any_where (is_unfinished id) e.transaction_intents) transaction_intent_evidence
          ++ (when (any_where (linked_refers parse id) e.transaction_receipts)
                transaction_receipt_evidence
              ++ (when (any_where (is_advanced_open id) e.open_intents) open_intent_advanced
                  ++ (each (λ i. intent_blockers e (intent_id i)) (related e id)
                      ++ (intent_blockers e id
                          ++ (when (any_where (linked_refers parse id) e.v4_positions)
                                canonical_position_evidence
                              ++ (when
                                    (any_where (λ t. any_where (same_intent t) e.position_tokens)
                                      tokens)
                                    generic_position_evidence
                                  ++ (each (token_blockers e) tokens
                                      ++ (when (any_where (is_open_exposure id) e.exposures)
                                            exposure_commitment_evidence
                                          ++ (each (session_blockers id now) e.sessions
                                              ++ (when
                                                    (any_where (is_active_callback id now)
                                                      e.callbacks)
                                                    active_callback_authorization
                                                  ++ (each (confirmation_blockers id now)
                                                        e.confirmations
                                                      ++ (each (mutex_blockers now)
                                                            e.nonce_mutex_expiries
                                                          ++ each (mutex_blockers now)
                                                            e.chain_nonce_mutex_expiries)))))))))))))

  abbrev pub status_of : Store → Evidence → Text → ℕ → ℕ → Option Ladder → CancelStatus
  status_of db e id revision now none = record {
    eligible = false;
    idempotent = false;
    blockers = not_found ∷ [];
  }
  status_of db e id revision now (some p) =
      if status_eq p.status cancelled
      then record { eligible = false; idempotent = true; blockers = [] }
      else (let found =
            parent_blockers p revision now
            ++ (leg_blockers (list_bid_ladder_legs db id)
                ++ evidence_blockers e id (leg_tokens (list_bid_ladder_legs db id)) now) in
          record { eligible = is_clear found; idempotent = false; blockers = found })

  -- The source lists each blocker once.
  unfoldable pub planned_v4_bid_ladder_cancellation_status :
      Store → Evidence → Text → ℕ → ℕ → CancelStatus
  planned_v4_bid_ladder_cancellation_status db e id revision now =
      status_of db e id revision now (load_bid_ladder db id)
