-- ===== src/Ladder/Cancellation/Harmless.antt =====
-- What has to hold of the tables for a cancellation: nothing in them speaks against it.
use funi.Common.{
  ℕ, ◌+◌, ◌≤◌, ◌≡◌, refl, inl, inr, Bool, true, false, ◌&&◌, ◌||◌, not, Option, none, some, List,
  [], ◌∷◌, ◌++◌, arith, Text, text, text_eq, ltb, Bool-cases, All, any_where, select_where,
  first_where, length,
}
use funi.Ladder.Store.Rows.{planned, live, Ladder, Store, load_bid_ladder, list_bid_ladder_legs}
use funi.Ladder.Store.Create.{version_v1}
use funi.Ladder.Cancellation.Evidence.{
  Json, Journal, OpenIntent, Session, Confirmation, Evidence, includes, exact_json_reference,
  keyed_refers, linked_refers,
}
use funi.Ladder.Cancellation.Blockers.{
  auto_expiry_ms, Blocker, when, each, leg_advanced, leg_minted, leg_batched, is_journal_of,
  journal_blockers, is_open_exposure, is_active_callback, same_intent, active_iso_timestamp,
  expiry_blockers, intent_blockers, intent_id, lifecycle_advanced, lifecycle_received,
  token_blockers, session_blockers, confirmation_blockers, mutex_blockers, is_unfinished,
  is_advanced_open, evidence_blockers, leg_tokens,
}

pub split_empty : (xs ys : List Blocker) → xs ++ ys ≡ [] → (xs ≡ []) × (ys ≡ [])
split_empty [] ys h = (refl, h)
split_empty (x ∷ xs) ys h = cc

pub when_empty : (b : Bool) (x : Blocker) → when b x ≡ [] → b ≡ false
when_empty true x h = cc
when_empty false x h = refl

journal_empty : (o : Option Journal) → journal_blockers o ≡ [] → o ≡ none
journal_empty none h = refl
journal_empty (some j) h = cc

expiry_empty : (o : Option Bool) (a b : Blocker) → expiry_blockers o a b ≡ [] → o ≡ some false
expiry_empty none a b h = cc
expiry_empty (some true) a b h = cc
expiry_empty (some false) a b h = refl

-- An instant that parsed and is past.
abbrev pub has_lapsed : Option Bool → Bool
has_lapsed (some false) = true
has_lapsed _ = false

-- Where the blockers of all rows are none, no row has what each of them would report.
each-false :
    {A : Type 0} (f : A → List Blocker) (q : A → Bool) (xs : List A)
    → ((x : A) → f x ≡ [] → q x ≡ false)
    → each f xs ≡ []
    → any_where q xs ≡ false
each-false f q [] imp h = refl
each-false f q (x ∷ xs) imp h =
    let s = split_empty (f x) (each f xs) h in ground (arith, imp x s.0, each-false f q xs imp s.1)

each_related :
    {A : Type 0} (p : A → Bool) (f : A → List Blocker) (q : A → Bool) (xs : List A)
    → ((x : A) → f x ≡ [] → q x ≡ false)
    → each f (select_where p xs) ≡ []
    → any_where (λ x. p x && q x) xs ≡ false
each_related p f q [] imp h = refl
each_related p f q (x ∷ xs) imp h = elim (Bool-cases (p x)) [
  | inr e ↦ rw e (each_related p f q xs imp (rw e at h))
  | inl e ↦
      let s = split_empty (f x) (each f (select_where p xs)) (rw e at h) in
      rw (e, imp x s.0) (each_related p f q xs imp s.1)
]

intent_empty :
    (e : Evidence) (intent : Text)
    → intent_blockers e intent ≡ []
    → (any_where (same_intent intent) e.gas_intents ≡ false)
      × (any_where (same_intent intent) e.open_receipt_intents ≡ false)
intent_empty e intent h =
    let s =
      split_empty (when (any_where (same_intent intent) e.gas_intents) Blocker.gas_evidence) _ h in
    (when_empty _ _ s.0, when_empty _ _ s.1)

module _ (parse : Text → Option Json) (date_parse : Text → Option ℕ) where
  mutex_empty :
      (now : ℕ) (xs : List (Option Text))
      → each (mutex_blockers parse date_parse now) xs ≡ []
      → All (λ x. active_iso_timestamp parse date_parse x now ≡ some false) xs
  mutex_empty now [] h = tt
  mutex_empty now (x ∷ xs) h =
      let parts =
        split_empty (mutex_blockers parse date_parse now x)
          (each (mutex_blockers parse date_parse now) xs) h in
      (
        expiry_empty (active_iso_timestamp parse date_parse x now) Blocker.nonce_expiry_ambiguous
            Blocker.nonce_mutex_present parts.0,
        mutex_empty now xs parts.1,
      )

  -- A session in whose state the ladder is named beyond doubt while it is live, or in doubt.
  abbrev pub is_live_session : Text → ℕ → Session → Bool
  is_live_session id now s =
      includes id s.state_json
      && ((exact_json_reference parse (some s.state_json) id).ambiguous
          || ((exact_json_reference parse (some s.state_json) id).exact
              && (text_eq s.status (text "active") && ltb now s.expires_at_ms)))

  -- A confirmation of the ladder that is awaited and not known to be over.
  abbrev pub is_live_confirmation : Text → ℕ → Confirmation → Bool
  is_live_confirmation id now c =
      keyed_refers parse id c.keyed
      && (text_eq c.keyed.state (text "AWAITING_CONFIRMATION")
          && not (has_lapsed (active_iso_timestamp parse date_parse c.expires_at now)))

  -- No table other than the ladder's own names it, nor a token of its legs, in a way that counts.
  pub record IsSilent (e : Evidence) (id : Text) (tokens : List Text) (now : ℕ) : Type 0 where
    pub no_journal : first_where (is_journal_of id) e.journal ≡ none
    pub no_unfinished_intent :
        any_where (is_unfinished parse date_parse id) e.transaction_intents ≡ false
    pub no_receipt : any_where (linked_refers parse id) e.transaction_receipts ≡ false
    pub no_advanced_open : any_where (is_advanced_open parse date_parse id) e.open_intents ≡ false
    pub no_open_gas :
        any_where
          (λ i. keyed_refers parse id i.keyed && any_where (same_intent i.keyed.id) e.gas_intents)
          e.open_intents
        ≡ false
    pub no_open_receipt :
        any_where
          (λ i.
            keyed_refers parse id i.keyed
            && any_where (same_intent i.keyed.id) e.open_receipt_intents)
          e.open_intents
        ≡ false
    pub no_own_gas : any_where (same_intent id) e.gas_intents ≡ false
    pub no_own_receipt : any_where (same_intent id) e.open_receipt_intents ≡ false
    pub no_position : any_where (linked_refers parse id) e.v4_positions ≡ false
    pub no_generic_position :
        any_where (λ t. any_where (same_intent t) e.position_tokens) tokens ≡ false
    pub no_lifecycle_intent :
        any_where (λ t. any_where (lifecycle_advanced t) e.lifecycle_intents) tokens ≡ false
    pub no_lifecycle_receipt :
        any_where (λ t. any_where (lifecycle_received e t) e.lifecycle_intents) tokens ≡ false
    pub no_exposure : any_where (is_open_exposure id) e.exposures ≡ false
    pub no_session : any_where (is_live_session id now) e.sessions ≡ false
    pub no_callback : any_where (is_active_callback id now) e.callbacks ≡ false
    pub no_confirmation : any_where (is_live_confirmation id now) e.confirmations ≡ false
    pub mutexes_over :
        All (λ x. active_iso_timestamp parse date_parse x now ≡ some false) e.nonce_mutex_expiries
    pub chain_mutexes_over :
        All
          (λ x. active_iso_timestamp parse date_parse x now ≡ some false)
          e.chain_nonce_mutex_expiries

  -- The ladder is as it was planned, and nothing speaks against its cancellation.
  pub record IsHarmless (db : Store) (e : Evidence) (id : Text) (revision now : ℕ) : Type 0 where
    pub parent : Ladder
    pub is_stored : load_bid_ladder db id ≡ some parent
    pub is_v1 : text_eq parent.strategy_version version_v1 ≡ true
    pub is_planned : parent.status ≡ planned
    pub is_live : parent.execution_mode ≡ live
    pub is_expected : parent.revision ≡ revision
    pub is_abandoned : parent.updated_at_ms + auto_expiry_ms ≤ now
    pub has_five_legs : length (list_bid_ladder_legs db id) ≡ 5
    pub legs_planned : any_where leg_advanced (list_bid_ladder_legs db id) ≡ false
    pub legs_unminted : any_where leg_minted (list_bid_ladder_legs db id) ≡ false
    pub legs_unbatched : any_where leg_batched (list_bid_ladder_legs db id) ≡ false
    pub nothing_refers : IsSilent e id (leg_tokens (list_bid_ladder_legs db id)) now

  session_silent :
      (id : Text) (now : ℕ) (s : Session)
      → session_blockers parse date_parse id now s ≡ []
      → is_live_session id now s ≡ false
  session_silent id now s h = ground arith

  confirmation_silent :
      (id : Text) (now : ℕ) (c : Confirmation)
      → confirmation_blockers parse date_parse id now c ≡ []
      → is_live_confirmation id now c ≡ false
  confirmation_silent id now c h = ground arith

  pub evidence-IsSilent :
      (e : Evidence) (id : Text) (tokens : List Text) (now : ℕ)
      → evidence_blockers parse date_parse e id tokens now ≡ []
      → IsSilent e id tokens now
  unfolding evidence_blockers
  evidence-IsSilent e id tokens now h =
      let refers = λ (i : OpenIntent). keyed_refers parse id i.keyed in
      let e1 = split_empty _ _ h in
      let e2 = split_empty _ _ e1.1 in
      let e3 = split_empty _ _ e2.1 in
      let e4 = split_empty _ _ e3.1 in
      let e5 = split_empty _ _ e4.1 in
      let e6 = split_empty _ _ e5.1 in
      let e7 = split_empty _ _ e6.1 in
      let e8 = split_empty _ _ e7.1 in
      let e9 = split_empty _ _ e8.1 in
      let e10 = split_empty _ _ e9.1 in
      let e11 = split_empty _ _ e10.1 in
      let e12 = split_empty _ _ e11.1 in
      let e13 = split_empty _ _ e12.1 in
      let e14 = split_empty _ _ e13.1 in
      let own = intent_empty e id e6.0 in
      record {
        no_journal = journal_empty _ e1.0;
        no_unfinished_intent = when_empty _ _ e2.0;
        no_receipt = when_empty _ _ e3.0;
        no_advanced_open = when_empty _ _ e4.0;
        no_open_gas =
            each_related refers (λ i. intent_blockers e (intent_id i))
              (λ i. any_where (same_intent i.keyed.id) e.gas_intents) e.open_intents
              (λ i k. (intent_empty e (intent_id i) k).0) e5.0;
        no_open_receipt =
            each_related refers (λ i. intent_blockers e (intent_id i))
              (λ i. any_where (same_intent i.keyed.id) e.open_receipt_intents) e.open_intents
              (λ i k. (intent_empty e (intent_id i) k).1) e5.0;
        no_own_gas = own.0;
        no_own_receipt = own.1;
        no_position = when_empty _ _ e7.0;
        no_generic_position = when_empty _ _ e8.0;
        no_lifecycle_intent =
            each-false (token_blockers e) _ tokens
              (λ t k. when_empty _ _ (split_empty (when _ Blocker.lifecycle_intent_advanced) _ k).0)
              e9.0;
        no_lifecycle_receipt =
            each-false (token_blockers e) _ tokens
              (λ t k. when_empty _ _ (split_empty (when _ Blocker.lifecycle_intent_advanced) _ k).1)
              e9.0;
        no_exposure = when_empty _ _ e10.0;
        no_session =
            each-false (session_blockers parse date_parse id now) (is_live_session id now)
              e.sessions (session_silent id now) e11.0;
        no_callback = when_empty _ _ e12.0;
        no_confirmation =
            each-false (confirmation_blockers parse date_parse id now) (is_live_confirmation id now)
              e.confirmations (confirmation_silent id now) e13.0;
        mutexes_over = mutex_empty now e.nonce_mutex_expiries e14.0;
        chain_mutexes_over = mutex_empty now e.chain_nonce_mutex_expiries e14.1;
      }
