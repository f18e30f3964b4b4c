-- ===== src/Ledger/Canary/Claims.antt =====
-- The intents of the canary, and the three ways to claim the budget for one.
use funi.Common.{
  ℕ, Bool, true, false, not, ◌&&◌, ◌||◌, Option, none, some, [], ◌∷◌, ◌++◌, Text, text, text_eq,
  same_text, leb, ◌==◌, if◌then◌else◌, first_where, any_where, count_where, update_where, coalesce?,
  Result, ok, err,
}
use funi.Ledger.Confirmation.Defs
use funi.Ledger.Confirmation.Defs.{Request, is_awaiting, has_id, awaits, moved_to}
use funi.Ledger.Canary.Budget.{
  Budget, IntentState, previewed, final_simulation_passed, other_state, Intent, Transition,
  Selection, Canary, is_available, claim_budget,
}

pub data Error : Type 0 where
  constraint_failed : Error

abbrev pub is_intent : Text → Intent → Bool
is_intent id i = text_eq i.id id

abbrev pub has_intent_key : Text → Intent → Bool
has_intent_key key i = text_eq i.idempotency_key key

unfoldable pub canary_intent : Canary → Text → Option Intent
canary_intent s id = first_where (is_intent id) s.intents

unfoldable pub canary_intent_by_key : Canary → Text → Option Intent
canary_intent_by_key s key = first_where (has_intent_key key) s.intents

abbrev pub state_eq : IntentState → IntentState → Bool
state_eq previewed previewed = true
state_eq final_simulation_passed final_simulation_passed = true
state_eq (other_state a) (other_state b) = text_eq a b
state_eq _ _ = false

abbrev pub is_transition : Text → IntentState → Transition → Bool
is_transition id st t = text_eq t.intent_id id && state_eq t.state st

-- `INSERT OR IGNORE INTO canary_execution_transitions`
abbrev pub log_transition : Canary → Text → IntentState → ℕ → Canary
log_transition s id st at = if any_where (is_transition id st) s.transitions then s else record s {
  transitions = s.transitions ++ record { intent_id = id; state = st; created_at = at } ∷ [];
}

abbrev pub new_intent : Text → Text → Text → Text → Text → ℕ → Intent
new_intent id wallet owner key payload at = record {
  id = id;
  wallet = wallet;
  owner = owner;
  state = previewed;
  idempotency_key = key;
  payload_json = payload;
  approval_hash = none;
  mint_hash = none;
  token_id = none;
  failure_reason = none;
  created_at = at;
  updated_at = at;
}

abbrev pub intent_clashes : Intent → Intent → Bool
intent_clashes new old = text_eq old.id new.id || text_eq old.idempotency_key new.idempotency_key

-- The INSERT of an intent, and of its first transition.
abbrev pub insert_intent : Canary → Intent → Result Error Canary
insert_intent s i =
    if any_where (intent_clashes i) s.intents
    then err constraint_failed
    else ok
        (log_transition (record s { intents = s.intents ++ i ∷ [] }) i.id previewed i.created_at)

abbrev pub created : Option Intent → Canary → Intent → Result Error Canary
created (some existing) s i = ok s
created none s i = insert_intent s i

unfoldable pub create_canary_intent :
    Canary → Text → Text → Text → Text → Text → ℕ → Result Error Canary
unfolding canary_intent_by_key
create_canary_intent s id wallet owner key payload at =
    created (canary_intent_by_key s key) s (new_intent id wallet owner key payload at)

pub data ClaimStatus : Type 0 where
  was_claimed : ClaimStatus
  already_claimed : ClaimStatus
  invalid_intent : ClaimStatus
  budget_unavailable : ClaimStatus
  stale_pool_selection : ClaimStatus
  invalid_confirmation : ClaimStatus
  confirmation_not_active : ClaimStatus
  confirmation_expired : ClaimStatus

abbrev pub if_available :
    Canary
    → Option Budget
    → Text
    → ℕ
    → (Canary → Result Error (Canary × ClaimStatus))
    → Result Error (Canary × ClaimStatus)
if_available s none id at rest = ok (s, budget_unavailable)
if_available s (some b) id at rest =
    if is_available b then rest (claim_budget s b id at) else ok (s, budget_unavailable)

abbrev pub is_previewed : IntentState → Bool
is_previewed previewed = true
is_previewed _ = false

abbrev pub claim_prepared :
    Canary → Option Intent → Text → Text → ℕ → Result Error (Canary × ClaimStatus)
claim_prepared s none owner wallet at = ok (s, invalid_intent)
claim_prepared s (some i) owner wallet at =
    if not (text_eq i.owner owner) || not (same_text i.wallet wallet)
    then ok (s, invalid_intent)
    else if not (is_previewed i.state)
    then ok (s, already_claimed)
    else if_available s s.budget i.id at (λ s'. ok (s', was_claimed))

unfoldable pub claim_prepared_canary_intent :
    Canary → Text → Text → Text → ℕ → Result Error (Canary × ClaimStatus)
unfolding canary_intent
claim_prepared_canary_intent s id owner wallet at =
    claim_prepared s (canary_intent s id) owner wallet at

abbrev pub claimed_with : Result Error Canary → Result Error (Canary × ClaimStatus)
claimed_with (ok s) = ok (s, was_claimed)
claimed_with (err e) = err e

pub record DirectClaim : Type 0 where
  pub key : Text
  pub new_id : Text
  pub owner : Text
  pub user_id : Text
  pub chat_id : Text
  pub session_id : Text
  pub selection_id : Text
  pub wallet : Text
  pub payload : Text
  pub now : ℕ

abbrev pub is_selection : Text → Selection → Bool
is_selection id x = text_eq x.id id

abbrev pub selection_current : DirectClaim → Option Selection → Bool
selection_current c none = false
selection_current c (some x) =
    text_eq x.user_id c.user_id
    && (text_eq x.chat_id c.chat_id && (text_eq x.session_id c.session_id && not x.superseded))

abbrev pub claim_direct : Canary → DirectClaim → Option Intent → Result Error (Canary × ClaimStatus)
claim_direct s c (some existing) = ok (s, already_claimed)
claim_direct s c none =
    if not (selection_current c (first_where (is_selection c.selection_id) s.selections))
    then ok (s, stale_pool_selection)
    else if_available s s.budget c.new_id c.now (λ s'.
      claimed_with (insert_intent s' (new_intent c.new_id c.wallet c.owner c.key c.payload c.now)))

-- `key` is the source's text of the chat, the message and the update.
unfoldable pub claim_direct_canary_intent :
    Canary → DirectClaim → Result Error (Canary × ClaimStatus)
unfolding canary_intent_by_key
claim_direct_canary_intent s c = claim_direct s c (canary_intent_by_key s c.key)

pub record ConfirmationClaim : Type 0 where
  pub key : Text
  pub new_id : Text
  pub confirmation_id : Text
  pub owner : Text
  pub wallet : Text
  pub payload : Text
  pub now : ℕ

abbrev pub mint_action : Text
mint_action = text "SINGLE_SIDED_DOWNSIDE_MINT"

abbrev pub with_request : Canary → Text → Defs.State → ℕ → Canary
with_request s id st at = record s {
  requests = update_where (awaits id) (moved_to st at) s.requests;
}

abbrev pub claim_request :
    Canary → ConfirmationClaim → Option Request → Result Error (Canary × ClaimStatus)
claim_request s c none = ok (s, invalid_confirmation)
claim_request s c (some r) =
    if not (text_eq r.owner c.owner) || not (text_eq r.action mint_action)
    then ok (s, invalid_confirmation)
    else if not (is_awaiting r.state)
    then ok (s, confirmation_not_active)
    else if leb r.expires_at c.now
    then ok (with_request s c.confirmation_id Defs.State.expired c.now, confirmation_expired)
    else if_available s s.budget c.new_id c.now (λ s'. claimed_with (
        insert_intent (with_request s' c.confirmation_id Defs.State.confirmed c.now)
          (new_intent c.new_id c.wallet c.owner c.key c.payload c.now)))

abbrev pub claim_confirmation :
    Canary → ConfirmationClaim → Option Intent → Result Error (Canary × ClaimStatus)
claim_confirmation s c (some existing) = ok (s, already_claimed)
claim_confirmation s c none = claim_request s c (first_where (has_id c.confirmation_id) s.requests)

unfoldable pub claim_canary_confirmation :
    Canary → ConfirmationClaim → Result Error (Canary × ClaimStatus)
unfolding canary_intent_by_key
claim_canary_confirmation s c = claim_confirmation s c (canary_intent_by_key s c.key)

abbrev pub awaits_simulation : Text → Intent → Bool
awaits_simulation id i = text_eq i.id id && is_previewed i.state

abbrev pub simulated : ℕ → Intent → Intent
simulated at i = record i { state = final_simulation_passed; updated_at = at }

unfoldable pub claim_canary_intent : Canary → Text → ℕ → Canary × Bool
claim_canary_intent s id at =
    if count_where (awaits_simulation id) s.intents == 1
    then (
      log_transition
          (record s { intents = update_where (awaits_simulation id) (simulated at) s.intents }) id
          final_simulation_passed at,
      true,
    )
    else (s, false)

pub record Patch : Type 0 where
  pub approval_hash : Option Text
  pub mint_hash : Option Text
  pub token_id : Option Text
  pub failure_reason : Option Text

abbrev pub patched : IntentState → Patch → ℕ → Intent → Intent
patched st p at i = record i {
  state = st;
  approval_hash = coalesce? p.approval_hash i.approval_hash;
  mint_hash = coalesce? p.mint_hash i.mint_hash;
  token_id = coalesce? p.token_id i.token_id;
  failure_reason = coalesce? p.failure_reason i.failure_reason;
  updated_at = at;
}

-- The foreign key refuses a transition of an intent that is not there.
unfoldable pub transition_canary_intent :
    Canary → Text → IntentState → Patch → ℕ → Result Error Canary
transition_canary_intent s id st p at =
    if any_where (is_intent id) s.intents
    then ok (
        log_transition
          (record s { intents = update_where (is_intent id) (patched st p at) s.intents }) id st at)
    else err constraint_failed
