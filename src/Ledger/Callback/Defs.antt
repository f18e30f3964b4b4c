-- ===== src/Ledger/Callback/Defs.antt =====
-- `authorizeChainCallback` and `consumeChainCallback`.
use funi.Common.{
  ℕ, Bool, ◌&&◌, ◌||◌, Option, none, some, List, [], ◌∷◌, ◌++◌, Text, lower, text_eq, ltb, leb,
  ◌==◌, if◌then◌else◌, coalesce, is_none, Result, ok, err, count_where, any_where, update_where,
}

-- What an authorization is bound to, as a call states it.
pub record Claim : Type 0 where
  pub user_id : Text
  pub chat_id : Text
  pub chain_id : ℕ
  pub protocol : Text
  pub workflow_or_position_id : Text
  pub action : Text
  pub preview_revision : ℕ
  pub deployment_version : Option ℕ
  pub wallet_address : Option Text
  pub exposure_revision : Option Text
  pub fee_evidence_revision : Option Text

-- The same as stored, with the defaults put in.
pub record Binding : Type 0 where
  pub user_id : Text
  pub chat_id : Text
  pub chain_id : ℕ
  pub protocol : Text
  pub workflow_or_position_id : Text
  pub action : Text
  pub preview_revision : ℕ
  pub deployment_version : ℕ
  pub wallet_address : Text
  pub exposure_revision : Text
  pub fee_evidence_revision : Text

abbrev lower? : Option Text → Text
lower? none = []
lower? (some w) = lower w

unfoldable pub binding_of : Claim → Binding
binding_of c = record {
  user_id = c.user_id;
  chat_id = c.chat_id;
  chain_id = c.chain_id;
  protocol = c.protocol;
  workflow_or_position_id = c.workflow_or_position_id;
  action = c.action;
  preview_revision = c.preview_revision;
  deployment_version = coalesce c.deployment_version 1;
  wallet_address = lower? c.wallet_address;
  exposure_revision = coalesce c.exposure_revision [];
  fee_evidence_revision = coalesce c.fee_evidence_revision [];
}

-- The eleven equations of the WHERE clause.
unfoldable pub binding_eq : Binding → Binding → Bool
binding_eq a b =
    text_eq a.user_id b.user_id
    && (text_eq a.chat_id b.chat_id
        && (a.chain_id == b.chain_id
            && (text_eq a.protocol b.protocol
                && (text_eq a.workflow_or_position_id b.workflow_or_position_id
                    && (text_eq a.action b.action
                        && (a.preview_revision == b.preview_revision
                            && (a.deployment_version == b.deployment_version
                                && (text_eq a.wallet_address b.wallet_address
                                    && (text_eq a.exposure_revision b.exposure_revision
                                        && text_eq a.fee_evidence_revision
                                            b.fee_evidence_revision)))))))))

pub record Authorization : Type 0 where
  pub authorization_id : Text
  pub bound : Binding
  pub expires_at_ms : ℕ
  pub consumed_at_ms : Option ℕ
  pub idempotency_key : Text
  pub created_at_ms : ℕ

abbrev pub Authorizations : Type 0
Authorizations = List Authorization

pub data Error : Type 0 where
  already_expired constraint_failed invalid_stale_or_replayed : Error

abbrev pub has_id : Text → Authorization → Bool
has_id id a = text_eq a.authorization_id id

-- `authorizeChainCallback`
unfoldable pub authorize_chain_callback :
    Authorizations → Text → Claim → ℕ → Text → ℕ → Result Error Authorizations
authorize_chain_callback db id c expires_at_ms key now =
    if leb expires_at_ms now
    then err already_expired
    else (if any_where (λ a. has_id id a || text_eq a.idempotency_key key) db
        then err constraint_failed
        else ok (
            db
            ++ record {
              authorization_id = id;
              bound = binding_of c;
              expires_at_ms = expires_at_ms;
              consumed_at_ms = none;
              idempotency_key = key;
              created_at_ms = now;
            }
              ∷ []))

-- The WHERE clause of the consuming UPDATE.
abbrev pub usable : Text → Claim → ℕ → Authorization → Bool
usable id c now a =
    has_id id a
    && (binding_eq a.bound (binding_of c) && (is_none a.consumed_at_ms && ltb now a.expires_at_ms))

abbrev pub consumed : ℕ → Authorization → Authorization
consumed now a = record a { consumed_at_ms = some now }

-- `consumeChainCallback`, which returns true or throws.
unfoldable pub consume_chain_callback :
    Authorizations → Text → Claim → ℕ → Result Error Authorizations
consume_chain_callback db id c now =
    if count_where (usable id c now) db == 1
    then ok (update_where (usable id c now) (consumed now) db)
    else err invalid_stale_or_replayed
