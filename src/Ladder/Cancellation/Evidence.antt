-- ===== src/Ladder/Cancellation/Evidence.antt =====
-- The tables that may name a ladder, and the references to it in their JSON columns.
use funi.Common.{
  ℕ, Bool, true, false, ◌&&◌, ◌||◌, Option, none, some, List, [], ◌∷◌, Text, text_eq, ◌==◌,
}

mutual
  -- What `visit` tells apart in a parsed value; an object is the list of its values.
  pub data Json : Type 0 where
    string : Text → Json
    scalar : Json
    array : Items → Json
    object : Items → Json

  pub data Items : Type 0 where
    nil : Items
    cons : Json → Items → Items

unfoldable mutual
  pub visits : Text → Json → Bool
  visits id (string t) = text_eq t id
  visits id scalar = false
  visits id (array xs) = visits_any id xs
  visits id (object xs) = visits_any id xs

  pub visits_any : Text → Items → Bool
  visits_any id nil = false
  visits_any id (cons j js) = visits id j || visits_any id js

abbrev pub starts_with : Text → Text → Bool
starts_with [] t = true
starts_with (c ∷ s) [] = false
starts_with (c ∷ s) (d ∷ t) = (c == d) && starts_with s t

-- `t.includes(s)`, and `instr(t, s) > 0`.
unfoldable pub includes : Text → Text → Bool
includes s [] = starts_with s []
includes s (c ∷ t) = starts_with s (c ∷ t) || includes s t

pub record Reference : Type 0 where
  pub exact : Bool
  pub ambiguous : Bool

-- A row with an id, an idempotency key and a JSON payload.
pub record Keyed : Type 0 where
  pub id : Text
  pub idempotency_key : Option Text
  pub payload_json : Option Text
  pub state : Text

pub record OpenIntent : Type 0 where
  pub keyed : Keyed
  pub erc20_approval_hash : Option Text
  pub permit2_approval_hash : Option Text
  pub mint_hash : Option Text
  pub token_id : Option Text

pub record Linked : Type 0 where
  pub intent_id : Option Text
  pub json : Option Text

pub record LifecycleIntent : Type 0 where
  pub id : Text
  pub token_id : Text
  pub state : Text
  pub tx_hash : Option Text

pub record Journal : Type 0 where
  pub workflow_identity : Text
  pub status : Text

pub record Exposure : Type 0 where
  pub workflow_id : Text
  pub released_at : Option Text

pub record Session : Type 0 where
  pub state_json : Text
  pub status : Text
  pub expires_at_ms : ℕ

pub record Callback : Type 0 where
  pub workflow_or_position_id : Text
  pub consumed_at_ms : Option ℕ
  pub expires_at_ms : ℕ

pub record Confirmation : Type 0 where
  pub keyed : Keyed
  pub expires_at : Option Text

pub record Evidence : Type 0 where
  pub journal : List Journal
  pub transaction_intents : List Keyed
  pub transaction_receipts : List Linked
  pub open_intents : List OpenIntent
  pub gas_intents : List Text
  pub open_receipt_intents : List Text
  pub v4_positions : List Linked
  pub position_tokens : List Text
  pub lifecycle_intents : List LifecycleIntent
  pub lifecycle_receipt_intents : List Text
  pub exposures : List Exposure
  pub sessions : List Session
  pub callbacks : List Callback
  pub confirmations : List Confirmation
  pub nonce_mutex_expiries : List (Option Text)
  pub chain_nonce_mutex_expiries : List (Option Text)

abbrev pub in_column : Text → Option Text → Bool
in_column id none = false
in_column id (some t) = includes id t

module _ (parse : Text → Option Json) where
  abbrev pub reference_in : Text → Text → Option Json → Reference
  reference_in id t (some j) = record { exact = visits id j; ambiguous = false }
  reference_in id t none = record { exact = false; ambiguous = includes id t }

  -- NULL is read as the JSON `null`.
  abbrev pub exact_json_reference : Option Text → Text → Reference
  exact_json_reference none id = record { exact = false; ambiguous = false }
  exact_json_reference (some t) id = reference_in id t (parse t)

  abbrev pub may_refer : Text → Option Text → Bool
  may_refer id column =
      (exact_json_reference column id).exact || (exact_json_reference column id).ambiguous

  -- `referencedRows` on a keyed row: the SQL filter, then the references.
  unfoldable pub keyed_refers : Text → Keyed → Bool
  keyed_refers id k =
      (text_eq k.id id || (in_column id k.idempotency_key || in_column id k.payload_json))
      && (may_refer id (some k.id)
          || (may_refer id k.idempotency_key || may_refer id k.payload_json))

  abbrev pub column_is : Text → Option Text → Bool
  column_is id none = false
  column_is id (some t) = text_eq t id

  unfoldable pub linked_refers : Text → Linked → Bool
  linked_refers id l =
      (column_is id l.intent_id || in_column id l.json)
      && (may_refer id l.intent_id || may_refer id l.json)
