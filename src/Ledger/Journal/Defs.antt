-- ===== src/Ledger/Journal/Defs.antt =====
-- The rows of `chain_transaction_journal` and the methods of the repository on them.
use funi.Common.{
  ℕ, ◌*◌, Bool, true, false, not, ◌&&◌, ◌||◌, Option, none, some, List, [], ◌∷◌, ◌++◌, Text, text,
  lower, text_eq, same_text, ◌==◌, if◌then◌else◌, coalesce, coalesce?, Result, ok, err, ◌>>=◌, ◌>>◌,
  throw_if, count_where, first_where, any_where, update_where,
}

pub data Status : Type 0 where
  prepared submitted confirmed failed : Status

-- The `from` and `to` of a transition, as their TypeScript types bound them.
pub data Source : Type 0 where
  prepared submitted : Source

pub data Target : Type 0 where
  submitted confirmed failed : Target

abbrev pub source_status : Source → Status
source_status Source.prepared = Status.prepared
source_status Source.submitted = Status.submitted

abbrev pub target_status : Target → Status
target_status Target.submitted = Status.submitted
target_status Target.confirmed = Status.confirmed
target_status Target.failed = Status.failed

-- `status IN ('PREPARED','SUBMITTED')`
abbrev pub is_unresolved : Status → Bool
is_unresolved Status.prepared = true
is_unresolved Status.submitted = true
is_unresolved _ = false

-- `status IN ('PREPARED','SUBMITTED','CONFIRMED')`
abbrev pub holds_nonce : Status → Bool
holds_nonce Status.failed = false
holds_nonce _ = true

abbrev pub source_eq : Source → Status → Bool
source_eq Source.prepared Status.prepared = true
source_eq Source.submitted Status.submitted = true
source_eq _ _ = false

pub data FeeModel : Type 0 where
  legacy eip1559 : FeeModel

-- What the code reads of a receipt, and its JSON text.
pub record Receipt : Type 0 where
  pub success : Bool
  pub block_number : Text
  pub gas_used : ℕ
  pub effective_gas_price : ℕ
  pub json : Text

pub data RecoveryKind : Type 0 where
  exact_hash_receipt :
      (transaction_hash : Text) (success : Bool) (block_number : Text) → RecoveryKind
  exact_hash_absent : (latest_nonce pending_nonce : ℕ) → RecoveryKind

pub record Recovered : Type 0 where
  pub kind : RecoveryKind
  pub observed_at : ℕ

-- The JSON of `provider_evidence_json`: text that does not parse, or its other keys and `recovery`.
pub data Evidence : Type 0 where
  malformed : Text → Evidence
  fields : Text → Option Recovered → Evidence

pub record Row : Type 0 where
  pub chain_id : ℕ
  pub chain_key : Text
  pub protocol : Text
  pub journal_id : Text
  pub wallet_address : Text
  pub workflow_identity : Text
  pub semantic_stage : Text
  pub attempt : ℕ
  pub status : Status
  pub nonce : ℕ
  pub transaction_type : Text
  pub expected_hash : Text
  pub to_address : Text
  pub request_fingerprint : Text
  pub fee_model : FeeModel
  pub projected_gas_native : Option ℕ
  pub projected_gas_usd : Option ℕ
  pub actual_gas_native : Option ℕ
  pub actual_gas_usd : Option ℕ
  pub receipt : Option Receipt
  pub provider_evidence : Evidence
  pub confirmation_count : ℕ
  pub failure_reason : Option Text
  pub created_at : ℕ
  pub submitted_at : Option ℕ
  pub confirmed_at : Option ℕ
  pub updated_at : ℕ

abbrev pub Journal : Type 0
Journal = List Row

pub data Error : Type 0 where
  same_attempt_different_transaction : Error
  same_nonce_different_transaction : Error
  constraint_failed : Error
  transition_conflict : Error
  recovery_hash_conflict : Error

-- The WHERE clauses.
abbrev pub has_id : ℕ → Text → Row → Bool
has_id c j r = r.chain_id == c && text_eq r.journal_id j

abbrev pub has_hash : ℕ → Text → Row → Bool
has_hash c h r = r.chain_id == c && same_text r.expected_hash h

abbrev pub has_attempt : ℕ → Text → Text → ℕ → Row → Bool
has_attempt c w s a r =
    r.chain_id == c
    && (text_eq r.workflow_identity w && (text_eq r.semantic_stage s && r.attempt == a))

abbrev pub uses_nonce : ℕ → Text → ℕ → Row → Bool
uses_nonce c w n r =
    r.chain_id == c
    && (text_eq (lower r.wallet_address) w && (r.nonce == n && holds_nonce r.status))

abbrev pub in_status : ℕ → Text → Source → Row → Bool
in_status c j s r = has_id c j r && source_eq s r.status

-- `unresolvedChainTransactions`, for a chain and for one wallet of it.
pub unresolved_chain_transactions : ℕ → Option Text → Journal → ℕ
unresolved_chain_transactions c none db =
    count_where (λ r. r.chain_id == c && is_unresolved r.status) db
unresolved_chain_transactions c (some w) db =
    count_where
      (λ r.
        r.chain_id == c && (text_eq (lower r.wallet_address) (lower w) && is_unresolved r.status))
      db

pub record PrepareInput : Type 0 where
  pub chain_id : ℕ
  pub chain_key : Text
  pub protocol : Text
  pub journal_id : Text
  pub wallet : Text
  pub workflow_identity : Text
  pub semantic_stage : Text
  pub attempt : ℕ
  pub nonce : ℕ
  pub transaction_type : Text
  pub expected_hash : Text
  pub to : Text
  pub request_fingerprint : Text
  pub fee_model : FeeModel
  pub projected_gas_native : Option ℕ
  pub projected_gas_usd : Option ℕ

-- The row that the INSERT writes.
abbrev pub prepared_row : PrepareInput → ℕ → Row
prepared_row i at = record {
  chain_id = i.chain_id;
  chain_key = i.chain_key;
  protocol = i.protocol;
  journal_id = i.journal_id;
  wallet_address = lower i.wallet;
  workflow_identity = i.workflow_identity;
  semantic_stage = i.semantic_stage;
  attempt = i.attempt;
  status = Status.prepared;
  nonce = i.nonce;
  transaction_type = i.transaction_type;
  expected_hash = lower i.expected_hash;
  to_address = lower i.to;
  request_fingerprint = i.request_fingerprint;
  fee_model = i.fee_model;
  projected_gas_native = i.projected_gas_native;
  projected_gas_usd = i.projected_gas_usd;
  actual_gas_native = none;
  actual_gas_usd = none;
  receipt = none;
  provider_evidence = fields [] none;
  confirmation_count = 0;
  failure_reason = none;
  created_at = at;
  submitted_at = none;
  confirmed_at = none;
  updated_at = at;
}

-- The primary key and the two UNIQUE constraints, against a row of the table.
abbrev pub conflicts : Row → Row → Bool
conflicts n r =
    has_id n.chain_id n.journal_id r
    || (has_hash n.chain_id n.expected_hash r
        || has_attempt n.chain_id n.workflow_identity n.semantic_stage n.attempt r)

-- INSERT, which fails as a whole on a constraint.
unfoldable pub insert_row : Row → Journal → Result Error Journal
insert_row n db = if any_where (conflicts n) db then err constraint_failed else ok (db ++ n ∷ [])

-- The second look: the nonce is free, or used by the same transaction.
abbrev pub nonce_clash : Option Row → Text → Bool
nonce_clash none h = false
nonce_clash (some r) h = not (same_text r.expected_hash h)

-- The row read back is the one written, since its key is new.
unfoldable pub prepare_new : Journal → PrepareInput → ℕ → Result Error (Journal × Row)
unfolding insert_row
prepare_new db i at = do
  throw_if
      (nonce_clash (first_where (uses_nonce i.chain_id (lower i.wallet) i.nonce) db)
        i.expected_hash)
      same_nonce_different_transaction
  db' ← insert_row (prepared_row i at) db
  ok (db', prepared_row i at)

-- `persistChainPreparedTransaction`
unfoldable pub persist_chain_prepared_transaction :
    Journal → PrepareInput → ℕ → Result Error (Journal × Row)
unfolding prepare_new
persist_chain_prepared_transaction db i at =
    elim (first_where (has_attempt i.chain_id i.workflow_identity i.semantic_stage i.attempt) db) [
      | some existing ↦
          if not (same_text existing.expected_hash i.expected_hash)
            || not (existing.nonce == i.nonce)
          then err same_attempt_different_transaction
          else ok (db, existing)
      | none ↦ prepare_new db i at
    ]

pub record TransitionInput : Type 0 where
  pub chain_id : ℕ
  pub journal_id : Text
  pub source : Source
  pub target : Target
  pub receipt : Option Receipt
  pub provider_evidence : Option Evidence
  pub confirmation_count : Option ℕ
  pub actual_gas_native : Option ℕ
  pub actual_gas_usd : Option ℕ
  pub failure_reason : Option Text

abbrev pub submitted_at_of : Target → ℕ → Option ℕ
submitted_at_of Target.submitted at = some at
submitted_at_of _ at = none

abbrev pub confirmed_at_of : Target → ℕ → Option ℕ
confirmed_at_of Target.confirmed at = some at
confirmed_at_of _ at = none

-- The SET list of the UPDATE.
abbrev pub transitioned : TransitionInput → ℕ → Row → Row
transitioned i at r = record r {
  status = target_status i.target;
  receipt = coalesce? i.receipt r.receipt;
  provider_evidence = coalesce i.provider_evidence r.provider_evidence;
  confirmation_count = coalesce i.confirmation_count r.confirmation_count;
  actual_gas_native = coalesce? i.actual_gas_native r.actual_gas_native;
  actual_gas_usd = coalesce? i.actual_gas_usd r.actual_gas_usd;
  failure_reason = coalesce? i.failure_reason r.failure_reason;
  submitted_at = coalesce? (submitted_at_of i.target at) r.submitted_at;
  confirmed_at = coalesce? (confirmed_at_of i.target at) r.confirmed_at;
  updated_at = at;
}

-- The row read back; one row has just been updated, so it is there.
abbrev pub row_or_conflict : Option Row → Journal → Result Error (Journal × Row)
row_or_conflict none db = err transition_conflict
row_or_conflict (some r) db = ok (db, r)

-- `transitionChainTransaction`: the UPDATE, its count of changes, and the row read back.
unfoldable pub transition_chain_transaction :
    Journal → TransitionInput → ℕ → Result Error (Journal × Row)
transition_chain_transaction db i at =
    if count_where (in_status i.chain_id i.journal_id i.source) db == 1
    then (let db' =
          update_where (in_status i.chain_id i.journal_id i.source) (transitioned i at) db in
        row_or_conflict (first_where (has_id i.chain_id i.journal_id) db') db')
    else err transition_conflict

-- `reconcileDurableChainTransaction`'s evidence.
pub data RecoveryEvidence : Type 0 where
  found_receipt : Receipt → RecoveryEvidence
  nonce_unavailable : (latest_nonce pending_nonce : ℕ) → RecoveryEvidence

pub record RecoveryInput : Type 0 where
  pub chain_id : ℕ
  pub wallet : Text
  pub workflow_identity : Text
  pub semantic_stage : Text
  pub attempt : ℕ
  pub expected_hash : Text
  pub evidence : RecoveryEvidence

abbrev recovery_kind : Text → RecoveryEvidence → RecoveryKind
recovery_kind h (found_receipt r) = exact_hash_receipt (lower h) r.success r.block_number
recovery_kind h (nonce_unavailable l p) = exact_hash_absent l p

-- `{ ...prior, recovery }`, where a column that does not parse counts as `{}`.
abbrev with_recovery : Evidence → Recovered → Evidence
with_recovery (malformed t) r = fields [] (some r)
with_recovery (fields t old) r = fields t (some r)

abbrev pub recovery_evidence : RecoveryInput → Row → ℕ → Evidence
recovery_evidence i r at =
    with_recovery r.provider_evidence
      (record { kind = recovery_kind i.expected_hash i.evidence; observed_at = at })

abbrev step_to : RecoveryInput → Row → Source → Target → ℕ → TransitionInput
step_to i r s t at = record {
  chain_id = i.chain_id;
  journal_id = r.journal_id;
  source = s;
  target = t;
  receipt = none;
  provider_evidence = some (recovery_evidence i r at);
  confirmation_count = none;
  actual_gas_native = none;
  actual_gas_usd = none;
  failure_reason = none;
}

-- The last transition, from SUBMITTED on a receipt.
abbrev pub receipt_transition : RecoveryInput → Row → Receipt → ℕ → TransitionInput
receipt_transition i r receipt at = record (step_to i r Source.submitted Target.failed at) {
  target = if receipt.success then Target.confirmed else Target.failed;
  receipt = some receipt;
  confirmation_count = some 1;
  actual_gas_native = some (receipt.gas_used * receipt.effective_gas_price);
  failure_reason = if receipt.success then none else some (text "TRANSACTION_REVERTED");
}

abbrev pub absent_transition : RecoveryInput → Row → Source → ℕ → TransitionInput
absent_transition i r s at = record (step_to i r s Target.failed at) {
  failure_reason = some (text "NONCE_NO_LONGER_AVAILABLE");
}

abbrev pub submit_transition : RecoveryInput → Row → ℕ → TransitionInput
submit_transition i r at = step_to i r Source.prepared Target.submitted at

-- The transition from SUBMITTED, on the row that the first one returned.
abbrev pub finish_on_receipt :
    RecoveryInput → Row → Receipt → ℕ → Journal × Row → Result Error (Journal × Row)
finish_on_receipt i r receipt at (db, r') =
    transition_chain_transaction db
      (record (receipt_transition i r receipt at) { journal_id = r'.journal_id }) at

-- By the evidence and the status of the row: a prepared row is submitted first.
unfoldable pub resolve_row :
    Journal → RecoveryInput → Row → RecoveryEvidence → Source → ℕ → Result Error (Journal × Row)
resolve_row db i r (nonce_unavailable l p) s at =
    transition_chain_transaction db (absent_transition i r s at) at
resolve_row db i r (found_receipt receipt) Source.prepared at =
    transition_chain_transaction db (submit_transition i r at) at
    >>= finish_on_receipt i r receipt at
resolve_row db i r (found_receipt receipt) Source.submitted at =
    transition_chain_transaction db (receipt_transition i r receipt at) at

abbrev pub of_wallet_attempt : RecoveryInput → Row → Bool
of_wallet_attempt i r =
    text_eq (lower r.wallet_address) (lower i.wallet)
    && has_attempt i.chain_id i.workflow_identity i.semantic_stage i.attempt r

abbrev pub some_row : Journal × Row → Result Error (Journal × Option Row)
some_row (db, r) = ok (db, some r)

-- Terminal rows are returned as they are.
unfoldable pub recover_row :
    Journal → RecoveryInput → Row → Status → ℕ → Result Error (Journal × Option Row)
unfolding resolve_row
recover_row db i r Status.confirmed at = ok (db, some r)
recover_row db i r Status.failed at = ok (db, some r)
recover_row db i r Status.prepared at =
    resolve_row db i r i.evidence Source.prepared at >>= some_row
recover_row db i r Status.submitted at =
    resolve_row db i r i.evidence Source.submitted at >>= some_row

-- `reconcileDurableChainTransaction`
unfoldable pub reconcile_durable_chain_transaction :
    Journal → RecoveryInput → ℕ → Result Error (Journal × Option Row)
unfolding recover_row
reconcile_durable_chain_transaction db i at = elim (first_where (of_wallet_attempt i) db) [
  | none ↦ ok (db, none)
  | some r ↦
      if not (same_text r.expected_hash i.expected_hash)
      then err recovery_hash_conflict
      else recover_row db i r r.status at
]
