-- ===== src/Ledger/Journal/Tests.antt =====
-- The theorems on the journal, applied to one preparation, its submission and its recovery.
use funi.Common.{
  ℕ, true, ◌≡◌, refl, ◌&&◌, ◌==◌, if◌then◌else◌, none, some, [], ◌∷◌, List, text, lower, text_eq,
  same_text, ok, err, arith,
}
use funi.Ledger.Journal.Defs.{
  Source, Target, PrepareInput, TransitionInput, RecoveryInput, RecoveryEvidence, Receipt, Row,
  Journal, prepared_row, found_receipt, persist_chain_prepared_transaction,
  reconcile_durable_chain_transaction, legacy, same_attempt_different_transaction,
}
use funi.Ledger.Journal.Invariant.{IsKeyed}
use funi.Ledger.Journal.History.{
  Call, prepares, transitions, recovers, run, Follows, Evolves, run-Evolves, run-IsKeyed,
}
use funi.Ledger.Journal.Recovery.{recovery_settles, outcome, paid_gas}
use funi.Ledger.Journal.Attempt.{attempt_is_bound}

abbrev mint : PrepareInput
mint = record {
  chain_id = 4663;
  chain_key = text "rh";
  protocol = text "v4";
  journal_id = text "j1";
  wallet = text "0xAB";
  workflow_identity = text "w1";
  semantic_stage = text "mint";
  attempt = 1;
  nonce = 7;
  transaction_type = text "mint";
  expected_hash = text "0xCD";
  to = text "0xEF";
  request_fingerprint = text "f";
  fee_model = legacy;
  projected_gas_native = none;
  projected_gas_usd = none;
}

abbrev replaced : PrepareInput
replaced = record mint { expected_hash = text "0xDD" }

abbrev submits : TransitionInput
submits = record {
  chain_id = 4663;
  journal_id = text "j1";
  source = Source.prepared;
  target = Target.submitted;
  receipt = none;
  provider_evidence = none;
  confirmation_count = none;
  actual_gas_native = none;
  actual_gas_usd = none;
  failure_reason = none;
}

abbrev receipt : Receipt
receipt = record {
  success = true;
  block_number = text "9";
  gas_used = 21;
  effective_gas_price = 10;
  json = text "r";
}

abbrev mined : RecoveryInput
mined = record {
  chain_id = 4663;
  wallet = text "0xab";
  workflow_identity = text "w1";
  semantic_stage = text "mint";
  attempt = 1;
  expected_hash = text "0xcd";
  evidence = found_receipt receipt;
}

abbrev calls : List (ℕ × Call)
calls =
    (1, prepares mint)
    ∷ (2, prepares replaced)
    ∷ (3, transitions submits)
    ∷ (4, recovers mined)
    ∷ []

abbrev one_row : Journal
one_row = prepared_row mint 1 ∷ []

run-Evolves_example : Evolves [] (run [] calls)
run-Evolves_example = run-Evolves calls []

run-IsKeyed_example : IsKeyed (run [] calls)
run-IsKeyed_example = run-IsKeyed calls

one_row-IsKeyed : IsKeyed one_row
one_row-IsKeyed = record {
  id_unique = λ c j. ground arith;
  hash_unique = λ c h. ground arith;
  attempt_unique = λ c w s a. ground arith;
  nonce_unique = λ c w n. ground arith;
}

recovery_settles_example :
    (db' : Journal) × (r' : Row) × (reconcile_durable_chain_transaction one_row mined 5
      ≡ ok (db', some r'))
    × (r'.expected_hash ≡ (prepared_row mint 1).expected_hash)
    × (r'.status ≡ outcome (found_receipt receipt))
    × (r'.actual_gas_native ≡ paid_gas (found_receipt receipt) none)
    × ((later : ℕ) (e : RecoveryEvidence)
        → reconcile_durable_chain_transaction db' (record mined { evidence = e }) later
          ≡ ok (db', some r'))
unfolding text_eq lower
recovery_settles_example =
    recovery_settles one_row mined (prepared_row mint 1) 5 one_row-IsKeyed refl refl refl

abbrev after_preparation : List (ℕ × Call)
after_preparation = (3, transitions submits) ∷ (4, recovers mined) ∷ []

attempt_is_bound_example :
    (r' : Row) × Follows (prepared_row mint 1) r'
    × (persist_chain_prepared_transaction (run one_row after_preparation) replaced 5 ≡ (
        if same_text (lower (text "0xCD")) (text "0xDD") && 7 == 7
        then ok (run one_row after_preparation, r')
        else err same_attempt_different_transaction))
unfolding persist_chain_prepared_transaction
attempt_is_bound_example =
    attempt_is_bound [] one_row after_preparation mint replaced 1 5 (prepared_row mint 1) refl refl
      refl refl refl
