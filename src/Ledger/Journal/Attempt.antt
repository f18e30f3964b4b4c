-- ===== src/Ledger/Journal/Attempt.antt =====
-- An attempt is bound to the transaction that was prepared for it first.
use funi.Common.{
  ℕ, ◌≡◌, refl, Bool, inl, inr, List, some, arith, text_eq_refl, same_text, ok, err, Option-cases,
  first_where, first-append_new, Tracks-first, ◌&&◌, if◌then◌else◌, ◌==◌,
}
use funi.Ledger.Journal.Defs.{
  Row, Journal, has_attempt, same_attempt_different_transaction, prepared_row, PrepareInput,
  persist_chain_prepared_transaction,
}
use funi.Ledger.Journal.History.{Call, Follows, run, run-Evolves}

abbrev attempt_of : PrepareInput → Row → Bool
attempt_of i = has_attempt i.chain_id i.workflow_identity i.semantic_stage i.attempt

-- The row that a successful call returns is the one found for its attempt afterwards.
persisted_found :
    (db db' : Journal) (i : PrepareInput) (at : ℕ) (r : Row)
    → persist_chain_prepared_transaction db i at ≡ ok (db', r)
    → first_where (attempt_of i) db' ≡ some r
unfolding persist_chain_prepared_transaction
persisted_found db db' i at r h = elim (Option-cases (first_where (attempt_of i) db)) [
  | inr (x, e) ↦ ground arith
  | inl e ↦ ground (
    arith,
    text_eq_refl i.workflow_identity,
    text_eq_refl i.semantic_stage,
    first-append_new (attempt_of i) db (prepared_row i at) e,
  )
]

attempt_follows : (i : PrepareInput) (r r' : Row) → Follows r r' → attempt_of i r' ≡ attempt_of i r
attempt_follows i r r' f = rw (f.same_chain, f.same_workflow, f.same_stage, f.same_attempt) refl

-- Preparing an attempt that is found changes nothing.
found_again :
    (db : Journal) (j : PrepareInput) (later : ℕ) (r : Row)
    → first_where (attempt_of j) db ≡ some r
    → persist_chain_prepared_transaction db j later ≡ (
        if same_text r.expected_hash j.expected_hash && r.nonce == j.nonce
        then ok (db, r)
        else err same_attempt_different_transaction)
unfolding persist_chain_prepared_transaction
found_again db j later r found = rw (found, persist_chain_prepared_transaction) (ground arith)

-- Once an attempt is prepared, then after any history of further calls on the journal, a call for the
-- same chain, workflow, stage and attempt leaves the journal as it is: if its hash and nonce are those
-- that were prepared it returns the row that the attempt has become, which kept them, and it throws
-- otherwise.
pub attempt_is_bound :
    (db db' : Journal) (cs : List (ℕ × Call)) (i j : PrepareInput) (at later : ℕ) (r : Row)
    → persist_chain_prepared_transaction db i at ≡ ok (db', r)
    → j.chain_id ≡ i.chain_id
    → j.workflow_identity ≡ i.workflow_identity
    → j.semantic_stage ≡ i.semantic_stage
    → j.attempt ≡ i.attempt
    → (r' : Row) × Follows r r'
      × (persist_chain_prepared_transaction (run db' cs) j later ≡ (
          if same_text r.expected_hash j.expected_hash && r.nonce == j.nonce
          then ok (run db' cs, r')
          else err same_attempt_different_transaction))
attempt_is_bound db db' cs i j at later r h c w s a =
    let found : first_where (attempt_of j) db' ≡ some r =
      rw (c, w, s, a) (persisted_found db db' i at r h) in
    let (r', found', f) =
      Tracks-first Follows (attempt_of j) (attempt_follows j) db' (run db' cs) r
        (run-Evolves cs db').rows found in
    (r', f, rw (← f.same_hash, ← f.same_nonce) (found_again (run db' cs) j later r' found'))
