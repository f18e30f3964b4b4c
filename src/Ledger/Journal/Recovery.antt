-- ===== src/Ledger/Journal/Recovery.antt =====
-- What recovery returns: a transition of a row that is there succeeds, and recovery settles an
-- unresolved row once and for all.
use funi.Common.{
  ℕ, ◌*◌, ◌≡◌, refl, ◌∙◌, Bool, true, false, Option, some, arith, text_eq_refl, same_text, ok,
  count_where, first_where, update_where, first-update, first_unique, first_where-true,
  count_of_first, count-imp_le, if◌then◌else◌, ◌==◌,
}
use funi.Ledger.Journal.Defs.{
  Status, Source, Target, is_unresolved, source_eq, target_status, Row, Journal, Receipt, has_id,
  in_status, TransitionInput, transitioned, transition_chain_transaction, RecoveryInput,
  RecoveryEvidence, found_receipt, nonce_unavailable, reconcile_durable_chain_transaction,
  recover_row, resolve_row, of_wallet_attempt, submit_transition, receipt_transition,
  absent_transition,
}
use funi.Ledger.Journal.Invariant.{IsKeyed, update-IsKeyed}

abbrev advance : Journal → TransitionInput → ℕ → Journal
advance db i at = update_where (in_status i.chain_id i.journal_id i.source) (transitioned i at) db

module _ (p : Row → Bool) (i : TransitionInput) (at : ℕ) (db : Journal) (r : Row) (v : IsKeyed db)
    (found : first_where p db ≡ some r) (named : has_id i.chain_id i.journal_id r ≡ true)
    (from : source_eq i.source r.status ≡ true) where
  in_source : in_status i.chain_id i.journal_id i.source r ≡ true
  in_source = ground arith

  one_change : (count_where (in_status i.chain_id i.journal_id i.source) db == 1) ≡ true
  one_change = ground (
    arith,
    in_source,
    v.id_unique i.chain_id i.journal_id,
    count_of_first p (in_status i.chain_id i.journal_id i.source) db {x = r} found in_source,
    count-imp_le (in_status i.chain_id i.journal_id i.source) (has_id i.chain_id i.journal_id) db
        (λ x h. ground arith),
  )

  -- By any key that a transition leaves alone, the row is found again, advanced.
  found_after :
      (q : Row → Bool)
      → ((x : Row) → q (transitioned i at x) ≡ q x)
      → first_where q db ≡ some r
      → first_where q (advance db i at) ≡ some (transitioned i at r)
  found_after q key h =
      first-update q (in_status i.chain_id i.journal_id i.source) (transitioned i at) db key
      ∙ rw h (rw in_source)

  read_back :
      first_where (has_id i.chain_id i.journal_id) (advance db i at) ≡ some (transitioned i at r)
  read_back =
      found_after (has_id i.chain_id i.journal_id) (λ x. refl)
        (first_unique p (has_id i.chain_id i.journal_id) db (v.id_unique i.chain_id i.journal_id)
          found named)

  transition_succeeds :
      transition_chain_transaction db i at ≡ ok (advance db i at, transitioned i at r)
  unfolding transition_chain_transaction
  transition_succeeds = rw one_change (rw read_back refl)

-- The status that recovery settles on: a receipt decides, and a spent nonce is a failure.
abbrev pub outcome : RecoveryEvidence → Status
outcome (found_receipt r) = if r.success then Status.confirmed else Status.failed
outcome (nonce_unavailable l p) = Status.failed

abbrev pub paid_gas : RecoveryEvidence → Option ℕ → Option ℕ
paid_gas (found_receipt r) old = some (r.gas_used * r.effective_gas_price)
paid_gas (nonce_unavailable l p) old = old

-- What a successful recovery leaves: the row, advanced, where the same call finds it.
record Settled (i : RecoveryInput) (r : Row) (e : RecoveryEvidence) (db' : Journal) (r' : Row)
    : Type 0 where
  settled_found : first_where (of_wallet_attempt i) db' ≡ some r'
  settled_hash : r'.expected_hash ≡ r.expected_hash
  settled_status : r'.status ≡ outcome e
  settled_gas : r'.actual_gas_native ≡ paid_gas e r.actual_gas_native

module _ (i : RecoveryInput) (r : Row) (at : ℕ) (db : Journal) (v : IsKeyed db)
    (found : first_where (of_wallet_attempt i) db ≡ some r)
    (chain : has_id i.chain_id r.journal_id r ≡ true) where
  absent_settles :
      (s : Source) (l p : ℕ)
      → source_eq s r.status ≡ true
      → (db' : Journal) × (r' : Row) × (resolve_row db i r (nonce_unavailable l p) s at
          ≡ ok (db', r'))
        × Settled i r (nonce_unavailable l p) db' r'
  unfolding resolve_row
  absent_settles s l p h = (
    advance db (absent_transition i r s at) at,
    transitioned (absent_transition i r s at) at r,
    transition_succeeds (of_wallet_attempt i) (absent_transition i r s at) at db r v found chain h,
    record {
      settled_found =
          found_after (of_wallet_attempt i) (absent_transition i r s at) at db r v found chain h
            (of_wallet_attempt i) (λ x. refl) found;
      settled_hash = refl;
      settled_status = refl;
      settled_gas = refl;
    },
  )

  target_outcome :
      (t : Receipt)
      → target_status (if t.success then Target.confirmed else Target.failed)
        ≡ (if t.success then Status.confirmed else Status.failed)
  target_outcome t = ground arith

  submitted_settles :
      (t : Receipt)
      → source_eq Source.submitted r.status ≡ true
      → (db' : Journal) × (r' : Row) × (resolve_row db i r (found_receipt t) Source.submitted at
          ≡ ok (db', r'))
        × Settled i r (found_receipt t) db' r'
  unfolding resolve_row
  submitted_settles t h = (
    advance db (receipt_transition i r t at) at,
    transitioned (receipt_transition i r t at) at r,
    transition_succeeds (of_wallet_attempt i) (receipt_transition i r t at) at db r v found chain h,
    record {
      settled_found =
          found_after (of_wallet_attempt i) (receipt_transition i r t at) at db r v found chain h
            (of_wallet_attempt i) (λ x. refl) found;
      settled_hash = refl;
      settled_status = target_outcome t;
      settled_gas = refl;
    },
  )

  -- A prepared row is submitted first; the second transition is of the row that this leaves.
  prepared_settles :
      (t : Receipt)
      → source_eq Source.prepared r.status ≡ true
      → (db' : Journal) × (r' : Row) × (resolve_row db i r (found_receipt t) Source.prepared at
          ≡ ok (db', r'))
        × Settled i r (found_receipt t) db' r'
  unfolding resolve_row
  prepared_settles t h =
      let first : TransitionInput = submit_transition i r at in
      let last : TransitionInput = receipt_transition i r t at in
      let db₁ = advance db first at in
      let r₁ = transitioned first at r in
      let v₁ = update-IsKeyed db first at v in
      let found₁ : first_where (of_wallet_attempt i) db₁ ≡ some r₁ =
        found_after (of_wallet_attempt i) first at db r v found chain h (of_wallet_attempt i)
          (λ x. refl) found in
      (
        advance db₁ last at,
        transitioned last at r₁,
        rw (transition_succeeds (of_wallet_attempt i) first at db r v found chain h)
            (transition_succeeds (of_wallet_attempt i) last at db₁ r₁ v₁ found₁ chain refl),
        record {
          settled_found =
              found_after (of_wallet_attempt i) last at db₁ r₁ v₁ found₁ chain refl
                (of_wallet_attempt i) (λ x. refl) found₁;
          settled_hash = refl;
          settled_status = target_outcome t;
          settled_gas = refl;
        },
      )

  resolve_settles :
      (s : Source) (e : RecoveryEvidence)
      → source_eq s r.status ≡ true
      → (db' : Journal) × (r' : Row) × (resolve_row db i r e s at ≡ ok (db', r'))
        × Settled i r e db' r'
  resolve_settles s (nonce_unavailable l p) h = absent_settles s l p h
  resolve_settles Source.prepared (found_receipt t) h = prepared_settles t h
  resolve_settles Source.submitted (found_receipt t) h = submitted_settles t h

  recover_settles :
      (s : Status)
      → s ≡ r.status
      → is_unresolved s ≡ true
      → (db' : Journal) × (r' : Row) × (recover_row db i r s at ≡ ok (db', some r'))
        × Settled i r i.evidence db' r'
  unfolding recover_row
  recover_settles Status.prepared e u =
      let (db', r', done, settled) = resolve_settles Source.prepared i.evidence (rw (← e)) in
      (db', r', rw done, settled)
  recover_settles Status.submitted e u =
      let (db', r', done, settled) = resolve_settles Source.submitted i.evidence (rw (← e)) in
      (db', r', rw done, settled)
  recover_settles Status.confirmed e u = cc
  recover_settles Status.failed e u = cc

-- A terminal row is returned as it is, whatever the evidence.
settled_again :
    (db : Journal) (i : RecoveryInput) (r : Row) (at : ℕ)
    → first_where (of_wallet_attempt i) db ≡ some r
    → same_text r.expected_hash i.expected_hash ≡ true
    → is_unresolved r.status ≡ false
    → reconcile_durable_chain_transaction db i at ≡ ok (db, some r)
unfolding reconcile_durable_chain_transaction
settled_again db i r at found same h =
    rw (found, reconcile_durable_chain_transaction) (rw same (terminal r.status h))
  where
    terminal : (s : Status) → is_unresolved s ≡ false → recover_row db i r s at ≡ ok (db, some r)
    terminal Status.prepared h = cc
    terminal Status.submitted h = cc
    terminal Status.confirmed h = refl
    terminal Status.failed h = refl

outcome_terminal : (e : RecoveryEvidence) → is_unresolved (outcome e) ≡ false
outcome_terminal (found_receipt t) = ground arith
outcome_terminal (nonce_unavailable l p) = refl

-- In a keyed journal, recovery of an unresolved row whose hash is the expected one succeeds: the row
-- it returns keeps its hash and is CONFIRMED on a successful receipt and FAILED on any other
-- evidence, with the gas that a receipt reports; and recovering the same attempt again on the journal that it
-- leaves, on any evidence, returns that row and changes nothing.
pub recovery_settles :
    (db : Journal) (i : RecoveryInput) (r : Row) (at : ℕ)
    → IsKeyed db
    → first_where (of_wallet_attempt i) db ≡ some r
    → same_text r.expected_hash i.expected_hash ≡ true
    → is_unresolved r.status ≡ true
    → (db' : Journal) × (r' : Row) × (reconcile_durable_chain_transaction db i at
        ≡ ok (db', some r'))
      × (r'.expected_hash ≡ r.expected_hash)
      × (r'.status ≡ outcome i.evidence)
      × (r'.actual_gas_native ≡ paid_gas i.evidence r.actual_gas_native)
      × ((later : ℕ) (e : RecoveryEvidence)
          → reconcile_durable_chain_transaction db' (record i { evidence = e }) later
            ≡ ok (db', some r'))
unfolding reconcile_durable_chain_transaction
recovery_settles db i r at v found same u =
    let chain : has_id i.chain_id r.journal_id r ≡ true =
      ground (
        arith,
        text_eq_refl r.journal_id,
        first_where-true (of_wallet_attempt i) db {x = r} found,
      ) in
    let (db', r', done, settled) = recover_settles i r at db v found chain r.status refl u in
    (
      db',
      r',
      rw (found, reconcile_durable_chain_transaction) (rw same done),
      settled.settled_hash,
      settled.settled_status,
      settled.settled_gas,
      λ later e.
          settled_again db' (record i { evidence = e }) r' later settled.settled_found
            (rw settled.settled_hash same)
            (rw settled.settled_status (outcome_terminal i.evidence)),
    )
