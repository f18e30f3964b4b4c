-- ===== src/Ledger/Journal/History.antt =====
-- What a row of the journal can turn into: along any history of calls it stays in its place, keeps
-- the transaction that it is about, moves forward only, and is final once it is terminal.
use funi.Common.{
  ℕ, ◌≤◌, ◌≡◌, refl, ◌∙◌, Bool, true, false, inl, inr, Option, none, some, List, [], ◌∷◌, ◌++◌, ◌⊎◌,
  arith, Result, ok, err, after, ◌>>=◌, Bool-cases, Option-cases, count_where, first_where, Tracks,
  Tracks-refl, Tracks-append, Tracks-update, Tracks-trans, if◌then◌else◌, ◌==◌, not, same_text,
}
use funi.Ledger.Journal.Defs.{
  Status, Source, is_unresolved, target_status, Row, Journal, Error, in_status, prepared_row,
  PrepareInput, persist_chain_prepared_transaction, TransitionInput, transitioned,
  transition_chain_transaction, row_or_conflict, RecoveryInput, RecoveryEvidence, found_receipt,
  nonce_unavailable, recovery_hash_conflict, reconcile_durable_chain_transaction, recover_row,
  resolve_row, of_wallet_attempt, submit_transition, receipt_transition, absent_transition,
  finish_on_receipt, some_row,
}
use funi.Ledger.Journal.Invariant.{IsKeyed, empty-IsKeyed, persist-IsKeyed, update-IsKeyed}

abbrev pub rank : Status → ℕ
rank Status.prepared = 0
rank Status.submitted = 1
rank _ = 2

pub record Follows (r r' : Row) : Type 0 where
  pub same_chain : r'.chain_id ≡ r.chain_id
  pub same_wallet : r'.wallet_address ≡ r.wallet_address
  pub same_nonce : r'.nonce ≡ r.nonce
  pub same_hash : r'.expected_hash ≡ r.expected_hash
  pub same_workflow : r'.workflow_identity ≡ r.workflow_identity
  pub same_stage : r'.semantic_stage ≡ r.semantic_stage
  pub same_attempt : r'.attempt ≡ r.attempt
  pub forward : rank r.status ≤ rank r'.status
  pub final : is_unresolved r.status ≡ false → r' ≡ r

Follows-refl : (r : Row) → Follows r r
Follows-refl r = record {
  same_chain = refl;
  same_wallet = refl;
  same_nonce = refl;
  same_hash = refl;
  same_workflow = refl;
  same_stage = refl;
  same_attempt = refl;
  forward = omega arith;
  final = λ _. refl;
}

Follows-trans : (r s t : Row) → Follows r s → Follows s t → Follows r t
Follows-trans r s t f g = record {
  same_chain = g.same_chain ∙ f.same_chain;
  same_wallet = g.same_wallet ∙ f.same_wallet;
  same_nonce = g.same_nonce ∙ f.same_nonce;
  same_hash = g.same_hash ∙ f.same_hash;
  same_workflow = g.same_workflow ∙ f.same_workflow;
  same_stage = g.same_stage ∙ f.same_stage;
  same_attempt = g.same_attempt ∙ f.same_attempt;
  forward = omega arith;
  final = λ h. g.final (rw (f.final h) h) ∙ f.final h;
}

-- The source of a transition is unresolved, and its target is no earlier.
source_before_target :
    (i : TransitionInput) (at : ℕ) (r : Row)
    → in_status i.chain_id i.journal_id i.source r ≡ true
    → (rank r.status ≤ rank (target_status i.target)) × (is_unresolved r.status ≡ true)
source_before_target i at r h = ground arith

Follows-transitioned :
    (i : TransitionInput) (at : ℕ) (r : Row)
    → in_status i.chain_id i.journal_id i.source r ≡ true
    → Follows r (transitioned i at r)
Follows-transitioned i at r e = record {
  same_chain = refl;
  same_wallet = refl;
  same_nonce = refl;
  same_hash = refl;
  same_workflow = refl;
  same_stage = refl;
  same_attempt = refl;
  forward = (source_before_target i at r e).0;
  final = λ h. ground (arith, source_before_target i at r e);
}

-- What one call may do to the journal.
pub record Evolves (db db' : Journal) : Type 0 where
  pub keyed : IsKeyed db → IsKeyed db'
  pub rows : Tracks Follows db db'

pub Evolves-refl : (db : Journal) → Evolves db db
Evolves-refl db = record { keyed = λ v. v; rows = Tracks-refl Follows Follows-refl db }

pub Evolves-trans : (a b c : Journal) → Evolves a b → Evolves b c → Evolves a c
Evolves-trans a b c e f = record {
  keyed = λ v. f.keyed (e.keyed v);
  rows = Tracks-trans Follows Follows-trans a b c e.rows f.rows;
}

-- A transition advances rows in place.
read_back_rows :
    (o : Option Row) (db db' : Journal)
    → Evolves db db'
    → Evolves db (after db (row_or_conflict o db'))
read_back_rows none db db' e = Evolves-refl db
read_back_rows (some r) db db' e = e

pub transition-Evolves :
    (db : Journal) (i : TransitionInput) (at : ℕ)
    → Evolves db (after db (transition_chain_transaction db i at))
unfolding transition_chain_transaction
transition-Evolves db i at =
    elim (Bool-cases (count_where (in_status i.chain_id i.journal_id i.source) db == 1)) [
      | inr e ↦ rw e (Evolves-refl db)
      | inl e ↦ rw e (
          read_back_rows _ db _ (record {
            keyed = update-IsKeyed db i at;
            rows =
                Tracks-update Follows Follows-refl (in_status i.chain_id i.journal_id i.source)
                  (transitioned i at) db (Follows-transitioned i at);
          }))
    ]

-- Preparing a transaction adds its row at the end, or changes nothing.
persist_grows :
    (db : Journal) (i : PrepareInput) (at : ℕ)
    → (after db (persist_chain_prepared_transaction db i at) ≡ db)
      ⊎ (after db (persist_chain_prepared_transaction db i at) ≡ db ++ prepared_row i at ∷ [])
unfolding persist_chain_prepared_transaction
persist_grows db i at = ground arith

pub persist-Evolves :
    (db : Journal) (i : PrepareInput) (at : ℕ)
    → Evolves db (after db (persist_chain_prepared_transaction db i at))
persist-Evolves db i at = record {
  keyed = persist-IsKeyed i at db;
  rows = elim (persist_grows db i at) [
    | inl e ↦ rw e (Tracks-refl Follows Follows-refl db)
    | inr e ↦ rw e (Tracks-append Follows Follows-refl db (prepared_row i at ∷ []))
  ];
}

-- Of a chain of two transitions, the second acts on what the first leaves.
bind-Evolves :
    {A B : Type 0} (db : Journal) (m : Result Error (Journal × A))
    (f : Journal × A → Result Error (Journal × B))
    → Evolves db (after db m)
    → ((db' : Journal) (a : A) → Evolves db' (after db' (f (db', a))))
    → Evolves db (after db (m >>= f))
bind-Evolves db (err e) f first rest = first
bind-Evolves {B = B} db (ok (db', a)) f first rest = settle (f (db', a)) (rest db' a)
  where
    settle : (r : Result Error (Journal × B)) → Evolves db' (after db' r) → Evolves db (after db r)
    settle (ok (c, b)) e = Evolves-trans db db' c first e
    settle (err e) _ = Evolves-refl db

resolve-Evolves :
    (db : Journal) (i : RecoveryInput) (r : Row) (e : RecoveryEvidence) (s : Source) (at : ℕ)
    → Evolves db (after db (resolve_row db i r e s at))
unfolding resolve_row
resolve-Evolves db i r (nonce_unavailable l p) s at =
    transition-Evolves db (absent_transition i r s at) at
resolve-Evolves db i r (found_receipt receipt) Source.submitted at =
    transition-Evolves db (receipt_transition i r receipt at) at
resolve-Evolves db i r (found_receipt receipt) Source.prepared at =
    bind-Evolves db (transition_chain_transaction db (submit_transition i r at) at)
      (finish_on_receipt i r receipt at) (transition-Evolves db (submit_transition i r at) at)
      (λ db' r'.
        transition-Evolves db'
          (record (receipt_transition i r receipt at) { journal_id = r'.journal_id }) at)

recover-Evolves :
    (db : Journal) (i : RecoveryInput) (r : Row) (s : Status) (at : ℕ)
    → Evolves db (after db (recover_row db i r s at))
unfolding recover_row
recover-Evolves db i r Status.confirmed at = Evolves-refl db
recover-Evolves db i r Status.failed at = Evolves-refl db
recover-Evolves db i r Status.prepared at =
    bind-Evolves db (resolve_row db i r i.evidence Source.prepared at) some_row
      (resolve-Evolves db i r i.evidence Source.prepared at) (λ db' r'. Evolves-refl db')
recover-Evolves db i r Status.submitted at =
    bind-Evolves db (resolve_row db i r i.evidence Source.submitted at) some_row
      (resolve-Evolves db i r i.evidence Source.submitted at) (λ db' r'. Evolves-refl db')

guarded-Evolves :
    {A : Type 0} (b : Bool) (db : Journal) (e : Error) (m : Result Error (Journal × A))
    → Evolves db (after db m)
    → Evolves db (after db (if b then err e else m))
guarded-Evolves true db e m h = Evolves-refl db
guarded-Evolves false db e m h = h

pub reconcile-Evolves :
    (db : Journal) (i : RecoveryInput) (at : ℕ)
    → Evolves db (after db (reconcile_durable_chain_transaction db i at))
unfolding reconcile_durable_chain_transaction
reconcile-Evolves db i at = elim (Option-cases (first_where (of_wallet_attempt i) db)) [
  | inl e ↦ rw (e, reconcile_durable_chain_transaction) (Evolves-refl db)
  | inr (r, e) ↦
      rw (e, reconcile_durable_chain_transaction)
        (guarded-Evolves (not (same_text r.expected_hash i.expected_hash)) db recovery_hash_conflict
          (recover_row db i r r.status at) (recover-Evolves db i r r.status at))
]

-- The calls that write the journal, each at its instant; one that throws leaves it as it was.
pub data Call : Type 0 where
  prepares : PrepareInput → Call
  transitions : TransitionInput → Call
  recovers : RecoveryInput → Call

unfoldable pub step : Journal → ℕ × Call → Journal
step db (at, prepares i) = after db (persist_chain_prepared_transaction db i at)
step db (at, transitions i) = after db (transition_chain_transaction db i at)
step db (at, recovers i) = after db (reconcile_durable_chain_transaction db i at)

unfoldable pub run : Journal → List (ℕ × Call) → Journal
unfolding step
run db [] = db
run db (c ∷ cs) = run (step db c) cs

step-Evolves : (db : Journal) (c : ℕ × Call) → Evolves db (step db c)
unfolding step
step-Evolves db (at, prepares i) = persist-Evolves db i at
step-Evolves db (at, transitions i) = transition-Evolves db i at
step-Evolves db (at, recovers i) = reconcile-Evolves db i at

-- Along any history of calls, every row stays at its place with its chain, wallet, nonce, hash,
-- workflow, stage and attempt, its status never goes back, and once it is CONFIRMED or FAILED it never changes again.
pub run-Evolves : (cs : List (ℕ × Call)) (db : Journal) → Evolves db (run db cs)
unfolding run
run-Evolves [] db = Evolves-refl db
run-Evolves (c ∷ cs) db =
    Evolves-trans db (step db c) (run (step db c) cs) (step-Evolves db c)
      (run-Evolves cs (step db c))

-- From an empty journal, no history of calls stores two rows with one journal id, hash or attempt of
-- a chain, nor two rows that are PREPARED, SUBMITTED or CONFIRMED with the same wallet and nonce.
pub run-IsKeyed : (cs : List (ℕ × Call)) → IsKeyed (run [] cs)
run-IsKeyed cs = (run-Evolves cs []).keyed empty-IsKeyed
