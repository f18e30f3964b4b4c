-- ===== src/Ledger/Journal/Invariant.antt =====
-- The journal's keys: what its operations keep, one operation at a time and along any history.
use funi.Common.{
  ℕ, ◌≤◌, ◌≡◌, refl, Bool, true, false, inl, inr, Option, none, some, [], ◌∷◌, ◌++◌, arith, Text,
  lower, lower_idem, text_eq_iff, same_text, ok, err, after, ◌>>=◌, Bool-cases, Option-cases,
  count_where, first_where, any_where, update_where, count-append, count-update_le, count_of_none,
  count_of_any_false, first_where-true, first_where-All, All-of_count_zero, text_eq_refl,
  if◌then◌else◌,
}
use funi.Ledger.Journal.Defs.{
  Row, Journal, Error, has_id, has_hash, has_attempt, uses_nonce, in_status, conflicts,
  prepared_row, insert_row, prepare_new, PrepareInput, persist_chain_prepared_transaction,
  TransitionInput, transitioned, nonce_clash,
}

-- No two rows share a journal id, a hash or an attempt, and no two transactions that may still be
-- mined, or were, share a wallet's nonce.
pub record IsKeyed (db : Journal) : Type 0 where
  pub id_unique : (c : ℕ) (j : Text) → count_where (has_id c j) db ≤ 1
  pub hash_unique : (c : ℕ) (h : Text) → count_where (has_hash c h) db ≤ 1
  pub attempt_unique : (c : ℕ) (w s : Text) (a : ℕ) → count_where (has_attempt c w s a) db ≤ 1
  pub nonce_unique : (c : ℕ) (w : Text) (n : ℕ) → count_where (uses_nonce c w n) db ≤ 1

pub empty-IsKeyed : IsKeyed []
empty-IsKeyed = record {
  id_unique = λ c j. omega arith;
  hash_unique = λ c h. omega arith;
  attempt_unique = λ c w s a. omega arith;
  nonce_unique = λ c w n. omega arith;
}

-- A key that the new row has, and no old row, stays unique.
append_unique :
    (q : Row → Bool) (db : Journal) (n : Row)
    → count_where q db ≤ 1
    → (q n ≡ true → count_where q db ≡ 0)
    → count_where q (db ++ n ∷ []) ≤ 1
append_unique q db n old new = ground (arith, count-append q db (n ∷ []))

module _ (i : PrepareInput) (at : ℕ) (db : Journal) where
  abbrev written : Row
  written = prepared_row i at

  -- A row that passes the constraint check has three new keys.
  module _ (fresh : any_where (conflicts (prepared_row i at)) db ≡ false) where
    id_case : (c : ℕ) (j : Text) → has_id c j written ≡ true → count_where (has_id c j) db ≡ 0
    id_case c j h =
        count_of_any_false (conflicts written) (has_id c j) db fresh
          (λ r e. ground (arith, text_eq_iff i.journal_id j, text_eq_iff r.journal_id j))

    hash_case : (c : ℕ) (j : Text) → has_hash c j written ≡ true → count_where (has_hash c j) db ≡ 0
    hash_case c j h = count_of_any_false (conflicts written) (has_hash c j) db fresh (λ r e.
        ground (
          arith,
          text_eq_iff (lower (lower i.expected_hash)) (lower j),
          text_eq_iff (lower r.expected_hash) (lower j),
        ))

    attempt_case :
        (c : ℕ) (w s : Text) (a : ℕ)
        → has_attempt c w s a written ≡ true
        → count_where (has_attempt c w s a) db ≡ 0
    attempt_case c w s a h =
        count_of_any_false (conflicts written) (has_attempt c w s a) db fresh (λ r e. ground (
          arith,
          text_eq_iff i.workflow_identity w,
          text_eq_iff r.workflow_identity w,
          text_eq_iff i.semantic_stage s,
          text_eq_iff r.semantic_stage s,
        ))

    -- The constraint on hashes leaves no row with the nonce: one with it would have the same hash.
    no_nonce_row :
        (r : Row)
        → first_where (uses_nonce i.chain_id (lower i.wallet) i.nonce) db ≡ some r
        → same_text r.expected_hash i.expected_hash ≡ true
        → ⊥
    no_nonce_row r found same = ground (
      arith,
      lower_idem i.expected_hash,
      first_where-true (uses_nonce i.chain_id (lower i.wallet) i.nonce) db {x = r} found,
      first_where-All (λ x. has_hash i.chain_id (lower i.expected_hash) x ≡ false)
          (uses_nonce i.chain_id (lower i.wallet) i.nonce) db {x = r}
          (All-of_count_zero (has_hash i.chain_id (lower i.expected_hash)) db (
            hash_case i.chain_id (lower i.expected_hash)
              (ground (arith, text_eq_refl (lower (lower i.expected_hash))))))
          found,
    )

    -- With the nonce free too, the new row keeps all four.
    module _ (free : count_where (uses_nonce i.chain_id (lower i.wallet) i.nonce) db ≡ 0)
        (v : IsKeyed db) where
      nonce_case :
          (c : ℕ) (w : Text) (n : ℕ)
          → uses_nonce c w n written ≡ true
          → count_where (uses_nonce c w n) db ≡ 0
      nonce_case c w n h =
          ground (arith, text_eq_iff (lower (lower i.wallet)) w, lower_idem i.wallet)

      append-IsKeyed : IsKeyed (db ++ written ∷ [])
      append-IsKeyed = record {
        id_unique = λ c j. append_unique (has_id c j) db written (v.id_unique c j) (id_case c j);
        hash_unique =
            λ c h. append_unique (has_hash c h) db written (v.hash_unique c h) (hash_case c h);
        attempt_unique = λ c w s a.
            append_unique (has_attempt c w s a) db written (v.attempt_unique c w s a)
              (attempt_case c w s a);
        nonce_unique = λ c w n.
            append_unique (uses_nonce c w n) db written (v.nonce_unique c w n) (nonce_case c w n);
      }

kept_if :
    (b : Bool) (db : Journal) (r : Row) (e : Error)
    → IsKeyed db
    → IsKeyed (after db (if b then err e else ok (db, r)))
kept_if true db r e v = v
kept_if false db r e v = v

module _ (i : PrepareInput) (at : ℕ) (db : Journal) (v : IsKeyed db) where
  insert_row_keeps :
      (any_where (conflicts (prepared_row i at)) db ≡ false
        → count_where (uses_nonce i.chain_id (lower i.wallet) i.nonce) db ≡ 0)
      → IsKeyed
          (after db (insert_row (prepared_row i at) db >>= λ db'. ok (db', prepared_row i at)))
  unfolding insert_row
  insert_row_keeps free = elim (Bool-cases (any_where (conflicts (prepared_row i at)) db)) [
    | inl e ↦ rw e v
    | inr e ↦ rw e (append-IsKeyed i at db e (free e) v)
  ]

  nonce_free :
      (o : Option Row)
      → first_where (uses_nonce i.chain_id (lower i.wallet) i.nonce) db ≡ o
      → nonce_clash o i.expected_hash ≡ false
      → any_where (conflicts (prepared_row i at)) db ≡ false
      → count_where (uses_nonce i.chain_id (lower i.wallet) i.nonce) db ≡ 0
  nonce_free none found clash fresh = count_of_none _ db found
  nonce_free (some r) found clash fresh = absurd (no_nonce_row i at db fresh r found (ground arith))

  prepare_new-IsKeyed : IsKeyed (after db (prepare_new db i at))
  unfolding prepare_new
  prepare_new-IsKeyed =
      elim (Bool-cases (
        nonce_clash (first_where (uses_nonce i.chain_id (lower i.wallet) i.nonce) db)
          i.expected_hash)) [
            | inl e ↦ rw e v
            | inr e ↦ rw e (insert_row_keeps (nonce_free _ refl e))
          ]

  -- The first branch returns the journal as it is, or throws.
  pub persist-IsKeyed : IsKeyed (after db (persist_chain_prepared_transaction db i at))
  unfolding persist_chain_prepared_transaction
  persist-IsKeyed =
      elim (Option-cases
        (first_where (has_attempt i.chain_id i.workflow_identity i.semantic_stage i.attempt) db)) [
          | inl e ↦ rw (e, persist_chain_prepared_transaction) prepare_new-IsKeyed
          | inr (r, e) ↦ rw (e, persist_chain_prepared_transaction) (kept_if _ db _ _ v)
        ]

-- A transition moves one row on, under the keys that it had.
pub update-IsKeyed :
    (db : Journal) (i : TransitionInput) (at : ℕ)
    → IsKeyed db
    → IsKeyed (update_where (in_status i.chain_id i.journal_id i.source) (transitioned i at) db)
update-IsKeyed db i at v = record {
  id_unique = λ c j. omega (
    arith,
    v.id_unique c j,
    count-update_le (has_id c j) (in_status i.chain_id i.journal_id i.source) (transitioned i at) db
        (λ r p q. q),
  );
  hash_unique = λ c h. omega (
    arith,
    v.hash_unique c h,
    count-update_le (has_hash c h) (in_status i.chain_id i.journal_id i.source) (transitioned i at)
        db (λ r p q. q),
  );
  attempt_unique = λ c w s a. omega (
    arith,
    v.attempt_unique c w s a,
    count-update_le (has_attempt c w s a) (in_status i.chain_id i.journal_id i.source)
        (transitioned i at) db (λ r p q. q),
  );
  nonce_unique = λ c w n. omega (
    arith,
    v.nonce_unique c w n,
    count-update_le (uses_nonce c w n) (in_status i.chain_id i.journal_id i.source)
        (transitioned i at) db (λ r p q. held i at c w n r p q),
  );
}
  where
    held :
        (i : TransitionInput) (at c : ℕ) (w : Text) (n : ℕ) (r : Row)
        → in_status i.chain_id i.journal_id i.source r ≡ true
        → uses_nonce c w n (transitioned i at r) ≡ true
        → uses_nonce c w n r ≡ true
    held i at c w n r p q = ground arith
