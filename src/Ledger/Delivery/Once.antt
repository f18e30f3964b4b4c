-- ===== src/Ledger/Delivery/Once.antt =====
-- How often the send of one delivery can start.
use funi.Common.{
  ℕ, ◌+◌, ◌≤◌, ◌≡◌, refl, inl, inr, Bool, true, false, not, ◌&&◌, ◌||◌, Option, List, [], ◌∷◌, ◌++◌,
  arith, Text, text_eq, text_eq_iff, ltb, leb, ◌==◌, if◌then◌else◌, is_none, Result, ok, err,
  Bool-cases, count_where, any_where, update_where, count-append, count-update_le, count-imp_le,
  count-update_key, count_of_any_false,
}
use funi.Ledger.Delivery.Defs.{
  Consumer, Delivery, Deliveries, Error, EnsureInput, FinalizeInput, has_id, is_pending, is_sending,
  conflicts, new_delivery, event_exists, well_formed, ensure_pnl_card_delivery, unsent, returned,
  ambiguous, uncertain_after_crash, recover_pnl_card_delivery_claims, claimable, claimed,
  claim_pnl_card_delivery, may_mark, marked, mark_pnl_card_delivery_send_started, final_status,
  may_finalize, finalized, finalize_pnl_card_delivery,
}

pub data Call : Type 0 where
  ensures : EnsureInput → (at : ℕ) → Call
  recovers : (now lease : ℕ) → Call
  claims : Text → Consumer → (at : ℕ) → Call
  marks : Text → (at : ℕ) → Call
  finalizes : FinalizeInput → (at : ℕ) → Call

abbrev pub rows_selected : Deliveries → Result Error (Deliveries × Option Delivery) → Deliveries
rows_selected db (ok (db', row)) = db'
rows_selected db (err e) = db

abbrev pub rows_recovered : Deliveries → Result Error (Deliveries × ℕ × ℕ) → Deliveries
rows_recovered db (ok (db', definitely_unsent, ambiguous_rows)) = db'
rows_recovered db (err e) = db

abbrev pub rows_or : Deliveries → Result Error Deliveries → Deliveries
rows_or db (ok db') = db'
rows_or db (err e) = db

abbrev pub succeeded : Result Error Deliveries → Bool
succeeded (ok db) = true
succeeded (err e) = false

-- The table after a call; one that throws leaves it as it was.
unfoldable pub step : (Text → Bool) → Deliveries → Call → Deliveries
step events db (ensures i at) = rows_selected db (ensure_pnl_card_delivery events db i at)
step events db (recovers now lease) =
    rows_recovered db (recover_pnl_card_delivery_claims db now lease)
step events db (claims id consumer at) = (claim_pnl_card_delivery db id consumer at).0
step events db (marks id at) = rows_or db (mark_pnl_card_delivery_send_started db id at)
step events db (finalizes i at) = rows_or db (finalize_pnl_card_delivery db i at)

-- Whether a call starts the send of a delivery, and whether it gives the delivery back for a retry.
unfoldable pub is_start : Text → Deliveries → Call → Bool
is_start id db (marks i at) =
    text_eq i id && succeeded (mark_pnl_card_delivery_send_started db i at)
is_start id db _ = false

unfoldable pub is_retry : Text → Deliveries → Call → Bool
is_retry id db (finalizes i at) =
    text_eq i.delivery_id id
    && (is_pending (final_status i) && succeeded (finalize_pnl_card_delivery db i at))
is_retry id db _ = false

unfoldable pub starts : (Text → Bool) → Text → Deliveries → List Call → ℕ
unfolding step is_start
starts events id db [] = 0
starts events id db (c ∷ cs) =
    (if is_start id db c then 1 else 0) + starts events id (step events db c) cs

unfoldable pub retries : (Text → Bool) → Text → Deliveries → List Call → ℕ
unfolding step is_retry
retries events id db [] = 0
retries events id db (c ∷ cs) =
    (if is_retry id db c then 1 else 0) + retries events id (step events db c) cs

-- A delivery whose send may still start without a retry.
abbrev may_start : Text → Delivery → Bool
may_start id d =
    has_id id d
    && (is_pending d.delivery_status
        || (is_sending d.delivery_status && is_none d.send_started_at_ms))

-- An UPDATE that ends `q` on the one row that it reaches takes the count of `q` to 0.
count_update_one :
    (q p : Delivery → Bool) (f : Delivery → Delivery) (db : Deliveries)
    → ((d : Delivery) → p d ≡ true → q d ≡ true)
    → ((d : Delivery) → p d ≡ true → q (f d) ≡ false)
    → count_where q (update_where p f db) + count_where p db ≡ count_where q db
count_update_one q p f [] imp ends = omega arith
count_update_one q p f (d ∷ db) imp ends =
    ground (arith, imp d, ends d, count_update_one q p f db imp ends)

count_update_more :
    (q p : Delivery → Bool) (f : Delivery → Delivery) (db : Deliveries)
    → count_where q (update_where p f db) ≤ count_where q db + count_where p db
count_update_more q p f [] = omega arith
count_update_more q p f (d ∷ db) = ground (arith, count_update_more q p f db)

-- What a call does to one delivery: its one row stays, a start uses a credit, and a retry gives one.
record Spends (id : Text) (start retry : Bool) (db db' : Deliveries) : Type 0 where
  row_stays : count_where (has_id id) db' ≡ count_where (has_id id) db
  credit :
      count_where (may_start id) db' + (if start then 1 else 0)
      ≤ count_where (may_start id) db + (if retry then 1 else 0)

module _ (events : Text → Bool) (id : Text) (db : Deliveries)
    (there : 1 ≤ count_where (has_id id) db) where
  append-Spends :
      (i : EnsureInput) (at : ℕ)
      → any_where (conflicts i) db ≡ false
      → Spends id false false db (db ++ new_delivery i at ∷ [])
  append-Spends i at free = record {
    row_stays = ground (arith, count-append (has_id id) db (new_delivery i at ∷ []), other);
    credit = ground (arith, count-append (may_start id) db (new_delivery i at ∷ []), other);
  }
    where
      other : text_eq i.delivery_id id ≡ false
      other = elim (Bool-cases (text_eq i.delivery_id id)) [
        | inr e ↦ e
        | inl e ↦ absurd (
            ground (
              arith,
              there,
              count_of_any_false (conflicts i) (has_id id) db free
                  (λ d h. ground (arith, text_eq_iff i.delivery_id id)),
            ))
      ]

  same-Spends : Spends id false false db db
  same-Spends = record { row_stays = refl; credit = omega arith }

  ensure-Spends :
      (i : EnsureInput) (at : ℕ) → Spends id false false db (step events db (ensures i at))
  unfolding step ensure_pnl_card_delivery
  ensure-Spends i at = elim (Bool-cases (not (well_formed i) || any_where (conflicts i) db)) [
    | inl e ↦ rw e same-Spends
    | inr e ↦ elim (Bool-cases (event_exists events i.economic_event_id)) [
      | inl y ↦ rw (e, y) (append-Spends i at (ground arith))
      | inr n ↦ rw (e, n) same-Spends
    ]
  ]

  recover-Spends : (now lease : ℕ) → Spends id false false db (step events db (recovers now lease))
  unfolding step recover_pnl_card_delivery_claims
  recover-Spends now lease =
      elim (Bool-cases (leb 9007199254740992 now || (leb 9007199254740992 lease || ltb lease 1))) [
        | inl e ↦ rw e same-Spends
        | inr e ↦
            let db' : Deliveries = update_where (unsent now lease) (returned now) db in
            rw e (record {
              row_stays = omega (
                arith,
                count-update_key (has_id id) (unsent now lease) (returned now) db (λ d. refl),
                count-update_key (has_id id) (ambiguous now lease) (uncertain_after_crash now) db'
                    (λ d. refl),
              );
              credit = omega (
                arith,
                count-update_le (may_start id) (unsent now lease) (returned now) db
                    (λ d u h. ground arith),
                count-update_le (may_start id) (ambiguous now lease) (uncertain_after_crash now) db'
                    (λ d u h. ground arith),
              );
            })
      ]

  claim-Spends :
      (i : Text) (consumer : Consumer) (at : ℕ)
      → Spends id false false db (step events db (claims i consumer at))
  unfolding step claim_pnl_card_delivery
  claim-Spends i consumer at = record {
    row_stays = count-update_key (has_id id) (claimable i) (claimed consumer at) db (λ d. refl);
    credit = omega (
      arith,
      count-update_le (may_start id) (claimable i) (claimed consumer at) db (λ d u h. ground arith),
    );
  }

  marked-Spends :
      (at : ℕ)
      → count_where (may_mark id) db ≡ 1
      → Spends id true false db (update_where (may_mark id) (marked at) db)
  marked-Spends at one = record {
    row_stays = count-update_key (has_id id) (may_mark id) (marked at) db (λ d. refl);
    credit = ground (
      arith,
      count_update_one (may_start id) (may_mark id) (marked at) db (λ d h. ground arith)
          (λ d h. ground arith),
    );
  }

  other_marked-Spends :
      (i : Text) (at : ℕ) → Spends id false false db (update_where (may_mark i) (marked at) db)
  other_marked-Spends i at = record {
    row_stays = count-update_key (has_id id) (may_mark i) (marked at) db (λ d. refl);
    credit =
        omega (
          arith,
          count-update_le (may_start id) (may_mark i) (marked at) db (λ d u h. ground arith),
        );
  }

  mark-Spends :
      (i : Text) (at : ℕ)
      → Spends id (is_start id db (marks i at)) false db (step events db (marks i at))
  unfolding step is_start mark_pnl_card_delivery_send_started
  mark-Spends i at = elim (Bool-cases (count_where (may_mark i) db == 1)) [
    | inr e ↦ rw e (ground (arith, same-Spends))
    | inl e ↦ elim (Bool-cases (text_eq i id)) [
      | inl y ↦
          let same : i ≡ id = (text_eq_iff i id).0 y in
          rw (e, y, same) (marked-Spends at (ground arith))
      | inr n ↦ rw (e, n) (other_marked-Spends i at)
    ]
  ]

  retried-Spends :
      (i : FinalizeInput) (at : ℕ)
      → count_where (may_finalize i.delivery_id) db ≡ 1
      → Spends id false true db (update_where (may_finalize i.delivery_id) (finalized i at) db)
  retried-Spends i at one = record {
    row_stays =
        count-update_key (has_id id) (may_finalize i.delivery_id) (finalized i at) db (λ d. refl);
    credit =
        omega (
          arith,
          count_update_more (may_start id) (may_finalize i.delivery_id) (finalized i at) db,
        );
  }

  ended-Spends :
      (i : FinalizeInput) (at : ℕ)
      → (text_eq i.delivery_id id && is_pending (final_status i)) ≡ false
      → Spends id false false db (update_where (may_finalize i.delivery_id) (finalized i at) db)
  ended-Spends i at h = record {
    row_stays =
        count-update_key (has_id id) (may_finalize i.delivery_id) (finalized i at) db (λ d. refl);
    credit = omega (
      arith,
      count-update_le (may_start id) (may_finalize i.delivery_id) (finalized i at) db
          (λ d u m. ground (arith, text_eq_iff d.delivery_id i.delivery_id)),
    );
  }

  -- The flag of a finalization, by the cases of what it does.
  flagged-Spends :
      (i : FinalizeInput) (at : ℕ) (a b : Bool)
      → (text_eq i.delivery_id id && is_pending (final_status i)) ≡ (a && b)
      → count_where (may_finalize i.delivery_id) db ≡ 1
      → Spends id false (a && b) db (update_where (may_finalize i.delivery_id) (finalized i at) db)
  flagged-Spends i at true true h one = retried-Spends i at one
  flagged-Spends i at true false h one = ended-Spends i at h
  flagged-Spends i at false b h one = ended-Spends i at h

  unflagged-Spends : (a b : Bool) → Spends id false (a && (b && false)) db db
  unflagged-Spends true true = same-Spends
  unflagged-Spends true false = same-Spends
  unflagged-Spends false b = same-Spends

  and_true : (b : Bool) → (b && true) ≡ b
  and_true b = ground arith

  finalize-Spends :
      (i : FinalizeInput) (at : ℕ)
      → Spends id false (is_retry id db (finalizes i at)) db (step events db (finalizes i at))
  unfolding step is_retry finalize_pnl_card_delivery
  finalize-Spends i at = elim (Bool-cases (count_where (may_finalize i.delivery_id) db == 1)) [
    | inr e ↦ rw e (unflagged-Spends (text_eq i.delivery_id id) (is_pending (final_status i)))
    | inl e ↦
        rw (e, and_true (is_pending (final_status i)))
          (flagged-Spends i at (text_eq i.delivery_id id) (is_pending (final_status i)) refl
            (ground arith))
  ]

  step-Spends : (c : Call) → Spends id (is_start id db c) (is_retry id db c) db (step events db c)
  unfolding is_start is_retry
  step-Spends (ensures i at) = ensure-Spends i at
  step-Spends (recovers now lease) = recover-Spends now lease
  step-Spends (claims i consumer at) = claim-Spends i consumer at
  step-Spends (marks i at) = mark-Spends i at
  step-Spends (finalizes i at) = finalize-Spends i at

starts_from_credit :
    (events : Text → Bool) (id : Text) (cs : List Call) (db : Deliveries)
    → 1 ≤ count_where (has_id id) db
    → starts events id db cs ≤ count_where (may_start id) db + retries events id db cs
unfolding starts retries
starts_from_credit events id [] db there = omega arith
starts_from_credit events id (c ∷ cs) db there =
    let spent = step-Spends events id db there c in
    omega (
      arith,
      spent.credit,
      starts_from_credit events id cs (step events db c) (omega (arith, spent.row_stays)),
    )

-- For a delivery with one row, along any history of calls the sends that start are at most one more
-- than the finalizations that give it back for a retry.
pub sends_are_bounded :
    (events : Text → Bool) (id : Text) (cs : List Call) (db : Deliveries)
    → count_where (has_id id) db ≡ 1
    → starts events id db cs ≤ 1 + retries events id db cs
sends_are_bounded events id cs db one = omega (
  arith,
  starts_from_credit events id cs db (omega arith),
  count-imp_le (may_start id) (has_id id) db (λ d h. ground arith),
)
