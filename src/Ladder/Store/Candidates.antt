-- ===== src/Ladder/Store/Candidates.antt =====
-- The candidates for a reset are the oldest pending ones.
use funi.Common.{
  ℕ, zero, suc, ◌≤◌, ◌⊎◌, ◌≡◌, refl, ap, inl, inr, Bool, true, false, ◌&&◌, ◌||◌, List, [], ◌∷◌,
  ◌++◌, arith, ltb, text_eq, Bool-cases, any_where, select_where, count_where, length, take, ok,
  All,
}
use funi.Ladder.Store.Rows.{Ladder, Phase, Reset, Store}
use funi.Ladder.Store.Reset.{
  insert_row, order_rows, is_candidate, updated_first, list_bid_ladder_usd_reset_candidates,
}

-- A phase that a worker still has to move on from.
abbrev pub awaits_work : Phase → Bool
awaits_work Phase.completed = false
awaits_work Phase.blocked = false
awaits_work Phase.operator_closed = false
awaits_work _ = true

abbrev pub is_pending : List Ladder → Reset → Bool
is_pending ladders r =
    awaits_work r.phase && any_where (λ l. text_eq l.ladder_id r.ladder_id) ladders

-- Oldest first.
abbrev pub IsOrdered : List Reset → Type 0
IsOrdered [] = Unit
IsOrdered (r ∷ rs) = All (λ x. r.updated_at_ms ≤ x.updated_at_ms) rs × IsOrdered rs

candidate_is_pending :
    (ladders : List Ladder) (r : Reset) → is_candidate ladders r ≡ is_pending ladders r
candidate_is_pending ladders r = ground arith

module _ {A : Type 0} where
  count-insert_row :
      (first : A → A → Bool) (p : A → Bool) (x : A) (xs : List A)
      → count_where p (insert_row first x xs) ≡ count_where p (x ∷ xs)
  count-insert_row first p x [] = refl
  count-insert_row first p x (y ∷ xs) = elim (Bool-cases (first y x)) [
    | inl e ↦ rw e (omega (arith, count-insert_row first p x xs))
    | inr e ↦ rw e refl
  ]

  count-order_rows :
      (first : A → A → Bool) (p : A → Bool) (xs : List A)
      → count_where p (order_rows first xs) ≡ count_where p xs
  count-order_rows first p [] = refl
  count-order_rows first p (x ∷ xs) =
      omega (arith, count-insert_row first p x (order_rows first xs), count-order_rows first p xs)

  count-select :
      (p q s : A → Bool) (xs : List A)
      → ((x : A) → q x ≡ s x)
      → count_where p (select_where q xs) ≡ count_where (λ x. s x && p x) xs
  count-select p q s [] same = refl
  count-select p q s (x ∷ xs) same = ground (arith, same x, count-select p q s xs same)

  All-insert_row :
      (P : A → Type 0) (first : A → A → Bool) (x : A) (xs : List A)
      → P x
      → All P xs
      → All P (insert_row first x xs)
  All-insert_row P first x [] p h = (p, tt)
  All-insert_row P first x (y ∷ ys) p h = elim (Bool-cases (first y x)) [
    | inl e ↦ rw e (h.0, All-insert_row P first x ys p h.1)
    | inr e ↦ rw e (p, h)
  ]

  take_leaves :
      (n : ℕ) (xs : List A)
      → (rest : List A) × (take n xs ++ rest ≡ xs) × ((length (take n xs) ≡ n) ⊎ (rest ≡ []))
  take_leaves zero xs = (xs, refl, inl refl)
  take_leaves (suc n) [] = ([], refl, inr refl)
  take_leaves (suc n) (x ∷ xs) =
      let (rest, whole, full) = take_leaves n xs in
      (rest, ap (λ ys. x ∷ ys) whole, elim full [ inl e ↦ inl (omega (arith, e)) | inr e ↦ inr e ])

insert-IsOrdered :
    (r : Reset) (rs : List Reset) → IsOrdered rs → IsOrdered (insert_row updated_first r rs)
insert-IsOrdered r [] h = (tt, tt)
insert-IsOrdered r (x ∷ rs) h = elim (Bool-cases (updated_first x r)) [
  | inl e ↦ rw e (
    All-insert_row (λ y. x.updated_at_ms ≤ y.updated_at_ms) updated_first r rs (ground arith) h.0,
    insert-IsOrdered r rs h.1,
  )
  | inr e ↦
      let before : r.updated_at_ms ≤ x.updated_at_ms = ground arith in
      rw e ((before, later r x rs before h.0), h)
]
  where
    later :
        (r x : Reset) (rs : List Reset)
        → r.updated_at_ms ≤ x.updated_at_ms
        → All (λ y. x.updated_at_ms ≤ y.updated_at_ms) rs
        → All (λ y. r.updated_at_ms ≤ y.updated_at_ms) rs
    later r x [] le h = tt
    later r x (y ∷ rs) le h = (omega (arith, le, h.0), later r x rs le h.1)

order-IsOrdered : (rs : List Reset) → IsOrdered (order_rows updated_first rs)
order-IsOrdered [] = tt
order-IsOrdered (r ∷ rs) = insert-IsOrdered r (order_rows updated_first rs) (order-IsOrdered rs)

-- For a limit from 1 to 32, the candidates and a rest are together the resets that are neither
-- COMPLETED, BLOCKED nor OPERATOR_CLOSED and whose ladder is stored, each as often as it is stored and
-- the oldest first; and either there are as many candidates as the limit, or the rest is empty.
pub candidates_are_oldest :
    (db : Store) (limit : ℕ)
    → 1 ≤ limit
    → limit ≤ 32
    → (rs rest : List Reset) × (list_bid_ladder_usd_reset_candidates db limit ≡ ok rs)
      × IsOrdered (rs ++ rest)
      × ((p : Reset → Bool)
          → count_where p (rs ++ rest)
            ≡ count_where (λ r. is_pending db.ladders r && p r) db.resets)
      × ((length rs ≡ limit) ⊎ (rest ≡ []))
unfolding list_bid_ladder_usd_reset_candidates
candidates_are_oldest db limit lo hi =
    let found = select_where (is_candidate db.ladders) db.resets in
    let rows = order_rows updated_first found in
    let (rest, whole, full) = take_leaves limit rows in
    let within : (ltb limit 1 || ltb 32 limit) ≡ false = ground (arith, lo, hi) in
    (
      take limit rows,
      rest,
      rw within refl,
      rw whole (order-IsOrdered found),
      λ p. rw whole (
          rw (count-order_rows updated_first p found) (
            count-select p (is_candidate db.ladders) (is_pending db.ladders) db.resets
              (candidate_is_pending db.ladders))),
      full,
    )
