-- ===== src/Workers/StateCache/Converged.antt =====
-- The evidence behind a ladder that is moved from OPEN_PENDING to WATCHING.
use funi.Common.{
  ℕ, subst, is_some, ◌≤◌, ◌≡◌, refl, inl, inr, Bool, true, false, not, ◌&&◌, ◌||◌, Option, none,
  some, List, [], ◌∷◌, ◌++◌, map, arith, Text, All, All-imp, Bool-cases, count-imp_le, any_where,
  count_where, select_where, first_where, same_text, Result, ok, err, if◌then◌else◌,
}
use funi.Ladder.Store.Rows.{Ladder, Leg, Reset, is_leg_of, load_bid_ladder_usd_reset}
use funi.Ladder.Store.Reset.{transition_bid_ladder_usd_reset, Error}
use funi.Workers.StateCache.Actionable.{
  Registered, Position, Reconciled, Tables, Joined, or_null, for_each, position_of, reconciled_of,
  with_leg, joined, is_bound, is_owned, is_open, verifies, is_verified, has_leg, is_fresh,
  first_registered, actionable, open_ladder, fully_actionable_v4_bid_ladder, awaits_opening,
  to_watching, watched, converge_open_pending_v4_bid_ladder,
}

module _ {A : Type 0} where
  All-left : (P : A → Type 0) (xs ys : List A) → All P (xs ++ ys) → All P xs
  All-left P [] ys h = tt
  All-left P (x ∷ xs) ys h = (h.0, All-left P xs ys h.1)

  All-right : (P : A → Type 0) (xs ys : List A) → All P (xs ++ ys) → All P ys
  All-right P [] ys h = h
  All-right P (x ∷ xs) ys h = All-right P xs ys h.1

  All-some : (P : Option A → Type 0) (xs : List A) → All P (map some xs) → All (λ x. P (some x)) xs
  All-some P [] h = tt
  All-some P (x ∷ xs) h = (h.0, All-some P xs h.1)

  All-or_null :
      (P : Option A → Type 0) (xs : List A) → All P (or_null xs) → All (λ x. P (some x)) xs
  All-or_null P [] h = tt
  All-or_null P (x ∷ xs) h = (h.0, All-some P xs h.1)

  or_null_one : (C : Type 0) (xs : List A) → All (λ x. C) (or_null xs) → C
  or_null_one C [] h = h.0
  or_null_one C (x ∷ xs) h = h.0

  or_null_any :
      (q : Option A → Bool) (xs : List A)
      → q none ≡ false
      → All (λ o. q o ≡ true) (or_null xs)
      → any_where (λ x. q (some x)) xs ≡ true
  or_null_any q [] n h = absurd (ground (arith, h.0))
  or_null_any q (x ∷ xs) n h = ground (arith, h.0)

  any_false : (q : A → Bool) (xs : List A) → ((x : A) → q x ≡ false) → any_where q xs ≡ false
  any_false q [] h = refl
  any_false q (x ∷ xs) h = ground (arith, h x, any_false q xs h)

  counts_agree :
      (p q : A → Bool) (xs : List A)
      → ((x : A) → p x ≡ true → q x ≡ true)
      → count_where q xs ≤ count_where p xs
      → All (λ x. q x ≡ true → p x ≡ true) xs
  counts_agree p q [] imp h = tt
  counts_agree p q (x ∷ xs) imp h = elim (Bool-cases (p x)) [
    | inl e ↦ (λ _. e, counts_agree p q xs imp (ground (arith, imp x)))
    | inr e ↦ (
      λ m. absurd (ground (arith, count-imp_le p q xs imp)),
      counts_agree p q xs imp (ground (arith, count-imp_le p q xs imp)),
    )
  ]

All-for_each :
    {A B : Type 0} (P : B → Type 0) (xs : List A) (f : A → List B)
    → All P (for_each xs f)
    → All (λ x. All P (f x)) xs
All-for_each P [] f h = tt
All-for_each P (x ∷ xs) f h = (All-left P (f x) _ h, All-for_each P xs f (All-right P (f x) _ h))

-- A leg is open, and a position of its token and a reconciliation of that position bear it out.
abbrev pub is_proven : Tables → ℕ → Ladder → Leg → Bool
is_proven db now l x =
    any_where
      (λ p.
        any_where (λ a. is_open x && (is_bound l p && is_owned now a))
          (select_where (reconciled_of (some x)) db.reconciled))
      (select_where (position_of (some x)) db.positions)

Verified : ℕ → Ladder → Joined → Type 0
Verified now l j = has_leg j ≡ true → is_verified now l j ≡ true

unreconciled :
    (now : ℕ) (l : Ladder) (x : Leg) (p : Option Position) → verifies now l (some x) p none ≡ false
unreconciled now l x none = refl
unreconciled now l x (some p) = refl

leg-is_proven :
    (db : Tables) (now : ℕ) (l : Ladder) (r : Option Registered) (x : Leg)
    → All (Verified now l) (with_leg db r (some x))
    → is_proven db now l x ≡ true
unfolding Verified
leg-is_proven db now l r x h =
    let active = select_where (reconciled_of (some x)) db.reconciled in
    or_null_any (λ p. any_where (λ a. verifies now l (some x) p (some a)) active)
      (select_where (position_of (some x)) db.positions) (any_false _ active (λ a. refl))
      (All-imp _ _ _
        (λ p hp.
          or_null_any (verifies now l (some x) p) active (unreconciled now l x p) (
            All-imp _ _ _ (λ a ha. ha.0 refl)
              (All-for_each (Verified now l) (or_null active) _ hp)))
        (All-for_each (Verified now l) _ _ h))

legs_of_row :
    (db : Tables) (now : ℕ) (l : Ladder) (r : Option Registered) (legs : List Leg)
    → All (Verified now l) (for_each (or_null legs) (with_leg db r))
    → All (λ x. is_proven db now l x ≡ true) legs
legs_of_row db now l r legs h =
    All-imp (λ x. All (Verified now l) (with_leg db r (some x))) (λ x. is_proven db now l x ≡ true)
      legs (λ x hx. leg-is_proven db now l r x hx)
      (All-or_null (λ x. All (Verified now l) (with_leg db r x)) legs
        (All-for_each (Verified now l) (or_null legs) (with_leg db r) h))

legs_are_proven :
    (db : Tables) (now : ℕ) (l : Ladder)
    → All (Verified now l) (joined db l)
    → All (λ x. is_proven db now l x ≡ true) (select_where (is_leg_of l.ladder_id) db.store.legs)
unfolding joined
legs_are_proven db now l h =
    let legs = select_where (is_leg_of l.ladder_id) db.store.legs in
    let rows = select_where (λ r. same_text r.pool_id l.pool_id) db.registry in
    let row = λ (r : Option Registered). for_each (or_null legs) (with_leg db r) in
    or_null_one (All (λ x. is_proven db now l x ≡ true) legs) rows (
      All-imp (λ r. All (Verified now l) (row r)) (λ r. All (λ x. is_proven db now l x ≡ true) legs)
        (or_null rows) (λ r hr. legs_of_row db now l r legs hr)
        (All-for_each (Verified now l) (or_null rows) row h))

verifies_has_leg :
    (now : ℕ) (l : Ladder) (x : Option Leg) (p : Option Position) (a : Option Reconciled)
    → verifies now l x p a ≡ true
    → is_some x ≡ true
verifies_has_leg now l none p a h = cc
verifies_has_leg now l (some x) p a h = refl

guards_pass :
    (a f : Bool) (xs rs : List Reset) (t : Result Error (List Reset))
    → (if not a || not f then ok (xs, false) else watched t) ≡ ok (rs, true)
    → (a ≡ true) × (f ≡ true) × (t ≡ ok rs)
guards_pass a f xs rs (ok ys) h = ground arith
guards_pass a f xs rs (err e) h = ground arith

module _ (date_parse : Text → Option ℕ) where
  actionable-is_proven :
      (db : Tables) (now ttl : ℕ) (l : Ladder)
      → actionable date_parse (some l) db now ttl ≡ true
      → All (λ x. is_proven db now l x ≡ true) (select_where (is_leg_of l.ladder_id) db.store.legs)
  unfolding Verified
  actionable-is_proven db now ttl l h = legs_are_proven db now l (
      counts_agree (is_verified now l) has_leg (joined db l)
        (λ j v. verifies_has_leg now l j.leg j.position j.active v) (ground arith))

  -- If the ladder that the query reads is open and convergence reports that it moved it, then the
  -- ladder's reset was awaiting its opening and went through the repository's transition to WATCHING,
  -- the pool's registry row is fresh, and every leg of the ladder is open, with a token of which a
  -- position in the ladder's pool, opened by the ladder, is stored, and a fresh reconciliation that
  -- verified it as owned and active.
  pub converged-is_proven :
      (db : Tables) (id : Text) (now ttl : ℕ) (l : Ladder) (rs : List Reset)
      → first_where (open_ladder id) db.store.ladders ≡ some l
      → converge_open_pending_v4_bid_ladder date_parse db id now ttl ≡ ok (rs, true)
      → (awaits_opening (load_bid_ladder_usd_reset db.store id) ≡ true)
        × (transition_bid_ladder_usd_reset db.store.resets (to_watching id now) ≡ ok rs)
        × (is_fresh date_parse (first_registered (joined db l)) now ttl ≡ true)
        × All
            (λ x. is_proven db now l x ≡ true)
            (select_where (is_leg_of l.ladder_id) db.store.legs)
  unfolding converge_open_pending_v4_bid_ladder fully_actionable_v4_bid_ladder
  converged-is_proven db id now ttl l rs e h = do
    let f =
        guards_pass (awaits_opening (load_bid_ladder_usd_reset db.store id))
          (actionable date_parse (first_where (open_ladder id) db.store.ladders) db now ttl)
          db.store.resets rs (transition_bid_ladder_usd_reset db.store.resets (to_watching id now))
          h
    let ready : actionable date_parse (some l) db now ttl ≡ true =
        subst (λ o. actionable date_parse o db now ttl ≡ true) e f.1
    (f.0, f.2, ground (arith, ready), actionable-is_proven db now ttl l ready)
