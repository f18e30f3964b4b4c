-- ===== src/Ledger/Callback/Once.antt =====
-- An authorization is consumed at most once, whatever calls are made.
use funi.Common.{
  ℕ, ◌+◌, ◌≤◌, ◌≡◌, refl, inl, inr, Bool, true, false, ◌&&◌, ◌||◌, none, List, [], ◌∷◌, ◌++◌, arith,
  Text, text_eq, text_eq_iff, Result, ok, err, Bool-cases, leb, ◌==◌, if◌then◌else◌, is_none,
  count_where, any_where, count-append, count-update_key, count-update_le, count-imp_le, count_zero,
  count_of_any_false, All-update_to, unique_covers,
}
use funi.Ledger.Callback.Defs.{
  Claim, binding_of, Authorization, Authorizations, Error, has_id, usable, consumed,
  authorize_chain_callback, consume_chain_callback,
}
use funi.Ledger.Callback.Single.{IsKeyed}

-- The calls on the table; one that throws leaves it as it was.
pub data Call : Type 0 where
  authorizes : (id : Text) (c : Claim) (expires_at_ms : ℕ) (key : Text) (now : ℕ) → Call
  consumes : (id : Text) (c : Claim) (now : ℕ) → Call

abbrev pub rows_after : Authorizations → Result Error Authorizations → Authorizations
rows_after db (ok db') = db'
rows_after db (err e) = db

unfoldable pub step : Authorizations → Call → Authorizations
step db (authorizes id c exp key now) = rows_after db (authorize_chain_callback db id c exp key now)
step db (consumes id c now) = rows_after db (consume_chain_callback db id c now)

abbrev pub succeeded : Result Error Authorizations → Bool
succeeded (ok db) = true
succeeded (err e) = false

-- The consumptions of one authorization that return true, along a history of calls.
unfoldable pub consumptions : Text → Authorizations → List Call → ℕ
unfolding step
consumptions id db [] = 0
consumptions id db (authorizes i c exp key now ∷ cs) =
    consumptions id (step db (authorizes i c exp key now)) cs
consumptions id db (consumes i c now ∷ cs) =
    (if text_eq i id && succeeded (consume_chain_callback db i c now) then 1 else 0)
    + consumptions id (step db (consumes i c now)) cs

-- What is left of an authorization.
abbrev fresh : Text → Authorization → Bool
fresh id a = has_id id a && is_none a.consumed_at_ms

-- An authorization that is used up: it is there, and no row of it is left to consume.
record IsSpent (id : Text) (db : Authorizations) : Type 0 where
  is_there : 1 ≤ count_where (has_id id) db
  none_fresh : count_where (fresh id) db ≡ 0

any_of_count :
    (q p : Authorization → Bool) (db : Authorizations)
    → ((a : Authorization) → q a ≡ true → p a ≡ true)
    → 1 ≤ count_where q db
    → any_where p db ≡ true
any_of_count q p [] imp h = absurd (omega arith)
any_of_count q p (a ∷ db) imp h = ground (arith, imp a, any_of_count q p db imp)

authorize-IsKeyed :
    (db : Authorizations) (id : Text) (c : Claim) (exp : ℕ) (key : Text) (now : ℕ)
    → IsKeyed db
    → IsKeyed (rows_after db (authorize_chain_callback db id c exp key now))
unfolding authorize_chain_callback
authorize-IsKeyed db id c exp key now v i =
    elim (Bool-cases
      (leb exp now || any_where (λ a. has_id id a || text_eq a.idempotency_key key) db)) [
        | inl e ↦ ground (arith, v i)
        | inr e ↦ ground (
          arith,
          v i,
          count-append (has_id i) db (
              record {
                authorization_id = id;
                bound = binding_of c;
                expires_at_ms = exp;
                consumed_at_ms = none;
                idempotency_key = key;
                created_at_ms = now;
              }
              ∷ []),
          text_eq_iff id i,
          count_of_any_false (λ a. has_id id a || text_eq a.idempotency_key key) (has_id id) db,
        )
      ]

consume-IsKeyed :
    (db : Authorizations) (id : Text) (c : Claim) (now : ℕ)
    → IsKeyed db
    → IsKeyed (rows_after db (consume_chain_callback db id c now))
unfolding consume_chain_callback
consume-IsKeyed db id c now v i =
    ground (arith, v i, count-update_key (has_id i) (usable id c now) (consumed now) db (λ a. refl))

step-IsKeyed : (db : Authorizations) (c : Call) → IsKeyed db → IsKeyed (step db c)
unfolding step
step-IsKeyed db (authorizes id c exp key now) v = authorize-IsKeyed db id c exp key now v
step-IsKeyed db (consumes id c now) v = consume-IsKeyed db id c now v

-- A used authorization cannot be written again: its id is taken.
authorize-IsSpent :
    (id : Text) (db : Authorizations) (i : Text) (c : Claim) (exp : ℕ) (key : Text) (now : ℕ)
    → IsSpent id db
    → IsSpent id (rows_after db (authorize_chain_callback db i c exp key now))
unfolding authorize_chain_callback
authorize-IsSpent id db i c exp key now s =
    elim (Bool-cases
      (leb exp now || any_where (λ a. has_id i a || text_eq a.idempotency_key key) db)) [
        | inl e ↦ ground (arith, s)
        | inr e ↦ elim (Bool-cases (text_eq i id)) [
          | inl same ↦ absurd (
              ground (
                arith,
                s.is_there,
                (text_eq_iff i id).0 same,
                any_of_count (has_id id) (λ a. has_id id a || text_eq a.idempotency_key key) db
                    (λ a h. ground arith),
              ))
          | inr other ↦ rw (authorize_appends e) (record {
            is_there = ground (arith, s.is_there, count-append (has_id id) db (new ∷ []));
            none_fresh = ground (arith, s.none_fresh, count-append (fresh id) db (new ∷ []));
          })
        ]
      ]
  where
    new : Authorization
    new = record {
      authorization_id = i;
      bound = binding_of c;
      expires_at_ms = exp;
      consumed_at_ms = none;
      idempotency_key = key;
      created_at_ms = now;
    }

    authorize_appends :
        (leb exp now || any_where (λ a. has_id i a || text_eq a.idempotency_key key) db) ≡ false
        → rows_after db (authorize_chain_callback db i c exp key now) ≡ db ++ new ∷ []
    authorize_appends e = ground arith

consume-IsSpent :
    (id : Text) (db : Authorizations) (i : Text) (c : Claim) (now : ℕ)
    → IsSpent id db
    → IsSpent id (rows_after db (consume_chain_callback db i c now))
unfolding consume_chain_callback
consume-IsSpent id db i c now s = elim (Bool-cases (count_where (usable i c now) db == 1)) [
  | inr e ↦ rw e s
  | inl e ↦ rw e (record {
    is_there = omega (
      arith,
      s.is_there,
      count-update_key (has_id id) (usable i c now) (consumed now) db (λ a. refl),
    );
    none_fresh = omega (
      arith,
      s.none_fresh,
      count-update_le (fresh id) (usable i c now) (consumed now) db (λ a u h. ground arith),
    );
  })
]

step-IsSpent : (id : Text) (db : Authorizations) (c : Call) → IsSpent id db → IsSpent id (step db c)
unfolding step
step-IsSpent id db (authorizes i c exp key now) s = authorize-IsSpent id db i c exp key now s
step-IsSpent id db (consumes i c now) s = consume-IsSpent id db i c now s

spent_refuses :
    (id : Text) (db : Authorizations) (c : Claim) (now : ℕ)
    → IsSpent id db
    → succeeded (consume_chain_callback db id c now) ≡ false
unfolding consume_chain_callback
spent_refuses id db c now s =
    ground (arith, s.none_fresh, count-imp_le (usable id c now) (fresh id) db (λ a h. ground arith))

spent_zero :
    (id : Text) (cs : List Call) (db : Authorizations) → IsSpent id db → consumptions id db cs ≡ 0
unfolding consumptions
spent_zero id [] db s = refl
spent_zero id (authorizes i c exp key now ∷ cs) db s =
    spent_zero id cs _ (step-IsSpent id db (authorizes i c exp key now) s)
spent_zero id (consumes i c now ∷ cs) db s = ground (
  arith,
  text_eq_iff i id,
  spent_refuses id db c now s,
  spent_zero id cs _ (step-IsSpent id db (consumes i c now) s),
)

-- A consumption that succeeds uses the authorization up.
success_spends :
    (id : Text) (db : Authorizations) (c : Claim) (now : ℕ)
    → IsKeyed db
    → succeeded (consume_chain_callback db id c now) ≡ true
    → IsSpent id (rows_after db (consume_chain_callback db id c now))
unfolding consume_chain_callback
success_spends id db c now v h = elim (Bool-cases (count_where (usable id c now) db == 1)) [
  | inr e ↦ absurd (ground arith)
  | inl e ↦ rw e (record {
    is_there = ground (
      arith,
      count-imp_le (usable id c now) (has_id id) db (λ a u. ground arith),
      count-update_key (has_id id) (usable id c now) (consumed now) db (λ a. refl),
    );
    none_fresh = count_zero (fresh id) _ (
        All-update_to (λ a. has_id id a ≡ true → usable id c now a ≡ true) (λ a. fresh id a ≡ false)
          (usable id c now) (consumed now) db (λ a u k. ground arith) (λ a u k. missed a u k)
          (unique_covers (usable id c now) (has_id id) db (λ a u. ground arith) (v id)
            (ground arith)));
  })
]
  where
    missed :
        (a : Authorization)
        → usable id c now a ≡ false
        → (has_id id a ≡ true → usable id c now a ≡ true)
        → fresh id a ≡ false
    missed a u k = elim (Bool-cases (has_id id a)) [ inl y ↦ ground (arith, k y) | inr n ↦ rw n ]

consumed_once_from :
    (id : Text) (cs : List Call) (db : Authorizations) → IsKeyed db → consumptions id db cs ≤ 1
unfolding consumptions step
consumed_once_from id [] db v = omega arith
consumed_once_from id (authorizes i c exp key now ∷ cs) db v =
    consumed_once_from id cs _ (step-IsKeyed db (authorizes i c exp key now) v)
consumed_once_from id (consumes i c now ∷ cs) db v =
    elim (Bool-cases (text_eq i id && succeeded (consume_chain_callback db i c now))) [
      | inr e ↦ ground (arith, e, consumed_once_from id cs _ (step-IsKeyed db (consumes i c now) v))
      | inl e ↦
          let same : i ≡ id = (text_eq_iff i id).0 (ground arith) in
          ground (arith, spent_zero id cs _ (spends same (ground arith)))
    ]
  where
    spends :
        i ≡ id
        → succeeded (consume_chain_callback db i c now) ≡ true
        → IsSpent id (step db (consumes i c now))
    spends same won = rw (← same) (success_spends i db c now v won)

-- From an empty table, along any history of authorizations and consumptions, the consumptions of
-- one authorization id that succeed are at most one.
pub consumed_once : (id : Text) (cs : List Call) → consumptions id [] cs ≤ 1
consumed_once id cs = consumed_once_from id cs [] (λ i. omega arith)
