-- ===== src/Ledger/Confirmation/Final.antt =====
-- A request is decided once.
use funi.Common.{
  ℕ, ◌≤◌, ◌≡◌, refl, ◌∙◌, inl, inr, Bool, true, false, not, ◌&&◌, ◌||◌, Option, none, some, List,
  [], ◌∷◌, ◌++◌, arith, All, Text, text_eq, text_eq_iff, ltb, ◌==◌, Bool-cases, Option-cases,
  count_where, first_where, any_where, update_where, count-append, count-update_key,
  count_of_any_false, unique_covers, first_where-true, count_of_first, Tracks, Tracks-refl,
  Tracks-append, Tracks-update, Tracks-trans,
}
use funi.Ledger.Confirmation.Defs.{
  State, is_awaiting, is_recoverable, Request, Requests, CreateInput, has_id, has_key, awaits,
  moved_to, confirmation, new_request, create_confirmation, Decision, confirm, cancel, is_stale,
  decided, checked, resolve_confirmation, recover_confirmations, Call, creates, looks_up, resolves,
  recovers, rows_after, step, run,
}

pub record Follows (r r' : Request) : Type 0 where
  pub same_id : r'.id ≡ r.id
  pub same_owner : r'.owner ≡ r.owner
  pub same_action : r'.action ≡ r.action
  pub same_payload : r'.payload_json ≡ r.payload_json
  pub final : is_recoverable r.state ≡ false → r' ≡ r

Follows-refl : (r : Request) → Follows r r
Follows-refl r = record {
  same_id = refl;
  same_owner = refl;
  same_action = refl;
  same_payload = refl;
  final = λ _. refl;
}

Follows-trans : (r s t : Request) → Follows r s → Follows s t → Follows r t
Follows-trans r s t f g = record {
  same_id = g.same_id ∙ f.same_id;
  same_owner = g.same_owner ∙ f.same_owner;
  same_action = g.same_action ∙ f.same_action;
  same_payload = g.same_payload ∙ f.same_payload;
  final = λ h. g.final (rw (f.final h) h) ∙ f.final h;
}

Follows-moved :
    (s : State) (at : ℕ) (r : Request) → is_recoverable r.state ≡ true → Follows r (moved_to s at r)
Follows-moved s at r h = record {
  same_id = refl;
  same_owner = refl;
  same_action = refl;
  same_payload = refl;
  final = λ f. ground arith;
}

pub record Evolves (db db' : Requests) : Type 0 where
  pub keyed :
      ((id : Text) → count_where (has_id id) db ≤ 1) → (id : Text) → count_where (has_id id) db' ≤ 1
  pub requests : Tracks Follows db db'

Evolves-refl : (db : Requests) → Evolves db db
Evolves-refl db = record { keyed = λ v. v; requests = Tracks-refl Follows Follows-refl db }

Evolves-trans : (a b c : Requests) → Evolves a b → Evolves b c → Evolves a c
Evolves-trans a b c e f = record {
  keyed = λ v. f.keyed (e.keyed v);
  requests = Tracks-trans Follows Follows-trans a b c e.requests f.requests;
}

-- An UPDATE of the state that reaches undecided requests only.
moving-Evolves :
    (p : Request → Bool) (s : State) (at : ℕ) (db : Requests)
    → ((r : Request) → p r ≡ true → is_recoverable r.state ≡ true)
    → Evolves db (update_where p (moved_to s at) db)
moving-Evolves p s at db h = record {
  keyed =
      λ v id. omega (arith, v id, count-update_key (has_id id) p (moved_to s at) db (λ r. refl));
  requests =
      Tracks-update Follows Follows-refl p (moved_to s at) db (λ r m. Follows-moved s at r (h r m));
}

awaiting-Evolves :
    (id : Text) (s : State) (at : ℕ) (db : Requests)
    → Evolves db (update_where (awaits id) (moved_to s at) db)
awaiting-Evolves id s at db = moving-Evolves (awaits id) s at db (λ r m. ground arith)

-- Two clauses that agree on the rows of a table update it alike.
update_alike :
    (p q : Request → Bool) (f : Request → Request) (db : Requests)
    → ((r : Request) → p r ≡ true → q r ≡ true)
    → All (λ r. q r ≡ true → p r ≡ true) db
    → update_where q f db ≡ update_where p f db
update_alike p q f [] imp h = refl
update_alike p q f (r ∷ db) imp h = elim (Bool-cases (p r)) [
  | inl e ↦ ground (arith, imp r, update_alike p q f db imp h.1)
  | inr e ↦ elim (Bool-cases (q r)) [
    | inl m ↦ absurd (ground (arith, h.0 m))
    | inr n ↦ ground (arith, update_alike p q f db imp h.1)
  ]
]

pub confirmation-Evolves :
    (db : Requests) (id : Text) (now : ℕ) → Evolves db (confirmation db id now).0
unfolding confirmation
confirmation-Evolves db id now = elim (Option-cases (first_where (has_id id) db)) [
  | inl e ↦ rw e (Evolves-refl db)
  | inr (r, e) ↦ elim (Bool-cases (is_awaiting r.state && ltb r.expires_at now)) [
    | inl y ↦ rw (e, y) (awaiting-Evolves id State.expired now db)
    | inr n ↦ rw (e, n) (Evolves-refl db)
  ]
]

-- The request that a lookup returns is the row of its id in the table that it leaves.
confirmation_found :
    (db : Requests) (id : Text) (now : ℕ)
    → first_where (has_id id) (confirmation db id now).0 ≡ (confirmation db id now).1
unfolding confirmation
confirmation_found db id now = elim (Option-cases (first_where (has_id id) db)) [
  | inl e ↦ rw e e
  | inr (r, e) ↦ elim (Bool-cases (is_awaiting r.state && ltb r.expires_at now)) [
    | inl y ↦ rw (e, y) refl
    | inr n ↦ rw (e, n) e
  ]
]

append-Evolves :
    (db : Requests) (i : CreateInput) (id : Text) (now : ℕ)
    → any_where (λ r. has_id id r || has_key i.idempotency_key r) db ≡ false
    → Evolves db (db ++ new_request i id now ∷ [])
append-Evolves db i id now free = record {
  keyed =
      λ v x. ground (arith, v x, count-append (has_id x) db (new_request i id now ∷ []), new_id x);
  requests = Tracks-append Follows Follows-refl db (new_request i id now ∷ []);
}
  where
    new_id : (x : Text) → text_eq id x ≡ true → count_where (has_id x) db ≡ 0
    new_id x h = rw (← (text_eq_iff id x).0 h) (
        count_of_any_false (λ r. has_id id r || has_key i.idempotency_key r) (has_id id) db free
          (λ r m. ground arith))

create-Evolves :
    (db : Requests) (i : CreateInput) (id : Text) (now : ℕ)
    → Evolves db (rows_after db (create_confirmation db i id now))
unfolding create_confirmation
create-Evolves db i id now = elim (Option-cases (first_where (has_key i.idempotency_key) db)) [
  | inr (r, e) ↦ rw e (Evolves-refl db)
  | inl e ↦ elim (Bool-cases (any_where (λ r. has_id id r || has_key i.idempotency_key r) db)) [
    | inl y ↦ rw (e, y) (Evolves-refl db)
    | inr n ↦
        rw (e, n)
          (Evolves-trans db (db ++ new_request i id now ∷ []) _ (append-Evolves db i id now n)
            (confirmation-Evolves (db ++ new_request i id now ∷ []) id now))
  ]
]

-- The one UPDATE without a guard on the state reaches the request that has just been read, alone.
blocked-Evolves :
    (db : Requests) (id : Text) (now : ℕ) (r : Request)
    → count_where (has_id id) db ≤ 1
    → first_where (has_id id) db ≡ some r
    → is_awaiting r.state ≡ true
    → Evolves db (update_where (has_id id) (moved_to State.execution_blocked now) db)
blocked-Evolves db id now r one found waits =
    rw
      (update_alike (awaits id) (has_id id) (moved_to State.execution_blocked now) db
        (λ x m. ground arith)
        (unique_covers (awaits id) (has_id id) db (λ x m. ground arith) one
          (count_of_first (has_id id) (awaits id) db {x = r} found
            (ground (arith, first_where-true (has_id id) db {x = r} found)))))
      (awaiting-Evolves id State.execution_blocked now db)

module _ (db : Requests) (id owner : Text) (current : Option ℕ) (pending now : ℕ) where
  decided-Evolves :
      (d : Decision) (r : Request)
      → count_where (has_id id) db ≤ 1
      → first_where (has_id id) db ≡ some r
      → is_awaiting r.state ≡ true
      → Evolves db (decided db id d current pending now r).0
  decided-Evolves cancel r one found waits =
      Evolves-trans db (update_where (awaits id) (moved_to State.cancelled now) db) _
        (awaiting-Evolves id State.cancelled now db)
        (confirmation-Evolves (update_where (awaits id) (moved_to State.cancelled now) db) id now)
  decided-Evolves confirm r one found waits =
      elim (Bool-cases (is_stale current r.block_number || not (pending == 0))) [
        | inl y ↦ rw y (blocked-Evolves db id now r one found waits)
        | inr n ↦ rw n (
            Evolves-trans db (update_where (awaits id) (moved_to State.execution_blocked now) db) _
              (awaiting-Evolves id State.execution_blocked now db)
              (confirmation-Evolves
                (update_where (awaits id) (moved_to State.execution_blocked now) db) id now))
      ]

  checked-Evolves :
      (d : Decision) (o : Option Request)
      → count_where (has_id id) db ≤ 1
      → first_where (has_id id) db ≡ o
      → Evolves db (checked db id owner d current pending now o).0
  checked-Evolves d none one found = Evolves-refl db
  checked-Evolves d (some r) one found = elim (Bool-cases (text_eq r.owner owner)) [
    | inr n ↦ rw n (Evolves-refl db)
    | inl y ↦ elim (Bool-cases (is_awaiting r.state)) [
      | inr n ↦ rw (y, n) (Evolves-refl db)
      | inl a ↦ rw (y, a) (decided-Evolves d r one found a)
    ]
  ]

step-Evolves :
    (db : Requests) (c : Call)
    → ((id : Text) → count_where (has_id id) db ≤ 1)
    → Evolves db (step db c)
unfolding step resolve_confirmation recover_confirmations
step-Evolves db (creates i id now) v = create-Evolves db i id now
step-Evolves db (looks_up id now) v = confirmation-Evolves db id now
step-Evolves db (resolves id owner d current pending now) v =
    let looked : Evolves db (confirmation db id now).0 = confirmation-Evolves db id now in
    Evolves-trans db (confirmation db id now).0 _ looked (
      checked-Evolves (confirmation db id now).0 id owner current pending now d
        (confirmation db id now).1 (looked.keyed v id) (confirmation_found db id now))
step-Evolves db (recovers now) v =
    moving-Evolves (λ r. is_recoverable r.state && ltb r.expires_at now) State.expired now db
      (λ r m. ground arith)

run-Evolves :
    (cs : List Call) (db : Requests)
    → ((id : Text) → count_where (has_id id) db ≤ 1)
    → Evolves db (run db cs)
unfolding run
run-Evolves [] db v = Evolves-refl db
run-Evolves (c ∷ cs) db v =
    let one : Evolves db (step db c) = step-Evolves db c v in
    Evolves-trans db (step db c) (run (step db c) cs) one (run-Evolves cs (step db c) (one.keyed v))

-- In a table that calls have made from an empty one, any further calls leave every request at its
-- place with its id, owner, action and payload; and a request that is no longer a draft, simulated or
-- awaiting its confirmation never changes again.
pub decisions_are_final :
    (before later : List Call) → Tracks Follows (run [] before) (run (run [] before) later)
decisions_are_final before later =
    (run-Evolves later (run [] before)
      ((run-Evolves before [] (λ id. omega arith)).keyed (λ id. omega arith))).requests
