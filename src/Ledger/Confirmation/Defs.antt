-- ===== src/Ledger/Confirmation/Defs.antt =====
-- The rows of `confirmation_requests` and the methods of the repository on them.
use funi.Common.{
  ℕ, ◌+◌, Bool, true, false, not, ◌&&◌, ◌||◌, Option, none, some, List, [], ◌∷◌, ◌++◌, Text,
  text_eq, ltb, ◌==◌, if◌then◌else◌, Result, ok, err, count_where, first_where, any_where,
  update_where,
}

pub data State : Type 0 where
  draft simulated awaiting_confirmation expired cancelled execution_blocked : State
  submitted confirmed reverted reconciled : State

abbrev pub is_awaiting : State → Bool
is_awaiting State.awaiting_confirmation = true
is_awaiting _ = false

-- `state IN ('DRAFT','SIMULATED','AWAITING_CONFIRMATION')`
abbrev pub is_recoverable : State → Bool
is_recoverable State.draft = true
is_recoverable State.simulated = true
is_recoverable State.awaiting_confirmation = true
is_recoverable _ = false

pub record Request : Type 0 where
  pub id : Text
  pub idempotency_key : Text
  pub action : Text
  pub payload_json : Text
  pub state : State
  pub owner : Text
  pub block_number : Option ℕ
  pub price_observed_at : Option Text
  pub expires_at : ℕ
  pub created_at : ℕ
  pub updated_at : Option ℕ

abbrev pub Requests : Type 0
Requests = List Request

pub data Error : Type 0 where
  constraint_failed : Error
  unknown_confirmation : Error
  owner_mismatch : Error
  confirmation_is : State → Error
  preview_is_stale : Error
  pending_transaction : Error

pub record CreateInput : Type 0 where
  pub action : Text
  pub payload_json : Text
  pub expires_at : ℕ
  pub owner : Text
  pub idempotency_key : Text
  pub block_number : Option ℕ
  pub price_observed_at : Option Text

abbrev pub has_id : Text → Request → Bool
has_id id r = text_eq r.id id

abbrev pub has_key : Text → Request → Bool
has_key key r = text_eq r.idempotency_key key

abbrev pub awaits : Text → Request → Bool
awaits id r = has_id id r && is_awaiting r.state

abbrev pub moved_to : State → ℕ → Request → Request
moved_to s at r = record r { state = s; updated_at = some at }

-- `confirmation`: a request that is overdue expires first.
abbrev pub looked_up : Requests → Text → ℕ → Option Request → Requests × Option Request
looked_up db id now none = (db, none)
looked_up db id now (some r) =
    if is_awaiting r.state && ltb r.expires_at now
    then (let db' = update_where (awaits id) (moved_to State.expired now) db in
        (db', first_where (has_id id) db'))
    else (db, some r)

unfoldable pub confirmation : Requests → Text → ℕ → Requests × Option Request
confirmation db id now = looked_up db id now (first_where (has_id id) db)

abbrev pub new_request : CreateInput → Text → ℕ → Request
new_request i id now = record {
  id = id;
  idempotency_key = i.idempotency_key;
  action = i.action;
  payload_json = i.payload_json;
  state = State.awaiting_confirmation;
  owner = i.owner;
  block_number = i.block_number;
  price_observed_at = i.price_observed_at;
  expires_at = i.expires_at;
  created_at = now;
  updated_at = none;
}

abbrev pub created :
    Requests → CreateInput → Text → ℕ → Option Request → Result Error (Requests × Option Request)
created db i id now (some existing) = ok (db, some existing)
created db i id now none =
    if any_where (λ r. has_id id r || has_key i.idempotency_key r) db
    then err constraint_failed
    else ok (confirmation (db ++ new_request i id now ∷ []) id now)

-- `createConfirmation`
unfoldable pub create_confirmation :
    Requests → CreateInput → Text → ℕ → Result Error (Requests × Option Request)
unfolding confirmation
create_confirmation db i id now = created db i id now (first_where (has_key i.idempotency_key) db)

pub data Decision : Type 0 where
  confirm cancel : Decision

-- More than five blocks behind, where both blocks are known.
abbrev pub is_stale : Option ℕ → Option ℕ → Bool
is_stale (some current) (some block) = ltb (block + 5) current
is_stale _ _ = false

-- The request that is read back, which is there.
abbrev pub read_back : Requests → Text → ℕ → Requests × Result Error (Option Request)
read_back db id now = let (db', r) = confirmation db id now in (db', ok r)

abbrev pub decided :
    Requests
    → Text
    → Decision
    → Option ℕ
    → ℕ
    → ℕ
    → Request
    → Requests × Result Error (Option Request)
decided db id cancel current pending now r =
    read_back (update_where (awaits id) (moved_to State.cancelled now) db) id now
decided db id confirm current pending now r =
    if is_stale current r.block_number || not (pending == 0)
    then (
      update_where (has_id id) (moved_to State.execution_blocked now) db,
      err (if is_stale current r.block_number then preview_is_stale else pending_transaction),
    )
    else read_back (update_where (awaits id) (moved_to State.execution_blocked now) db) id now

abbrev pub checked :
    Requests
    → Text
    → Text
    → Decision
    → Option ℕ
    → ℕ
    → ℕ
    → Option Request
    → Requests × Result Error (Option Request)
checked db id owner d current pending now none = (db, err unknown_confirmation)
checked db id owner d current pending now (some r) =
    if not (text_eq r.owner owner)
    then (db, err owner_mismatch)
    else (if not (is_awaiting r.state)
        then (db, err (confirmation_is r.state))
        else decided db id d current pending now r)

-- `resolveConfirmation`, with the number of pending transactions.
unfoldable pub resolve_confirmation :
    Requests → Text → Text → Decision → Option ℕ → ℕ → ℕ → Requests × Result Error (Option Request)
unfolding confirmation
resolve_confirmation db id owner d current pending now =
    let (db', row) = confirmation db id now in checked db' id owner d current pending now row

-- `recoverConfirmations`
unfoldable pub recover_confirmations : Requests → ℕ → Requests × ℕ
recover_confirmations db now =
    let overdue = λ (r : Request). is_recoverable r.state && ltb r.expires_at now in
    (update_where overdue (moved_to State.expired now) db, count_where overdue db)

-- The calls on the table, and the table after each of them.
pub data Call : Type 0 where
  creates : CreateInput → (id : Text) → (now : ℕ) → Call
  looks_up : (id : Text) → (now : ℕ) → Call
  resolves : (id owner : Text) → Decision → (current : Option ℕ) → (pending now : ℕ) → Call
  recovers : (now : ℕ) → Call

abbrev pub rows_after : Requests → Result Error (Requests × Option Request) → Requests
rows_after db (ok (db', r)) = db'
rows_after db (err e) = db

unfoldable pub step : Requests → Call → Requests
unfolding create_confirmation confirmation resolve_confirmation recover_confirmations
step db (creates i id now) = rows_after db (create_confirmation db i id now)
step db (looks_up id now) = (confirmation db id now).0
step db (resolves id owner d current pending now) =
    (resolve_confirmation db id owner d current pending now).0
step db (recovers now) = (recover_confirmations db now).0

unfoldable pub run : Requests → List Call → Requests
unfolding step
run db [] = db
run db (c ∷ cs) = run (step db c) cs
