-- ===== src/Ledger/Flow/Defs.antt =====
-- The rows of `telegram_flow_sessions` and the methods of the repository on them.
use funi.Common.{
  ℕ, ◌+◌, Bool, true, false, not, ◌&&◌, ◌||◌, Option, none, some, List, [], ◌∷◌, ◌++◌, Text, text,
  text_eq, ltb, leb, ◌==◌, if◌then◌else◌, coalesce, Result, ok, err, ◌>>=◌, count_where, any_where,
  update_where, select_where,
}

pub data FlowStatus : Type 0 where
  active expired cancelled completed superseded : FlowStatus

abbrev pub is_active : FlowStatus → Bool
is_active FlowStatus.active = true
is_active _ = false

abbrev pub code : FlowStatus → ℕ
code FlowStatus.active = 0
code FlowStatus.expired = 1
code FlowStatus.cancelled = 2
code FlowStatus.completed = 3
code FlowStatus.superseded = 4

abbrev pub status_eq : FlowStatus → FlowStatus → Bool
status_eq a b = code a == code b

pub record FlowState : Type 0 where
  pub kind : Option Text
  pub json : Text

pub record Session : Type 0 where
  pub session_id : Text
  pub user_id : Text
  pub chat_id : Text
  pub state : FlowState
  pub status : FlowStatus
  pub flow_revision : ℕ
  pub created_at_ms : ℕ
  pub updated_at_ms : ℕ
  pub expires_at_ms : ℕ

abbrev pub Flows : Type 0
Flows = List Session

pub data Error : Type 0 where
  invalid_clock constraint_failed : Error

-- `Number.isSafeInteger` on a natural number.
abbrev pub is_safe_integer : ℕ → Bool
is_safe_integer n = ltb n 9007199254740992

unfoldable pub compute_expires_at : ℕ → ℕ → Result Error ℕ
compute_expires_at now ttl_ms =
    if not (is_safe_integer now) || (not (is_safe_integer ttl_ms) || ttl_ms == 0)
    then err invalid_clock
    else ok (now + ttl_ms)

-- `isExpired`
abbrev pub is_expired : ℕ → ℕ → Bool
is_expired expires_at_ms now = leb expires_at_ms now

-- `${userId}:${chatId}`, the column `scope`.
abbrev pub scope_of : Text → Text → Text
scope_of u c = u ++ (b':' ∷ c)

abbrev pub in_scope : Text → Session → Bool
in_scope sc s = text_eq (scope_of s.user_id s.chat_id) sc

abbrev pub active_in : Text → Session → Bool
active_in sc s = in_scope sc s && is_active s.status

abbrev pub overdue_in : Text → ℕ → Session → Bool
overdue_in sc now s = active_in sc s && is_expired s.expires_at_ms now

-- `SET status=?,flow_revision=flow_revision+1,updated_at_ms=?`
abbrev pub closed_as : FlowStatus → ℕ → Session → Session
closed_as st now s = record s {
  status = st;
  flow_revision = s.flow_revision + 1;
  updated_at_ms = now;
}

pub record CreateInput : Type 0 where
  pub user_id : Text
  pub chat_id : Text
  pub state : FlowState
  pub now : ℕ
  pub ttl_ms : ℕ
  pub session_id : Text

abbrev pub new_session : CreateInput → ℕ → Session
new_session i expires_at_ms = record {
  session_id = i.session_id;
  user_id = i.user_id;
  chat_id = i.chat_id;
  state = i.state;
  status = FlowStatus.active;
  flow_revision = 0;
  created_at_ms = i.now;
  updated_at_ms = i.now;
  expires_at_ms = expires_at_ms;
}

-- The two UPDATEs of the transaction: overdue sessions of the scope expire, the others give way.
abbrev pub retired : CreateInput → Flows → Flows
retired i db =
    let sc = scope_of i.user_id i.chat_id in
    update_where (active_in sc) (closed_as FlowStatus.superseded i.now)
      (update_where (overdue_in sc i.now) (closed_as FlowStatus.expired i.now) db)

-- The INSERT, under the primary key and the unique index on the active session of a scope.
unfoldable pub insert_session : Session → Flows → Result Error Flows
insert_session s db =
    if any_where (λ x. text_eq x.session_id s.session_id) db
      || (is_active s.status && any_where (active_in (scope_of s.user_id s.chat_id)) db)
    then err constraint_failed
    else ok (db ++ s ∷ [])

-- `createTelegramFlow`
unfoldable pub create_telegram_flow : Flows → CreateInput → Result Error (Flows × Session)
unfolding insert_session compute_expires_at
create_telegram_flow db i = do
  expires_at_ms ← compute_expires_at i.now i.ttl_ms
  db' ← insert_session (new_session i expires_at_ms) (retired i db)
  ok (db', new_session i expires_at_ms)

-- `ORDER BY updated_at_ms DESC,created_at_ms DESC LIMIT 1`: the first of the latest rows.
abbrev is_later : Session → Session → Bool
is_later a b =
    ltb b.updated_at_ms a.updated_at_ms
    || (a.updated_at_ms == b.updated_at_ms && ltb b.created_at_ms a.created_at_ms)

unfoldable pub latest : List Session → Option Session
latest [] = none
latest (s ∷ ss) = elim (latest ss) [
  | none ↦ some s
  | some t ↦ if is_later t s then some t else some s
]

abbrev pub is_session : Text → Text → Session → Bool
is_session sc id s = in_scope sc s && text_eq s.session_id id

abbrev pub overdue_session : Text → Text → ℕ → Session → Bool
overdue_session sc id now s =
    is_session sc id s && (is_active s.status && is_expired s.expires_at_ms now)

-- `telegramFlow` with a session id: the overdue session expires first.
unfoldable pub expire_session : Flows → Text → Text → ℕ → Flows
expire_session db sc id now =
    update_where (overdue_session sc id now) (closed_as FlowStatus.expired now) db

unfoldable pub telegram_flow : Flows → Text → Text → Option Text → ℕ → Flows × Option Session
unfolding expire_session latest
telegram_flow db u c none now = (db, latest (select_where (in_scope (scope_of u c)) db))
telegram_flow db u c (some id) now =
    let db' = expire_session db (scope_of u c) id now in
    (db', latest (select_where (is_session (scope_of u c) id) db'))

-- `activeTelegramFlow`
unfoldable pub active_telegram_flow : Flows → Text → Text → ℕ → Option Session
unfolding latest
active_telegram_flow db u c now =
    latest
      (select_where (λ s. active_in (scope_of u c) s && not (is_expired s.expires_at_ms now)) db)

pub record CasInput : Type 0 where
  pub user_id : Text
  pub chat_id : Text
  pub session_id : Text
  pub expected_revision : ℕ
  pub next_state : FlowState
  pub expected_status : Option FlowStatus
  pub next_status : Option FlowStatus
  pub now : ℕ
  pub ttl_ms : Option ℕ

pub data CasOutcome : Type 0 where
  applied revision_conflict status_conflict not_found : CasOutcome

pub record CasResult : Type 0 where
  pub result : CasOutcome
  pub expected_revision : ℕ
  pub observed_revision : Option ℕ
  pub resulting_revision : Option ℕ
  pub previous_kind : Option Text
  pub requested_next_kind : Text
  pub flow : Option Session

unfoldable pub optional_expiry : ℕ → Option ℕ → Result Error (Option ℕ)
unfolding compute_expires_at
optional_expiry now none = ok none
optional_expiry now (some ttl) = compute_expires_at now ttl >>= λ t. ok (some t)

-- The optional parts of the WHERE clause, by `expectedStatus`.
abbrev pub meets_expected : Option FlowStatus → ℕ → Session → Bool
meets_expected none now s = true
meets_expected (some FlowStatus.active) now s = is_active s.status && ltb now s.expires_at_ms
meets_expected (some st) now s = status_eq s.status st

abbrev pub cas_matches : CasInput → Session → Bool
cas_matches i s =
    is_session (scope_of i.user_id i.chat_id) i.session_id s
    && (s.flow_revision == i.expected_revision && meets_expected i.expected_status i.now s)

abbrev pub cas_applied : CasInput → Option ℕ → Session → Session
cas_applied i expires s = record s {
  state = i.next_state;
  status = coalesce i.next_status s.status;
  flow_revision = s.flow_revision + 1;
  updated_at_ms = i.now;
  expires_at_ms = coalesce expires s.expires_at_ms;
}

abbrev kind_of : FlowState → Text
kind_of s = coalesce s.kind (text "unknown")

abbrev status_differs : Option FlowStatus → Session → Bool
status_differs none s = false
status_differs (some st) s = not (status_eq s.status st)

abbrev pub cas_result : CasInput → Bool → Option Session → CasResult
cas_result i changed none = record {
  result = not_found;
  expected_revision = i.expected_revision;
  observed_revision = none;
  resulting_revision = none;
  previous_kind = none;
  requested_next_kind = kind_of i.next_state;
  flow = none;
}
cas_result i true (some s) = record {
  result = applied;
  expected_revision = i.expected_revision;
  observed_revision = some i.expected_revision;
  resulting_revision = some s.flow_revision;
  previous_kind = none;
  requested_next_kind = kind_of i.next_state;
  flow = some s;
}
cas_result i false (some s) = record {
  result = if status_differs i.expected_status s then status_conflict else revision_conflict;
  expected_revision = i.expected_revision;
  observed_revision = some s.flow_revision;
  resulting_revision = none;
  previous_kind = some (kind_of s.state);
  requested_next_kind = kind_of i.next_state;
  flow = some s;
}

-- The UPDATE, which fails as a whole where it would leave a scope two active sessions.
unfoldable pub cas_update : Flows → CasInput → Option ℕ → Result Error Flows
cas_update db i expires =
    let db' = update_where (cas_matches i) (cas_applied i expires) db in
    if leb (count_where (active_in (scope_of i.user_id i.chat_id)) db') 1
    then ok db'
    else err constraint_failed

-- The lookup behind the UPDATE, and the result by what it finds.
unfoldable pub cas_reply : CasInput → Bool → Flows → Result Error (Flows × CasResult)
unfolding telegram_flow
cas_reply i changed db =
    let (db', current) = telegram_flow db i.user_id i.chat_id (some i.session_id) i.now in
    ok (db', cas_result i changed current)

-- `transitionTelegramFlowCAS`
unfoldable pub transition_telegram_flow_cas : Flows → CasInput → Result Error (Flows × CasResult)
unfolding optional_expiry cas_update cas_reply
transition_telegram_flow_cas db i = do
  expires ← optional_expiry i.now i.ttl_ms
  db' ← cas_update db i expires
  cas_reply i (ltb 0 (count_where (cas_matches i) db)) db'

-- `cancelTelegramFlow`
unfoldable pub cancel_telegram_flow :
    Flows → Text → Text → Text → ℕ → FlowState → ℕ → Result Error (Flows × CasResult)
unfolding transition_telegram_flow_cas
cancel_telegram_flow db u c id revision state now = transition_telegram_flow_cas db (record {
  user_id = u;
  chat_id = c;
  session_id = id;
  expected_revision = revision;
  next_state = state;
  expected_status = some FlowStatus.active;
  next_status = some FlowStatus.cancelled;
  now = now;
  ttl_ms = none;
})

-- `recoverTelegramFlows`: the new table and the number of sessions that expired.
unfoldable pub recover_telegram_flows : Flows → ℕ → Flows × ℕ
recover_telegram_flows db now =
    let overdue = λ (s : Session). is_active s.status && is_expired s.expires_at_ms now in
    (update_where overdue (closed_as FlowStatus.expired now) db, count_where overdue db)

-- A row of `v4_pool_selections`, as a hydration writes it.
pub record Selection : Type 0 where
  pub id : Text
  pub superseded : Bool
  pub liquidity_raw : ℕ
  pub refresh_block : Option ℕ
  pub eligibility : Bool
  pub blockers : List Text

pub record SelectionUpdate : Type 0 where
  pub id : Text
  pub liquidity : ℕ
  pub refresh_block : Option ℕ
  pub eligibility : Bool
  pub blockers : List Text

unfoldable pub update_selection : SelectionUpdate → List Selection → List Selection
update_selection u =
    update_where (λ s. text_eq s.id u.id && not s.superseded)
      (λ s. record s {
        liquidity_raw = u.liquidity;
        refresh_block = u.refresh_block;
        eligibility = u.eligibility;
        blockers = u.blockers;
      })

unfoldable pub update_selections : List SelectionUpdate → List Selection → List Selection
unfolding update_selection
update_selections [] sel = sel
update_selections (u ∷ us) sel = update_selections us (update_selection u sel)

abbrev is_applied : CasOutcome → Bool
is_applied applied = true
is_applied _ = false

-- `applyTelegramHydrationRender`: the selections are written only with the session's transition.
unfoldable pub apply_telegram_hydration_render :
    Flows
    → List Selection
    → CasInput
    → List SelectionUpdate
    → Result Error (Flows × List Selection × CasResult)
unfolding transition_telegram_flow_cas update_selections
apply_telegram_hydration_render db sel i us = do
  (db', r) ←
      transition_telegram_flow_cas db
        (record i { expected_status = some FlowStatus.active; next_status = none })
  ok (db', if is_applied r.result then update_selections us sel else sel, r)
