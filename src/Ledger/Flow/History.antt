-- ===== src/Ledger/Flow/History.antt =====
-- The sessions along any history of calls.
use funi.Common.{
  ℕ, ◌+◌, ◌≤◌, ◌<◌, ◌≡◌, refl, ◌∙◌, ◌⊎◌, inl, inr, Bool, true, false, not, ◌&&◌, ◌||◌, Option, none,
  some, List, [], ◌∷◌, ◌++◌, arith, Text, text_eq, text_eq_iff, Result, ok, err, after, ◌>>=◌,
  leb→le, Bool-cases, Result-cases, ltb, leb, ◌==◌, count_where, any_where, update_where,
  count-append, count-update_le, count-update_zero, count_of_any_false, Tracks, Tracks-refl,
  Tracks-append, Tracks-update, Tracks-trans,
}
use funi.Ledger.Flow.Defs.{
  FlowStatus, is_active, Session, Flows, Error, is_safe_integer, is_expired, scope_of, active_in,
  overdue_in, closed_as, CreateInput, new_session, retired, insert_session, create_telegram_flow,
  overdue_session, expire_session, telegram_flow, CasInput, cas_matches, cas_applied, cas_update,
  cas_reply, optional_expiry, transition_telegram_flow_cas, recover_telegram_flows,
}

pub record IsExclusive (db : Flows) : Type 0 where
  pub one_active : (sc : Text) → count_where (active_in sc) db ≤ 1
  pub id_unique : (id : Text) → count_where (λ s. text_eq s.session_id id) db ≤ 1

pub record Moves (s s' : Session) : Type 0 where
  pub same_session : s'.session_id ≡ s.session_id
  pub same_user : s'.user_id ≡ s.user_id
  pub same_chat : s'.chat_id ≡ s.chat_id
  pub revised : (s' ≡ s) ⊎ (s.flow_revision < s'.flow_revision)

Moves-refl : (s : Session) → Moves s s
Moves-refl s = record {
  same_session = refl;
  same_user = refl;
  same_chat = refl;
  revised = inl refl;
}

Moves-trans : (r s t : Session) → Moves r s → Moves s t → Moves r t
Moves-trans r s t f g = record {
  same_session = g.same_session ∙ f.same_session;
  same_user = g.same_user ∙ f.same_user;
  same_chat = g.same_chat ∙ f.same_chat;
  revised = ground (arith, f.revised, g.revised);
}

Moves-closed : (st : FlowStatus) (now : ℕ) (s : Session) → Moves s (closed_as st now s)
Moves-closed st now s = record {
  same_session = refl;
  same_user = refl;
  same_chat = refl;
  revised = inr (omega arith);
}

Moves-applied : (i : CasInput) (e : Option ℕ) (s : Session) → Moves s (cas_applied i e s)
Moves-applied i e s = record {
  same_session = refl;
  same_user = refl;
  same_chat = refl;
  revised = inr (omega arith);
}

pub record Evolves (db db' : Flows) : Type 0 where
  pub exclusive : IsExclusive db → IsExclusive db'
  pub sessions : Tracks Moves db db'

Evolves-refl : (db : Flows) → Evolves db db
Evolves-refl db = record { exclusive = λ v. v; sessions = Tracks-refl Moves Moves-refl db }

Evolves-trans : (a b c : Flows) → Evolves a b → Evolves b c → Evolves a c
Evolves-trans a b c e f = record {
  exclusive = λ v. f.exclusive (e.exclusive v);
  sessions = Tracks-trans Moves Moves-trans a b c e.sessions f.sessions;
}

-- Closing sessions, whichever they are, opens none.
closing-Evolves :
    (p : Session → Bool) (st : FlowStatus) (now : ℕ) (db : Flows)
    → is_active st ≡ false
    → Evolves db (update_where p (closed_as st now) db)
closing-Evolves p st now db h = record {
  exclusive = λ v. record {
    one_active = λ sc. omega (
      arith,
      v.one_active sc,
      count-update_le (active_in sc) p (closed_as st now) db (λ s e q. ground arith),
    );
    id_unique = λ id. omega (
      arith,
      v.id_unique id,
      count-update_le (λ s. text_eq s.session_id id) p (closed_as st now) db (λ s e q. q),
    );
  };
  sessions = Tracks-update Moves Moves-refl p (closed_as st now) db (λ s e. Moves-closed st now s);
}

retired-Evolves : (i : CreateInput) (db : Flows) → Evolves db (retired i db)
retired-Evolves i db =
    let expired : Flows =
      update_where (overdue_in (scope_of i.user_id i.chat_id) i.now)
        (closed_as FlowStatus.expired i.now) db in
    Evolves-trans db expired (retired i db)
      (closing-Evolves (overdue_in (scope_of i.user_id i.chat_id) i.now) FlowStatus.expired i.now db
        refl)
      (closing-Evolves (active_in (scope_of i.user_id i.chat_id)) FlowStatus.superseded i.now
        expired refl)

-- After the two UPDATEs of a creation the scope has no active session.
pub retired_none_active :
    (i : CreateInput) (db : Flows)
    → count_where (active_in (scope_of i.user_id i.chat_id)) (retired i db) ≡ 0
retired_none_active i db =
    count-update_zero (active_in (scope_of i.user_id i.chat_id))
      (active_in (scope_of i.user_id i.chat_id)) (closed_as FlowStatus.superseded i.now)
      (update_where (overdue_in (scope_of i.user_id i.chat_id) i.now)
        (closed_as FlowStatus.expired i.now) db)
      (λ s h. h) (λ s h. ground arith)

-- A new row with a new id, in a scope with no active session.
pub append-Evolves :
    (db : Flows) (s : Session)
    → any_where (λ x. text_eq x.session_id s.session_id) db ≡ false
    → count_where (active_in (scope_of s.user_id s.chat_id)) db ≡ 0
    → Evolves db (db ++ s ∷ [])
append-Evolves db s fresh none_active = record {
  exclusive = λ v. record {
    one_active = λ sc. ground (
      arith,
      v.one_active sc,
      count-append (active_in sc) db (s ∷ []),
      text_eq_iff (scope_of s.user_id s.chat_id) sc,
    );
    id_unique = λ id. unique_id v id;
  };
  sessions = Tracks-append Moves Moves-refl db (s ∷ []);
}
  where
    new_id :
        (id : Text)
        → text_eq s.session_id id ≡ true
        → count_where (λ x. text_eq x.session_id id) db ≡ 0
    new_id id h =
        count_of_any_false (λ x. text_eq x.session_id s.session_id) (λ x. text_eq x.session_id id)
          db fresh
          (λ x e. ground (
            arith,
            text_eq_iff x.session_id s.session_id,
            text_eq_iff x.session_id id,
            text_eq_iff s.session_id id,
          ))

    unique_id :
        IsExclusive db → (id : Text) → count_where (λ x. text_eq x.session_id id) (db ++ s ∷ []) ≤ 1
    unique_id v id =
        ground (
          arith,
          v.id_unique id,
          count-append (λ x. text_eq x.session_id id) db (s ∷ []),
          new_id id,
        )

insert-Evolves :
    (db : Flows) (s : Session)
    → count_where (active_in (scope_of s.user_id s.chat_id)) db ≡ 0
    → Evolves db (after db (insert_session s db >>= λ db'. ok (db', s)))
unfolding insert_session
insert-Evolves db s none_active =
    elim (Bool-cases (
      any_where (λ x. text_eq x.session_id s.session_id) db
      || (is_active s.status && any_where (active_in (scope_of s.user_id s.chat_id)) db))) [
        | inl e ↦ rw e (Evolves-refl db)
        | inr e ↦ rw e (append-Evolves db s (ground arith) none_active)
      ]

-- Of two writes of one transaction, the second acts on what the first leaves.
pub chained-Evolves :
    {A : Type 0} (a b : Flows) (m : Result Error (Flows × A))
    → Evolves a b
    → Evolves b (after b m)
    → Evolves a (after a m)
chained-Evolves a b (ok (c, x)) e f = Evolves-trans a b c e f
chained-Evolves a b (err x) e f = Evolves-refl a

pub create-Evolves :
    (db : Flows) (i : CreateInput) → Evolves db (after db (create_telegram_flow db i))
unfolding create_telegram_flow
create-Evolves db i =
    elim (Bool-cases
      (not (is_safe_integer i.now) || (not (is_safe_integer i.ttl_ms) || i.ttl_ms == 0))) [
        | inl e ↦ rw e (Evolves-refl db)
        | inr e ↦ rw e (
            chained-Evolves db (retired i db)
              (insert_session (new_session i (i.now + i.ttl_ms)) (retired i db) >>= λ db'.
                ok (db', new_session i (i.now + i.ttl_ms)))
              (retired-Evolves i db)
              (insert-Evolves (retired i db) (new_session i (i.now + i.ttl_ms))
                (retired_none_active i db)))
      ]

pub expire-Evolves :
    (db : Flows) (sc id : Text) (now : ℕ) → Evolves db (expire_session db sc id now)
unfolding expire_session
expire-Evolves db sc id now =
    closing-Evolves (overdue_session sc id now) FlowStatus.expired now db refl

pub flow-Evolves :
    (db : Flows) (u c : Text) (id : Option Text) (now : ℕ)
    → Evolves db (telegram_flow db u c id now).0
unfolding telegram_flow
flow-Evolves db u c none now = Evolves-refl db
flow-Evolves db u c (some id) now = expire-Evolves db (scope_of u c) id now

pub recover-Evolves : (db : Flows) (now : ℕ) → Evolves db (recover_telegram_flows db now).0
unfolding recover_telegram_flows
recover-Evolves db now =
    closing-Evolves (λ s. is_active s.status && is_expired s.expires_at_ms now) FlowStatus.expired
      now db refl

-- The UPDATE of the compare-and-set reaches sessions of its own scope only, and is undone where it
-- would leave that scope two active ones.
cas_update-Evolves :
    (db : Flows) (i : CasInput) (e : Option ℕ)
    → leb
        (count_where
          (active_in (scope_of i.user_id i.chat_id))
          (update_where (cas_matches i) (cas_applied i e) db))
        1
      ≡ true
    → Evolves db (update_where (cas_matches i) (cas_applied i e) db)
cas_update-Evolves db i e h = record {
  exclusive = λ v. record {
    one_active = λ sc. elim (Bool-cases (text_eq (scope_of i.user_id i.chat_id) sc)) [
      | inl q ↦ rw (← (text_eq_iff (scope_of i.user_id i.chat_id) sc).0 q) (leb→le _ _ h)
      | inr q ↦ omega (
        arith,
        v.one_active sc,
        count-update_le (active_in sc) (cas_matches i) (cas_applied i e) db (λ s m a. ground (
          arith,
          text_eq_iff (scope_of s.user_id s.chat_id) sc,
          text_eq_iff (scope_of s.user_id s.chat_id) (scope_of i.user_id i.chat_id),
          text_eq_iff (scope_of i.user_id i.chat_id) sc,
        )),
      )
    ];
    id_unique = λ id. omega (
      arith,
      v.id_unique id,
      count-update_le (λ s. text_eq s.session_id id) (cas_matches i) (cas_applied i e) db
          (λ s m q. q),
    );
  };
  sessions =
      Tracks-update Moves Moves-refl (cas_matches i) (cas_applied i e) db
        (λ s m. Moves-applied i e s);
}

-- The session is looked up after the UPDATE, which may expire it.
cas-Evolves_from :
    (db : Flows) (i : CasInput) (e : Option ℕ)
    → Evolves db (
        after db
          (cas_update db i e >>= λ db'. cas_reply i (ltb 0 (count_where (cas_matches i) db)) db'))
unfolding cas_update cas_reply telegram_flow
cas-Evolves_from db i e =
    elim (Bool-cases (
      leb
        (count_where (active_in (scope_of i.user_id i.chat_id))
          (update_where (cas_matches i) (cas_applied i e) db))
        1)) [
          | inr h ↦ rw h (Evolves-refl db)
          | inl h ↦ rw h (
              Evolves-trans db (update_where (cas_matches i) (cas_applied i e) db) _
                (cas_update-Evolves db i e h)
                (expire-Evolves (update_where (cas_matches i) (cas_applied i e) db)
                  (scope_of i.user_id i.chat_id) i.session_id i.now))
        ]

pub cas-Evolves :
    (db : Flows) (i : CasInput) → Evolves db (after db (transition_telegram_flow_cas db i))
unfolding transition_telegram_flow_cas
cas-Evolves db i = elim (Result-cases (optional_expiry i.now i.ttl_ms)) [
  | inl (e, h) ↦ rw h (cas-Evolves_from db i e)
  | inr (x, h) ↦ rw h (Evolves-refl db)
]

-- The calls that write sessions; one that throws leaves them as they were. A hydration writes them
-- by its compare-and-set, and a cancellation is one.
pub data Call : Type 0 where
  creates : CreateInput → Call
  looks_up : Text → Text → Option Text → ℕ → Call
  transitions : CasInput → Call
  recovers : ℕ → Call

unfoldable pub step : Flows → Call → Flows
step db (creates i) = after db (create_telegram_flow db i)
step db (looks_up u c id now) = (telegram_flow db u c id now).0
step db (transitions i) = after db (transition_telegram_flow_cas db i)
step db (recovers now) = (recover_telegram_flows db now).0

unfoldable pub run : Flows → List Call → Flows
unfolding step
run db [] = db
run db (c ∷ cs) = run (step db c) cs

step-Evolves : (db : Flows) (c : Call) → Evolves db (step db c)
unfolding step
step-Evolves db (creates i) = create-Evolves db i
step-Evolves db (looks_up u c id now) = flow-Evolves db u c id now
step-Evolves db (transitions i) = cas-Evolves db i
step-Evolves db (recovers now) = recover-Evolves db now

pub run-Evolves : (cs : List Call) (db : Flows) → Evolves db (run db cs)
unfolding run
run-Evolves [] db = Evolves-refl db
run-Evolves (c ∷ cs) db =
    Evolves-trans db (step db c) (run (step db c) cs) (step-Evolves db c)
      (run-Evolves cs (step db c))

-- Along any history of calls every session stays at its place with its id, user and chat, and is
-- either exactly as it was or has a larger revision.
pub run_revises : (cs : List Call) (db : Flows) → Tracks Moves db (run db cs)
run_revises cs db = (run-Evolves cs db).sessions
