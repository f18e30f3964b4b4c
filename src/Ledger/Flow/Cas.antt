-- ===== src/Ledger/Flow/Cas.antt =====
-- What the compare-and-set and the creation of a session achieve.
use funi.Common.{
  ℕ, ◌≤◌, ◌<◌, ◌≡◌, refl, ◌≢◌, inl, inr, Bool, true, false, Option, none, some, arith, All, Text,
  text_eq, ok, ltb→lt, select_where, ◌>>=◌, Bool-cases, Result-cases, ltb, leb, count_where,
  first_where, update_where, count_of_none, Option-cases, first_where-All, first_where-true,
  count_unique_false, count-update_key, Tracks-first, List, All-update, All-update_to,
  unique_covers, count-imp_le,
}
use funi.Ledger.Flow.Defs.{
  FlowStatus, Session, Flows, scope_of, active_in, closed_as, is_session, overdue_session,
  expire_session, telegram_flow, latest, CasInput, CasResult, cas_matches, cas_applied, cas_result,
  cas_update, cas_reply, optional_expiry, transition_telegram_flow_cas, applied,
}
use funi.Ledger.Flow.History.{IsExclusive, Moves, Call, run, run-Evolves, cas-Evolves}

-- The session of a compare-and-set is past the revision.
abbrev IsPast : Text → Text → ℕ → Session → Type 0
IsPast sc id n s = is_session sc id s ≡ true → n < s.flow_revision

module _ (db : Flows) (i : CasInput) (v : IsExclusive db)
    (hit : 1 ≤ count_where (cas_matches i) db) where
  -- The session id is unique, so the row that matched is the only one with it.
  only_match :
      All
        (λ s.
          is_session (scope_of i.user_id i.chat_id) i.session_id s ≡ true → cas_matches i s ≡ true)
        db
  only_match =
      unique_covers (cas_matches i) (is_session (scope_of i.user_id i.chat_id) i.session_id) db
        (λ s h. ground arith)
        (omega (
          arith,
          v.id_unique i.session_id,
          count-imp_le (is_session (scope_of i.user_id i.chat_id) i.session_id)
              (λ s. text_eq s.session_id i.session_id) db (λ s h. ground arith),
        ))
        hit

  All-IsPast :
      (e : Option ℕ)
      → All
          (IsPast (scope_of i.user_id i.chat_id) i.session_id i.expected_revision)
          (update_where (cas_matches i) (cas_applied i e) db)
  All-IsPast e =
      All-update_to _ (IsPast (scope_of i.user_id i.chat_id) i.session_id i.expected_revision)
        (cas_matches i) (cas_applied i e) db (λ s m only h. ground arith)
        (λ s m only h. ground (arith, only h)) only_match

IsPast-after_expiry :
    (db : Flows) (sc id sc' id' : Text) (n now : ℕ)
    → All (IsPast sc id n) db
    → All (IsPast sc id n) (expire_session db sc' id' now)
unfolding expire_session
IsPast-after_expiry db sc id sc' id' n now h =
    All-update (IsPast sc id n) (overdue_session sc' id' now) (closed_as FlowStatus.expired now) db
      (λ s e p m. omega (arith, p m)) h

-- An applied result means that the UPDATE found its row.
applied_hits :
    (i : CasInput) (changed : Bool) (o : Option Session)
    → (cas_result i changed o).result ≡ applied
    → changed ≡ true
applied_hits i true o h = refl
applied_hits i false none h = cc
applied_hits i false (some s) h = ground arith

abbrev cas_written : Flows → CasInput → Option ℕ → Flows
cas_written db i e =
    expire_session (update_where (cas_matches i) (cas_applied i e) db)
      (scope_of i.user_id i.chat_id) i.session_id i.now

-- A compare-and-set that returns has written its UPDATE, and says whether it found its row.
module _ (db db' : Flows) (i : CasInput) (r : CasResult) where
  updated_returns :
      (e : Option ℕ)
      → (cas_update db i e >>= cas_reply i (ltb 0 (count_where (cas_matches i) db))) ≡ ok (db', r)
      → (db' ≡ cas_written db i e)
        × (o : Option Session) × (r ≡ cas_result i (ltb 0 (count_where (cas_matches i) db)) o)
  unfolding cas_update cas_reply telegram_flow
  updated_returns e h =
      elim (Bool-cases (
        leb
          (count_where (active_in (scope_of i.user_id i.chat_id))
            (update_where (cas_matches i) (cas_applied i e) db))
          1)) [
            | inr n ↦ absurd (ground arith)
            | inl y ↦ (
              ground arith,
              latest (
                  select_where (is_session (scope_of i.user_id i.chat_id) i.session_id)
                    (cas_written db i e)),
              ground arith,
            )
          ]

  cas_returns :
      transition_telegram_flow_cas db i ≡ ok (db', r)
      → (e : Option ℕ) × (db' ≡ cas_written db i e)
        × (o : Option Session) × (r ≡ cas_result i (ltb 0 (count_where (cas_matches i) db)) o)
  unfolding transition_telegram_flow_cas
  cas_returns h = elim (Result-cases (optional_expiry i.now i.ttl_ms)) [
    | inr (x, q) ↦ absurd (ground arith)
    | inl (e, q) ↦ let (written, o, reply) = updated_returns e (rw q at h) in (e, written, o, reply)
  ]

-- The session id is unique, so a session that is past the revision is not matched.
past_misses :
    (db : Flows) (j : CasInput) (s : Session)
    → IsExclusive db
    → first_where (is_session (scope_of j.user_id j.chat_id) j.session_id) db ≡ some s
    → j.expected_revision < s.flow_revision
    → count_where (cas_matches j) db ≡ 0
past_misses db j s v found past =
    count_unique_false (cas_matches j) (is_session (scope_of j.user_id j.chat_id) j.session_id) db
      {x = s} (λ y h. ground arith)
      (omega (
        arith,
        v.id_unique j.session_id,
        count-imp_le (is_session (scope_of j.user_id j.chat_id) j.session_id)
            (λ s. text_eq s.session_id j.session_id) db (λ s h. ground arith),
      ))
      found (ground arith)

session_follows :
    (sc id : Text) (s s' : Session) → Moves s s' → is_session sc id s' ≡ is_session sc id s
session_follows sc id s s' m = rw (m.same_session, m.same_user, m.same_chat) refl

revision_past : (n : ℕ) (s s' : Session) → Moves s s' → n < s.flow_revision → n < s'.flow_revision
revision_past n s s' m past = ground (arith, m.revised)

own_left :
    (db : Flows) (i : CasInput) (e : Option ℕ)
    → 0 < count_where (cas_matches i) db
    → 1 ≤ count_where (is_session (scope_of i.user_id i.chat_id) i.session_id) (cas_written db i e)
unfolding expire_session
own_left db i e hit =
    let sc = scope_of i.user_id i.chat_id in
    omega (
      arith,
      hit,
      count-imp_le (cas_matches i) (is_session sc i.session_id) db (λ s h. ground arith),
      count-update_key (is_session sc i.session_id) (cas_matches i) (cas_applied i e) db
          (λ s. refl),
      count-update_key (is_session sc i.session_id) (overdue_session sc i.session_id i.now)
          (closed_as FlowStatus.expired i.now) (update_where (cas_matches i) (cas_applied i e) db)
          (λ s. refl),
    )

-- What an applied compare-and-set leaves: its session, found past the expected revision.
applied_leaves :
    (db db' : Flows) (i : CasInput) (r : CasResult)
    → IsExclusive db
    → transition_telegram_flow_cas db i ≡ ok (db', r)
    → r.result ≡ applied
    → (s : Session) × (first_where (is_session (scope_of i.user_id i.chat_id) i.session_id) db'
        ≡ some s)
      × (i.expected_revision < s.flow_revision)
applied_leaves db db' i r v ran won =
    let sc = scope_of i.user_id i.chat_id in
    let own = is_session sc i.session_id in
    let (e, written, o, reply) = cas_returns db db' i r ran in
    let hit : ltb 0 (count_where (cas_matches i) db) ≡ true =
      applied_hits i _ o (rw (← reply) won) in
    let updated = update_where (cas_matches i) (cas_applied i e) db in
    let past : All (IsPast sc i.session_id i.expected_revision) db' = rw written (
      IsPast-after_expiry updated sc i.session_id sc i.session_id i.expected_revision i.now
        (All-IsPast db i v (omega (arith, ltb→lt _ _ hit)) e)) in
    let there : 1 ≤ count_where own db' = rw written (own_left db i e (ltb→lt _ _ hit)) in
    elim (Option-cases (first_where own db')) [
      | inl lost ↦ absurd (omega (arith, there, count_of_none own db' lost))
      | inr (s, found) ↦ (
        s,
        found,
        first_where-All (IsPast sc i.session_id i.expected_revision) own db' past found
            (first_where-true own db' {x = s} found),
      )
    ]

-- Of two compare-and-sets of one session from one revision, only the first can be applied: once one
-- has returned APPLIED, then after any history of further calls on the sessions one with the same
-- user, chat, session and expected revision returns another result, whatever else it asks for.
pub applied_once :
    (db db' db'' : Flows) (cs : List Call) (i j : CasInput) (r r' : CasResult)
    → IsExclusive db
    → transition_telegram_flow_cas db i ≡ ok (db', r)
    → r.result ≡ applied
    → j.user_id ≡ i.user_id
    → j.chat_id ≡ i.chat_id
    → j.session_id ≡ i.session_id
    → j.expected_revision ≡ i.expected_revision
    → transition_telegram_flow_cas (run db' cs) j ≡ ok (db'', r')
    → r'.result ≢ applied
applied_once db db' db'' cs i j r r' v ran won u c id n again won_again =
    let now = run db' cs in
    let v' : IsExclusive db' = rw ran at (cas-Evolves db i).exclusive v in
    let (s, found, past) = applied_leaves db db' i r v ran won in
    let (s', found', moved) =
      Tracks-first Moves (is_session (scope_of i.user_id i.chat_id) i.session_id)
        (session_follows (scope_of i.user_id i.chat_id) i.session_id) db' now s
        (run-Evolves cs db').sessions found in
    let (e', written', o', reply') = cas_returns now db'' j r' again in
    let hit' : ltb 0 (count_where (cas_matches j) now) ≡ true =
      applied_hits j _ o' (rw (← reply') won_again) in
    let none_left : count_where (cas_matches j) now ≡ 0 =
      past_misses now j s' ((run-Evolves cs db').exclusive v') (rw (u, c, id) found')
        (rw n (revision_past i.expected_revision s s' moved past)) in
    omega (arith, ltb→lt _ _ hit', none_left)
