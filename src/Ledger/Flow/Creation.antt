-- ===== src/Ledger/Flow/Creation.antt =====
-- What the creation of a session achieves, for its own scope and for the others.
use funi.Common.{
  ℕ, ◌+◌, ◌<◌, ◌≡◌, refl, ◌∙◌, Bool, true, false, not, ◌&&◌, some, [], ◌∷◌, ◌++◌, arith, Text,
  text_eq, text_eq_refl, ok, count_where, any_where, update_where, count-append, count-imp_le,
  any-update, select-append_new, Tracks, Tracks-append, Tracks-update, Tracks-trans,
}
use funi.Ledger.Flow.Defs.{
  FlowStatus, Session, Flows, is_safe_integer, is_expired, scope_of, in_scope, active_in,
  overdue_in, closed_as, CreateInput, new_session, retired, create_telegram_flow,
  active_telegram_flow,
}
use funi.Ledger.Flow.History.{retired_none_active}

abbrev own_scope : CreateInput → Text
own_scope i = scope_of i.user_id i.chat_id

abbrev created : CreateInput → Session
created i = new_session i (i.now + i.ttl_ms)

-- Unchanged outside a scope.
abbrev pub KeepsOthers : Text → Session → Session → Type 0
KeepsOthers sc x y = in_scope sc x ≡ false → y ≡ x

KeepsOthers-trans :
    (sc : Text) (x y z : Session) → KeepsOthers sc x y → KeepsOthers sc y z → KeepsOthers sc x z
KeepsOthers-trans sc x y z f g h = g (rw (f h) h) ∙ f h

retired-KeepsOthers :
    (i : CreateInput) (db : Flows) → Tracks (KeepsOthers (own_scope i)) db (retired i db)
retired-KeepsOthers i db =
    Tracks-trans (KeepsOthers (own_scope i)) (KeepsOthers-trans (own_scope i)) db expired
      (retired i db)
      (Tracks-update (KeepsOthers (own_scope i)) (λ x _. refl) (overdue_in (own_scope i) i.now)
        (closed_as FlowStatus.expired i.now) db (λ x p o. absurd (ground arith)))
      (Tracks-update (KeepsOthers (own_scope i)) (λ x _. refl) (active_in (own_scope i))
        (closed_as FlowStatus.superseded i.now) expired (λ x p o. absurd (ground arith)))
  where
    expired : Flows
    expired = update_where (overdue_in (own_scope i) i.now) (closed_as FlowStatus.expired i.now) db

none_of_count : (q : Session → Bool) (db : Flows) → count_where q db ≡ 0 → any_where q db ≡ false
none_of_count q [] h = refl
none_of_count q (s ∷ db) h = ground (arith, none_of_count q db)

retired_ids :
    (i : CreateInput) (db : Flows)
    → any_where (λ x. text_eq x.session_id i.session_id) (retired i db)
      ≡ any_where (λ x. text_eq x.session_id i.session_id) db
retired_ids i db =
    any-update (λ x. text_eq x.session_id i.session_id) (active_in (own_scope i))
      (closed_as FlowStatus.superseded i.now)
      (update_where (overdue_in (own_scope i) i.now) (closed_as FlowStatus.expired i.now) db)
      (λ x. refl)
    ∙ any-update (λ x. text_eq x.session_id i.session_id) (overdue_in (own_scope i) i.now)
        (closed_as FlowStatus.expired i.now) db (λ x. refl)

create_returns :
    (i : CreateInput) (db : Flows)
    → is_safe_integer i.now ≡ true
    → is_safe_integer i.ttl_ms ≡ true
    → 0 < i.ttl_ms
    → any_where (λ x. text_eq x.session_id i.session_id) db ≡ false
    → create_telegram_flow db i ≡ ok (retired i db ++ created i ∷ [], created i)
unfolding create_telegram_flow
create_returns i db clock ttl pos fresh = ground (
  arith,
  retired_ids i db,
  none_of_count (active_in (own_scope i)) (retired i db) (retired_none_active i db),
)

found_active :
    (i : CreateInput) (db : Flows) (t : ℕ)
    → t < i.now + i.ttl_ms
    → active_telegram_flow (retired i db ++ created i ∷ []) i.user_id i.chat_id t ≡ some (created i)
unfolding active_telegram_flow
found_active i db t h = rw (
    select-append_new live (retired i db) (created i) none_live
      (ground (arith, text_eq_refl (own_scope i))))
  where
    live : Session → Bool
    live s = active_in (own_scope i) s && not (is_expired s.expires_at_ms t)

    none_live : count_where live (retired i db) ≡ 0
    none_live = omega (
      arith,
      retired_none_active i db,
      count-imp_le live (active_in (own_scope i)) (retired i db) (λ s e. ground arith),
    )

-- With a valid clock and lifetime and a new session id, a creation always succeeds, whatever
-- sessions there are: afterwards its scope has exactly one active session, the lookup for routing
-- returns that session at any instant before it expires, and no session of another scope has
-- changed.
pub creation_takes_over :
    (i : CreateInput) (db : Flows) (t : ℕ)
    → is_safe_integer i.now ≡ true
    → is_safe_integer i.ttl_ms ≡ true
    → 0 < i.ttl_ms
    → any_where (λ x. text_eq x.session_id i.session_id) db ≡ false
    → t < i.now + i.ttl_ms
    → (db' : Flows) × (s : Session) × (create_telegram_flow db i ≡ ok (db', s))
      × (count_where (active_in (scope_of i.user_id i.chat_id)) db' ≡ 1)
      × (active_telegram_flow db' i.user_id i.chat_id t ≡ some s)
      × Tracks (KeepsOthers (scope_of i.user_id i.chat_id)) db db'
creation_takes_over i db t clock ttl pos fresh soon = (
  retired i db ++ created i ∷ [],
  created i,
  create_returns i db clock ttl pos fresh,
  ground (
    arith,
    count-append (active_in (own_scope i)) (retired i db) (created i ∷ []),
    retired_none_active i db,
    text_eq_refl (own_scope i),
  ),
  found_active i db t soon,
  Tracks-trans (KeepsOthers (own_scope i)) (KeepsOthers-trans (own_scope i)) db (retired i db)
      (retired i db ++ created i ∷ []) (retired-KeepsOthers i db)
      (Tracks-append (KeepsOthers (own_scope i)) (λ x _. refl) (retired i db) (created i ∷ [])),
)
