-- ===== src/Workers/StateCache/Lease.antt =====
-- The persistence lease, and the leases on the rows of `v4_state_refresh_queue`.
use funi.Common.{
  ℕ, ◌+◌, Bool, true, false, not, ◌&&◌, ◌||◌, Option, none, some, List, [], ◌∷◌, Text, text,
  text_eq, same_text, ltb, leb, ◌==◌, if◌then◌else◌, any_where, select_where, count_where,
  update_where, take,
}
use funi.Workers.StateCache.Cycle.{PriorityWork}

-- The one row of `state_cache_persistence_lease`.
pub record PersistenceLease : Type 0 where
  pub owner_id : Text
  pub leased_until_ms : ℕ
  pub updated_at_ms : ℕ

abbrev pub held_by_other : Option PersistenceLease → Text → ℕ → Bool
held_by_other none owner now = false
held_by_other (some r) owner now = ltb now r.leased_until_ms && not (text_eq r.owner_id owner)

unfoldable pub acquire_state_persistence_lease :
    Option PersistenceLease → Text → ℕ → ℕ → Option PersistenceLease × Bool
acquire_state_persistence_lease row owner lease now =
    if held_by_other row owner now then (row, false) else (
      some (record { owner_id = owner; leased_until_ms = now + lease; updated_at_ms = now }),
      true,
    )

abbrev pub released : Option PersistenceLease → Text → ℕ → Option PersistenceLease × Bool
released none owner now = (none, false)
released (some r) owner now =
    if text_eq r.owner_id owner
    then (some (record r { leased_until_ms = now; updated_at_ms = now }), true)
    else (some r, false)

unfoldable pub release_state_persistence_lease :
    Option PersistenceLease → Text → ℕ → Option PersistenceLease × Bool
release_state_persistence_lease row owner now = released row owner now

pub data QueueLane : Type 0 where
  urgent : QueueLane
  background : QueueLane

abbrev pub lane_eq : QueueLane → QueueLane → Bool
lane_eq urgent urgent = true
lane_eq background background = true
lane_eq _ _ = false

pub record Refresh : Type 0 where
  pub pool_id : Text
  pub lane : QueueLane
  pub priority : ℕ
  pub reason : Text
  pub requested_at : ℕ
  pub available_at_ms : ℕ
  pub leased_until_ms : Option ℕ
  pub leased_at_ms : Option ℕ
  pub lease_owner : Option Text

abbrev pub is_unleased : ℕ → Refresh → Bool
is_unleased now r = elim r.leased_until_ms [ none ↦ true | some t ↦ ltb t now ]

abbrev pub is_runnable : QueueLane → ℕ → Refresh → Bool
is_runnable lane now r = lane_eq r.lane lane && (leb r.available_at_ms now && is_unleased now r)

-- The reasons of P1.
abbrev pub p1_state_refresh_reasons : List Text
p1_state_refresh_reasons =
    text "recent-token-lookup"
    ∷ text "recent-telegram-token"
    ∷ text "telegram-token"
    ∷ text "OPERATIONAL_OPEN_POOL_FRESHNESS"
    ∷ text "REPOSITION_ON_DEMAND_POOL_FRESHNESS"
    ∷ []

abbrev pub is_p1 : Refresh → Bool
is_p1 r = leb 90 r.priority && any_where (text_eq r.reason) p1_state_refresh_reasons

-- A targeted reconciliation request, in the columns that are read.
pub record Targeted : Type 0 where
  pub lane : QueueLane
  pub priority : ℕ
  pub available_at_ms : ℕ
  pub leased_until_ms : Option ℕ

abbrev pub is_targeted : QueueLane → ℕ → Targeted → Bool
is_targeted lane now r =
    lane_eq r.lane lane
    && (leb r.available_at_ms now && (elim r.leased_until_ms [ none ↦ true | some t ↦ ltb t now ]))

unfoldable pub runnable_priority_work : List Targeted → List Refresh → ℕ → PriorityWork
runnable_priority_work targeted queue now = record {
  p0 = any_where (is_targeted background now) targeted;
  p1 = any_where (λ r. is_p1 r && is_runnable background now r) queue;
}

unfoldable pub runnable_urgent_work : List Targeted → List Refresh → ℕ → ℕ → PriorityWork
runnable_urgent_work targeted queue now minimum = record {
  p0 = any_where (λ r. leb minimum r.priority && is_targeted urgent now r) targeted;
  p1 = any_where (λ r. leb minimum r.priority && is_runnable urgent now r) queue;
}

-- `ORDER BY priority DESC, requested_at_ms`; rows that tie keep the order of the table, which SQLite
-- leaves open.
abbrev pub goes_first : Refresh → Refresh → Bool
goes_first a b =
    ltb b.priority a.priority || ((a.priority == b.priority) && ltb a.requested_at b.requested_at)

abbrev pub insert_refresh : Refresh → List Refresh → List Refresh
insert_refresh r [] = r ∷ []
insert_refresh r (x ∷ xs) = if goes_first x r then x ∷ insert_refresh r xs else r ∷ x ∷ xs

abbrev pub ordered : List Refresh → List Refresh
ordered [] = []
ordered (r ∷ rs) = insert_refresh r (ordered rs)

-- `WHERE pool_id=? AND lane=?`, the primary key; `pool_id` is compared without case.
abbrev pub has_key : QueueLane → Text → Refresh → Bool
has_key lane pool r = same_text r.pool_id pool && lane_eq r.lane lane

abbrev pub leasable : QueueLane → Text → ℕ → Refresh → Bool
leasable lane pool now r = has_key lane pool r && is_unleased now r

abbrev pub leased : Text → ℕ → ℕ → Refresh → Refresh
leased owner until now r = record r {
  leased_until_ms = some until;
  leased_at_ms = some now;
  lease_owner = some owner;
}

abbrev pub reported : Text → ℕ → Refresh → Refresh
reported owner now r = record r { leased_at_ms = some now; lease_owner = some owner }

-- One UPDATE for each row that was read; a row is reported if its UPDATE changed it.
unfoldable pub lease_rows :
    QueueLane → Text → ℕ → ℕ → List Refresh → List Refresh → List Refresh × List Refresh
lease_rows lane owner until now [] queue = (queue, [])
lease_rows lane owner until now (r ∷ rs) queue =
    let queue' = update_where (leasable lane r.pool_id now) (leased owner until now) queue in
    let rest = lease_rows lane owner until now rs queue' in
    (
      rest.0,
      if count_where (leasable lane r.pool_id now) queue == 1
          then reported owner now r ∷ rest.1
          else rest.1,
    )

unfoldable pub lease_state_refresh_by_lane :
    List Refresh → QueueLane → ℕ → ℕ → Text → ℕ → List Refresh × List Refresh
lease_state_refresh_by_lane queue lane limit lease owner now =
    lease_rows lane owner (now + lease) now
      (take limit (ordered (select_where (is_runnable lane now) queue))) queue

-- `legacy` is the source's text of the instant.
unfoldable pub lease_priority_direct_lookup_refresh :
    List Refresh → ℕ → ℕ → Text → ℕ → List Refresh × List Refresh
lease_priority_direct_lookup_refresh queue limit lease legacy now =
    lease_rows background legacy (now + lease) now
      (take limit (ordered (select_where (λ r. is_p1 r && is_runnable background now r) queue)))
      queue
