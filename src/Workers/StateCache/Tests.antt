-- ===== src/Workers/StateCache/Tests.antt =====
-- The theorems on the scheduler and its leases, applied to a worker with runnable priority work and to
-- two workers that want the persistence lease; and runs of the leases on the queue.
use funi.Common.{
  ℕ, arith, count_where, same_text, text_eq_iff, lower, ◌+◌, ◌≤◌, ◌≡◌, refl, true, false, none,
  some, List, [], ◌∷◌, Text, text, text_eq, length, All,
}
use funi.Workers.StateCache.Cycle.{
  Lane, Observed, create_state_cache_scheduler_state, run_state_cache_worker_cycle,
  max_priority_turns,
}
use funi.Workers.StateCache.Turns.{only_priority, lower_lanes_get_a_turn}
use funi.Workers.StateCache.Lease.{
  acquire_state_persistence_lease, QueueLane, has_key, Refresh, lease_rows,
  lease_state_refresh_by_lane,
}
use funi.Workers.StateCache.Once.{Request, given, leased_once}
use funi.Workers.StateCache.Exclusion.{
  Call, acquires, releases, answers, run, by_other, lease_excludes,
}

abbrev busy : Observed
busy = record {
  work = record { p0 = true; p1 = true };
  targeted_reconciliation = true;
  priority_state_cache = true;
  active_reconciliation = true;
  background_state_cache = true;
  targeted_reconciliation_again = false;
  priority_state_cache_again = false;
}

abbrev four : List Observed
four = busy ∷ busy ∷ busy ∷ busy ∷ []

four_in_a_row : only_priority create_state_cache_scheduler_state four ≡ true
unfolding create_state_cache_scheduler_state run_state_cache_worker_cycle
four_in_a_row = refl

lower_lanes_get_a_turn_example : length four ≤ max_priority_turns
lower_lanes_get_a_turn_example =
    lower_lanes_get_a_turn create_state_cache_scheduler_state four four_in_a_row

-- The fifth cycle calls the lower lanes, and P2 runs.
fifth_is_lower :
    (run_state_cache_worker_cycle
      (record create_state_cache_scheduler_state { priority_turns = 4 })
      busy).selected
    ≡ some Lane.p2
unfolding create_state_cache_scheduler_state run_state_cache_worker_cycle
fifth_is_lower = refl

abbrev others : List Call
others = acquires (text "b") 50 10 ∷ releases (text "b") 500 ∷ []

first_acquires : (acquire_state_persistence_lease none (text "a") 100 0).1 ≡ true
unfolding acquire_state_persistence_lease
first_acquires = refl

others_are_others : All (λ c. by_other (text "a") (0 + 100) c ≡ true) others
unfolding text_eq
others_are_others = (refl, (refl, tt))

lease_excludes_example :
    (run (acquire_state_persistence_lease none (text "a") 100 0).0 others
      ≡ (acquire_state_persistence_lease none (text "a") 100 0).0)
    × All
        (λ b. b ≡ false)
        (answers (acquire_state_persistence_lease none (text "a") 100 0).0 others)
lease_excludes_example =
    lease_excludes none (text "a") 100 0 others first_acquires others_are_others

abbrev waiting : Text → ℕ → Refresh
waiting pool priority = record {
  pool_id = pool;
  lane = QueueLane.urgent;
  priority = priority;
  reason = text "ACTIVE_OPEN_POOL_REFRESH_DUE";
  requested_at = 0;
  available_at_ms = 0;
  leased_until_ms = none;
  leased_at_ms = none;
  lease_owner = none;
}

abbrev queue : List Refresh
queue = waiting (text "p") 1 ∷ waiting (text "q") 2 ∷ []

-- The row of the higher priority is leased first, and only the other one is left to a second worker.
second_worker_gets_the_other :
    (lease_state_refresh_by_lane
      (lease_state_refresh_by_lane queue QueueLane.urgent 1 100 (text "a") 5).0
      QueueLane.urgent
      2
      100
      (text "b")
      6).1
    ≡ record (waiting (text "p") 1) { leased_at_ms = some 6; lease_owner = some (text "b") } ∷ []
unfolding lease_state_refresh_by_lane lease_rows text_eq lower
second_worker_gets_the_other = refl

pools_are_unique : (pool : Text) → count_where (has_key QueueLane.urgent pool) queue ≤ 1
unfolding text_eq lower
pools_are_unique pool = ground (
  arith,
  text_eq_iff (lower (text "p")) (lower pool),
  text_eq_iff (lower (text "q")) (lower pool),
)

abbrev requests : List Request
requests =
    record { limit = 5; lease = 10; owner = text "b"; now = 6 }
    ∷ record { limit = 5; lease = 10; owner = text "c"; now = 105 }
    ∷ []

requests_are_in_time : All (λ c. c.now ≤ 5 + 100) requests
requests_are_in_time = (omega arith, (omega arith, tt))

leased_once_example :
    All
      (λ a.
        All
          (λ b. same_text b.pool_id a.pool_id ≡ false)
          (given QueueLane.urgent
            (lease_state_refresh_by_lane queue QueueLane.urgent 1 100 (text "a") 5).0
            requests))
      (lease_state_refresh_by_lane queue QueueLane.urgent 1 100 (text "a") 5).1
leased_once_example =
    leased_once QueueLane.urgent queue 1 100 5 (text "a") requests pools_are_unique
      requests_are_in_time
