-- ===== src/Workers/StateCache/Cycle.antt =====
-- `runStateCacheWorkerCycle`.
use funi.Common.{ℕ, ◌+◌, Bool, true, false, not, ◌&&◌, ◌||◌, Option, none, some, leb, if◌then◌else◌}

pub data Lane : Type 0 where
  p0 : Lane
  p1 : Lane
  p2 : Lane
  p3 : Lane

-- Which of two lanes goes first.
pub data Cursor : Type 0 where
  leading : Cursor
  trailing : Cursor

-- The priority cursor is `leading` for P0, the lower cursor for P2.
pub record SchedulerState : Type 0 where
  pub priority_turns : ℕ
  pub priority_cursor : Cursor
  pub lower_cursor : Cursor

abbrev pub max_priority_turns : ℕ
max_priority_turns = 4

unfoldable pub create_state_cache_scheduler_state : SchedulerState
create_state_cache_scheduler_state = record {
  priority_turns = 0;
  priority_cursor = leading;
  lower_cursor = leading;
}

pub record PriorityWork : Type 0 where
  pub p0 : Bool
  pub p1 : Bool

-- What one cycle observes: the runnable work, and whether each call of a phase ran a task. A priority
-- lane may be called again at the end of the cycle.
pub record Observed : Type 0 where
  pub work : PriorityWork
  pub targeted_reconciliation : Bool
  pub priority_state_cache : Bool
  pub active_reconciliation : Bool
  pub background_state_cache : Bool
  pub targeted_reconciliation_again : Bool
  pub priority_state_cache_again : Bool

-- The lane that ran, and whether the lower lanes were called.
pub record Turn : Type 0 where
  pub state : SchedulerState
  pub selected : Option Lane
  pub lower_called : Bool

abbrev pub priority_runnable : PriorityWork → Bool
priority_runnable w = w.p0 || w.p1

abbrev pub force_lower : SchedulerState → PriorityWork → Bool
force_lower s w = priority_runnable w && leb max_priority_turns s.priority_turns

abbrev pub first_true : Bool → Bool → Lane → Lane → Option Lane
first_true a b x y = if a then some x else if b then some y else none

-- The first loop: the lanes with work, in the order of the cursor.
abbrev pub priority_pick : Cursor → Observed → Option Lane
priority_pick leading o =
    first_true (o.work.p0 && o.targeted_reconciliation) (o.work.p1 && o.priority_state_cache)
      Lane.p0 Lane.p1
priority_pick trailing o =
    first_true (o.work.p1 && o.priority_state_cache) (o.work.p0 && o.targeted_reconciliation)
      Lane.p1 Lane.p0

abbrev pub lower_pick : Cursor → Observed → Option Lane
lower_pick leading o = first_true o.active_reconciliation o.background_state_cache Lane.p2 Lane.p3
lower_pick trailing o = first_true o.background_state_cache o.active_reconciliation Lane.p3 Lane.p2

abbrev pub again_pick : Observed → Option Lane
again_pick o =
    first_true (o.work.p0 && o.targeted_reconciliation_again)
      (o.work.p1 && o.priority_state_cache_again) Lane.p0 Lane.p1

-- The state after a lane ran: the other lane of its pair goes first next time.
abbrev pub after_lane : Lane → SchedulerState → SchedulerState
after_lane Lane.p0 s = record s {
  priority_cursor = trailing;
  priority_turns = s.priority_turns + 1;
}
after_lane Lane.p1 s = record s { priority_cursor = leading; priority_turns = s.priority_turns + 1 }
after_lane Lane.p2 s = record s { lower_cursor = trailing }
after_lane Lane.p3 s = record s { lower_cursor = leading }

abbrev pub took : Bool → SchedulerState → Option Lane → Turn
took lower s none = record { state = s; selected = none; lower_called = lower }
took lower s (some l) = record { state = after_lane l s; selected = some l; lower_called = lower }

-- The last block, where nothing ran.
abbrev pub retried : Bool → Bool → SchedulerState → Observed → Turn
retried lower runnable s o = took lower s (if runnable then again_pick o else none)

abbrev pub reset_turns : SchedulerState → SchedulerState
reset_turns s = record s { priority_turns = 0 }

-- The second loop, which ends with `priorityTurns = 0`.
abbrev pub lowered : SchedulerState → Observed → Option Lane → Turn
lowered s o (some l) = record {
  state = reset_turns (after_lane l s);
  selected = some l;
  lower_called = true;
}
lowered s o none = retried true (priority_runnable o.work) (reset_turns s) o

abbrev pub prioritized : SchedulerState → Observed → Option Lane → Turn
prioritized s o (some l) = took false s (some l)
prioritized s o none = retried false true s o

unfoldable pub run_state_cache_worker_cycle : SchedulerState → Observed → Turn
run_state_cache_worker_cycle s o =
    if priority_runnable o.work && not (force_lower s o.work)
    then prioritized s o (priority_pick s.priority_cursor o)
    else lowered s o (lower_pick s.lower_cursor o)
