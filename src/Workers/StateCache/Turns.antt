-- ===== src/Workers/StateCache/Turns.antt =====
-- The priority lanes cannot keep the lower lanes waiting.
use funi.Common.{
  ◌+◌, ◌≤◌, ◌≡◌, refl, inl, inr, Bool, true, false, not, ◌&&◌, Option, none, some, List, [], ◌∷◌,
  arith, is_some, length, Bool-cases,
}
use funi.Workers.StateCache.Cycle.{
  Lane, Cursor, SchedulerState, Observed, max_priority_turns, priority_runnable, force_lower,
  first_true, priority_pick, again_pick, lower_pick, after_lane, took, reset_turns, lowered,
  prioritized, run_state_cache_worker_cycle,
}

-- Every cycle of a run takes a task, and none calls a lower lane.
abbrev pub only_priority : SchedulerState → List Observed → Bool
only_priority s [] = true
only_priority s (o ∷ os) =
    let t = run_state_cache_worker_cycle s o in
    is_some t.selected && (not t.lower_called && only_priority t.state os)

Counts : SchedulerState → Lane → Type 0
Counts s l = (after_lane l s).priority_turns ≡ s.priority_turns + 1

pick-Counts :
    (s : SchedulerState) (a b : Bool) (l : Lane)
    → first_true a b Lane.p0 Lane.p1 ≡ some l
    → Counts s l
unfolding Counts
pick-Counts s true b l e = ground arith
pick-Counts s false true l e = ground arith
pick-Counts s false false l e = cc

pick_swapped-Counts :
    (s : SchedulerState) (a b : Bool) (l : Lane)
    → first_true a b Lane.p1 Lane.p0 ≡ some l
    → Counts s l
unfolding Counts
pick_swapped-Counts s true b l e = ground arith
pick_swapped-Counts s false true l e = ground arith
pick_swapped-Counts s false false l e = cc

priority_pick-Counts :
    (c : Cursor) (s : SchedulerState) (o : Observed) (l : Lane)
    → priority_pick c o ≡ some l
    → Counts s l
priority_pick-Counts Cursor.leading s o l e = pick-Counts s _ _ l e
priority_pick-Counts Cursor.trailing s o l e = pick_swapped-Counts s _ _ l e

took-Counts :
    (s : SchedulerState) (p : Option Lane)
    → ((l : Lane) → p ≡ some l → Counts s l)
    → is_some (took false s p).selected ≡ true
    → (took false s p).state.priority_turns ≡ s.priority_turns + 1
unfolding Counts
took-Counts s none h e = cc
took-Counts s (some l) h e = h l refl

prioritized-Counts :
    (s : SchedulerState) (o : Observed) (p : Option Lane)
    → ((l : Lane) → p ≡ some l → Counts s l)
    → is_some (prioritized s o p).selected ≡ true
    → (prioritized s o p).state.priority_turns ≡ s.priority_turns + 1
prioritized-Counts s o (some l) h e = took-Counts s (some l) h e
prioritized-Counts s o none h e = took-Counts s (again_pick o) (λ l q. pick-Counts s _ _ l q) e

took_lower : (s : SchedulerState) (p : Option Lane) → (took true s p).lower_called ≡ true
took_lower s none = refl
took_lower s (some l) = refl

lowered_called :
    (s : SchedulerState) (o : Observed) (p : Option Lane) → (lowered s o p).lower_called ≡ true
lowered_called s o (some l) = refl
lowered_called s o none = took_lower (reset_turns s) _

-- A cycle that takes a priority task without the lower lanes counts it, below the bound.
turn_is_counted :
    (s : SchedulerState) (o : Observed)
    → is_some (run_state_cache_worker_cycle s o).selected ≡ true
    → (run_state_cache_worker_cycle s o).lower_called ≡ false
    → (s.priority_turns + 1 ≤ max_priority_turns)
      × ((run_state_cache_worker_cycle s o).state.priority_turns ≡ s.priority_turns + 1)
unfolding run_state_cache_worker_cycle
turn_is_counted s o h k =
    elim (Bool-cases (priority_runnable o.work && not (force_lower s o.work))) [
      | inl e ↦ (
        ground arith,
        rw e (
            prioritized-Counts s o (priority_pick s.priority_cursor o)
              (λ l q. priority_pick-Counts s.priority_cursor s o l q) (ground arith)),
      )
      | inr e ↦ absurd (ground (arith, lowered_called s o (lower_pick s.lower_cursor o)))
    ]

turns_left :
    (s : SchedulerState) (o : Observed) (os : List Observed)
    → only_priority s (o ∷ os) ≡ true
    → s.priority_turns + length (o ∷ os) ≤ max_priority_turns
turns_left s o [] h = ground (arith, turn_is_counted s o)
turns_left s o (p ∷ os) h =
    ground (arith, turn_is_counted s o, turns_left (run_state_cache_worker_cycle s o).state p os)

-- From every state, at most four cycles in a row can take a task without calling a lower lane, however
-- much priority work is runnable: of five cycles in a row that each take a task, one calls the lower
-- lanes.
pub lower_lanes_get_a_turn :
    (s : SchedulerState) (os : List Observed)
    → only_priority s os ≡ true
    → length os ≤ max_priority_turns
lower_lanes_get_a_turn s [] h = omega arith
lower_lanes_get_a_turn s (o ∷ os) h = omega (arith, turns_left s o os h)
