-- ===== src/Bot/LivePreview/Defs.antt =====
-- The class `LivePreviewExecutionContext`, without `run`.
use funi.Common.{
  ℕ, ◌+◌, ◌-◌, Bool, true, false, Option, none, some, Text, ltb, leb, coalesce, if◌then◌else◌,
  Result, ok, err, not, ◌||◌,
}

pub data TerminalPhase : Type 0 where
  delivered : TerminalPhase
  failed : TerminalPhase
  superseded : TerminalPhase
  delivery_failed : TerminalPhase

pub data Phase : Type 0 where
  preparing : Phase
  computed : Phase
  ended : TerminalPhase → Phase

pub data Outcome : Type 0 where
  authoritative_live_preview : Outcome
  explicit_fail_closed : Outcome
  superseded_no_op : Outcome

-- The operations that the workflow names, and others.
pub data Stage : Type 0 where
  live_preview_compute : Stage
  live_preview_persist_computed : Stage
  telegram_final_preview_delivery : Stage
  other_stage : Text → Stage

-- The codes of `LivePreviewLifecycleError` and of a terminal.
pub data Code : Type 0 where
  hard_deadline : Code
  identity_superseded : Code
  flow_revision_invalid : Code
  computed_transition_invalid : Code
  operation_budget_exhausted : Code
  timeout : Stage → Code
  terminal_notification_before_terminal : Code
  fail_closed : Code
  authoritative_preview_delivered : Code
  authoritative_preview_blocked_delivered : Code
  named : Text → Code

-- What is thrown: a lifecycle error, or any other.
pub data Thrown : Type 0 where
  lifecycle : Code → Thrown
  foreign : Text → Thrown

pub record Identity : Type 0 where
  pub session_id : Text
  pub flow_revision : ℕ
  pub request_id : Text
  pub pool_id : Text
  pub amount_identity : Text
  pub started_at_ms : ℕ
  pub hard_deadline_at_ms : ℕ

pub record Terminal : Type 0 where
  pub phase : TerminalPhase
  pub outcome : Outcome
  pub code : Code
  pub terminal_at_ms : ℕ

-- `aborted` and `deadline_aborted` hold the reasons of the two abort signals; `timer_armed` says that
-- the hard timer is set.
pub record Execution : Type 0 where
  pub identity : Identity
  pub phase : Phase
  pub terminal : Option Terminal
  pub cleanup_owned : Bool
  pub timer_armed : Bool
  pub aborted : Option Thrown
  pub deadline_aborted : Option Thrown

-- What a call observes: `now()` and `current()`.
pub record Moment : Type 0 where
  pub now : ℕ
  pub current : Bool

abbrev pub abort : Option Thrown → Thrown → Option Thrown
abort none reason = some reason
abort (some earlier) reason = some earlier

abbrev pub terminalized :
    Option Terminal → Execution → TerminalPhase → Outcome → Code → ℕ → Execution × Terminal
terminalized (some t) s phase outcome code now = (s, t)
terminalized none s phase outcome code now =
    let t : Terminal = record {
      phase = phase;
      outcome = outcome;
      code = code;
      terminal_at_ms = now;
    } in
    (
      record s {
        terminal = some t;
        phase = ended phase;
        timer_armed = false;
        aborted = abort s.aborted (lifecycle code);
        deadline_aborted = abort s.deadline_aborted (lifecycle code);
        cleanup_owned = false;
      },
      t,
    )

-- A context that has ended keeps its terminal.
unfoldable pub terminalize : Execution → TerminalPhase → Outcome → Code → ℕ → Execution × Terminal
terminalize s phase outcome code now = terminalized s.terminal s phase outcome code now

unfoldable pub supersede : Execution → Code → ℕ → Execution × Terminal
unfolding terminalize
supersede s code now = terminalize s superseded superseded_no_op code now

-- A deadline in the past ends the new context at once; otherwise the hard timer is set.
unfoldable pub new_context : Identity → ℕ → Execution
unfolding terminalize
new_context identity now =
    let s : Execution = record {
      identity = identity;
      phase = preparing;
      terminal = none;
      cleanup_owned = true;
      timer_armed = false;
      aborted = none;
      deadline_aborted = none;
    } in
    if leb identity.hard_deadline_at_ms now
    then (terminalize s failed explicit_fail_closed hard_deadline now).0
    else record s { timer_armed = true }

abbrev pub at_deadline : Phase → TerminalPhase
at_deadline computed = delivery_failed
at_deadline preparing = failed
at_deadline (ended p) = failed

-- The callback of the hard timer.
unfoldable pub hard_timer_fires : Execution → ℕ → Execution
unfolding terminalize
hard_timer_fires s now =
    if s.timer_armed
    then (terminalize s (at_deadline s.phase) explicit_fail_closed hard_deadline now).0
    else s

unfoldable pub set_flow_revision : Execution → ℕ → Execution × Result Thrown (Unit {0})
set_flow_revision s revision =
    if not (ltb revision 9007199254740992) || ltb revision s.identity.flow_revision
    then (s, err (lifecycle flow_revision_invalid))
    else (record s { identity = record s.identity { flow_revision = revision } }, ok tt)

-- `Math.max(0, hardDeadlineAtMs - now())`
abbrev pub remaining_ms : Execution → ℕ → ℕ
remaining_ms s now = s.identity.hard_deadline_at_ms - now

abbrev pub validated : Option Terminal → Execution → Moment → Execution × Result Thrown (Unit {0})
validated (some t) s m = (s, err (lifecycle t.code))
validated none s m =
    if leb (remaining_ms s m.now) 0
    then (
      (terminalize s failed explicit_fail_closed hard_deadline m.now).0,
      err (lifecycle hard_deadline),
    )
    else if m.current
    then (s, ok tt)
    else ((supersede s identity_superseded m.now).0, err (lifecycle identity_superseded))

unfoldable pub validate_current : Execution → Moment → Execution × Result Thrown (Unit {0})
unfolding terminalize supersede
validate_current s m = validated s.terminal s m

abbrev pub computed_from : Phase → Execution → Execution × Result Thrown (Unit {0})
computed_from preparing s = (record s { phase = computed }, ok tt)
computed_from computed s = (s, err (lifecycle computed_transition_invalid))
computed_from (ended p) s = (s, err (lifecycle computed_transition_invalid))

abbrev pub computed_after :
    Execution × Result Thrown (Unit {0}) → Execution × Result Thrown (Unit {0})
computed_after (s, ok done) = computed_from s.phase s
computed_after (s, err e) = (s, err e)

unfoldable pub mark_computed : Execution → Moment → Execution × Result Thrown (Unit {0})
unfolding validate_current
mark_computed s m = computed_after (validate_current s m)

unfoldable pub cancel_work : Execution → Thrown → Execution
cancel_work s reason = record s { aborted = abort s.aborted reason }

-- The initial context of `createLivePreviewExecutionContext`, whose deadline counts from the start.
unfoldable pub create_live_preview_execution_context :
    Identity → Option ℕ → Option ℕ → ℕ → Execution
unfolding new_context
create_live_preview_execution_context i started deadline now =
    let from = coalesce started now in
    new_context
      (record i { started_at_ms = from; hard_deadline_at_ms = from + coalesce deadline 15000 }) now
