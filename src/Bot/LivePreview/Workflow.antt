-- ===== src/Bot/LivePreview/Workflow.antt =====
-- `runLivePreviewDeliveryWorkflow`, with `notifyTerminal` and `isLivePreviewTimeout`.
use funi.Common.{
  ℕ, Bool, true, false, ◌||◌, Option, none, some, [], ◌∷◌, ◌++◌, Text, text, text_eq, if◌then◌else◌,
  Result, ok, err,
}
use funi.Bot.LivePreview.Defs.{
  TerminalPhase, delivered, failed, superseded, delivery_failed, Outcome,
  authoritative_live_preview, explicit_fail_closed, superseded_no_op, live_preview_compute,
  live_preview_persist_computed, telegram_final_preview_delivery, Code, hard_deadline,
  identity_superseded, flow_revision_invalid, computed_transition_invalid,
  operation_budget_exhausted, timeout, terminal_notification_before_terminal, fail_closed,
  authoritative_preview_delivered, authoritative_preview_blocked_delivered, named, Thrown,
  lifecycle, foreign, Terminal, Execution, Moment, terminalize, cancel_work,
}
use funi.Bot.LivePreview.Run.{
  World, Settled, fulfilled, rejected, pending, Wait, in_world, M, ◌>>=◌, ◌>>◌, validates, marks,
  does, return, run_stage,
}

abbrev ends_with : Text → Text → Bool
ends_with suffix [] = text_eq suffix []
ends_with suffix (c ∷ s) = text_eq suffix (c ∷ s) || ends_with suffix s

-- The codes that match `/(?:TIMEOUT|DEADLINE|BUDGET_EXHAUSTED)$/`.
abbrev is_timeout_code : Code → Bool
is_timeout_code hard_deadline = true
is_timeout_code operation_budget_exhausted = true
is_timeout_code (timeout stage) = true
is_timeout_code (named t) =
    ends_with (text "TIMEOUT") t
    || (ends_with (text "DEADLINE") t || ends_with (text "BUDGET_EXHAUSTED") t)
is_timeout_code identity_superseded = false
is_timeout_code flow_revision_invalid = false
is_timeout_code computed_transition_invalid = false
is_timeout_code terminal_notification_before_terminal = false
is_timeout_code fail_closed = false
is_timeout_code authoritative_preview_delivered = false
is_timeout_code authoritative_preview_blocked_delivered = false

unfoldable pub is_live_preview_timeout : Thrown → Bool
is_live_preview_timeout (lifecycle c) = is_timeout_code c
is_live_preview_timeout (foreign t) = false

abbrev pub is_hard_deadline : Code → Bool
is_hard_deadline hard_deadline = true
is_hard_deadline _ = false

-- What one execution of the workflow observes, in the order in which it looks.
pub record Script (V : Type 0) : Type 0 where
  pub compute : Wait V
  pub computed_at : Moment
  pub persist : Wait (Unit {0})
  pub marked_at : Moment
  pub checked_at : Moment
  pub delivery : Wait (Unit {0})
  pub concluded_at : ℕ
  pub persist_terminal : Option Thrown
  pub failed_at : ℕ
  pub persist_failure : Option Thrown
  pub current_at_notice : Bool
  pub notice : Settled (Unit {0})

abbrev pub was_delivered : Settled (Unit {0}) → Bool
was_delivered (fulfilled a) = true
was_delivered (rejected e) = false
was_delivered pending = false

abbrev pub code_of : Thrown → Code
code_of (lifecycle c) = c
code_of (foreign t) = fail_closed

module _ {R : Type 0} where
  -- `await input.persistTerminal?.(terminal)`, which may throw.
  abbrev pub may_throw : Option Thrown → M R (Unit {0})
  may_throw none w = (w, ok tt)
  may_throw (some e) w = (w, err e)

  abbrev pub notified : Option Terminal → Bool → Thrown × Bool → Settled (Unit {0}) → M R Bool
  notified none current notice how w = (w, err (lifecycle terminal_notification_before_terminal))
  notified (some t) current notice how w = elim t.phase [
    | superseded ↦ (w, ok false)
    | _ ↦
        if current
        then (record w { notices = w.notices ++ notice ∷ [] }, ok (was_delivered how))
        else (w, ok false)
  ]

  unfoldable pub notify_terminal : Bool → Thrown × Bool → Settled (Unit {0}) → M R Bool
  notify_terminal current notice how w = notified w.execution.terminal current notice how w

  abbrev pub ends : {A : Type 0} → World R → Execution × A → World R × Result Thrown A
  ends w (s, a) = (in_world w s, ok a)

  unfoldable pub conclude : Outcome → ℕ → M R Terminal
  unfolding terminalize
  conclude authoritative_live_preview now w = ends w (
      terminalize w.execution delivered authoritative_live_preview authoritative_preview_delivered
        now)
  conclude explicit_fail_closed now w = ends w (
      terminalize w.execution failed explicit_fail_closed authoritative_preview_blocked_delivered
        now)
  conclude superseded_no_op now w =
      ends w (
        terminalize w.execution failed superseded_no_op authoritative_preview_blocked_delivered now)

  -- The part of the `catch` block after the test on a superseded context.
  unfoldable pub fail_with : {V : Type 0} → Script V → Thrown → M R Terminal
  unfolding terminalize cancel_work notify_terminal
  fail_with i e = do
    does (λ w. in_world w (cancel_work w.execution e))
    t ← λ w. ends w (terminalize w.execution failed explicit_fail_closed (code_of e) i.failed_at)
    may_throw i.persist_failure
    shown ←
        notify_terminal i.current_at_notice
          (e, is_live_preview_timeout e || is_hard_deadline t.code) i.notice
    return t

  abbrev pub recovered_at :
      {V : Type 0} → TerminalPhase → Terminal → Script V → Thrown → M R Terminal
  recovered_at superseded t i e w = (w, ok t)
  recovered_at delivered t i e w = fail_with i e w
  recovered_at failed t i e w = fail_with i e w
  recovered_at delivery_failed t i e w = fail_with i e w

  abbrev pub recovered : {V : Type 0} → Option Terminal → Script V → Thrown → M R Terminal
  recovered none i e w = fail_with i e w
  recovered (some t) i e w = recovered_at t.phase t i e w

  unfoldable pub caught :
      {V : Type 0} → Script V → World R × Result Thrown Terminal → World R × Result Thrown Terminal
  unfolding fail_with
  caught i (w, ok t) = (w, ok t)
  caught i (w, err e) = recovered w.execution.terminal i e w

module _ {V R : Type 0} (render : V → Text → R) (computed_outcome : V → Outcome) where
  abbrev pub delivers : V → World R → World R
  delivers v w = record w { sent = w.sent ++ render v w.liquidity_line ∷ [] }

  -- The `try` block. The line is read when the preview is rendered, which nothing comes between it
  -- and the call of `deliver` to change, since the context is no longer being prepared.
  unfoldable pub attempt : Script V → M R Terminal
  unfolding run_stage validates marks conclude
  attempt i = do
    value ←
        run_stage live_preview_compute
          (record { max_ms = none; reserve_ms = 1500; terminal_delivery = false }) (λ w. w)
          i.compute
    validates i.computed_at
    run_stage live_preview_persist_computed
        (record { max_ms = none; reserve_ms = 1200; terminal_delivery = false }) (λ w. w) i.persist
    marks i.marked_at
    validates i.checked_at
    run_stage telegram_final_preview_delivery
        (record { max_ms = some 3000; reserve_ms = 1000; terminal_delivery = false })
        (delivers value) i.delivery
    t ← conclude (computed_outcome value) i.concluded_at
    may_throw i.persist_terminal
    return t

  unfoldable pub run_live_preview_delivery_workflow : Script V → M R Terminal
  unfolding attempt caught
  run_live_preview_delivery_workflow i w = caught i (attempt i w)
