-- ===== src/Bot/LivePreview/Tests.antt =====
-- The theorems on the live preview, applied to a preview that is delivered and to one that is
-- superseded while it is computed.
use funi.Common.{ℕ, ◌+◌, refl, true, none, some, List, [], ◌∷◌, Text, text}
use funi.Bot.LivePreview.Defs.{
  delivered, delivery_failed, explicit_fail_closed, authoritative_live_preview, hard_deadline,
  authoritative_preview_delivered, foreign, Outcome, Identity, Terminal, Moment, terminalize,
  new_context, hard_timer_fires, validate_current, mark_computed, cancel_work,
}
use funi.Bot.LivePreview.Terminal.{
  Call, terminalizes, timer_fires, validates, marks_computed, cancels_work, step, run, HasEnded,
  terminal_is_final,
}
use funi.Bot.LivePreview.Run
use funi.Bot.LivePreview.Run.{World, fulfilled, Wait, interfere, disturb, race, run_stage}
use funi.Bot.LivePreview.Workflow.{
  Script, conclude, notify_terminal, fail_with, caught, attempt, run_live_preview_delivery_workflow,
}
use funi.Bot.LivePreview.Delivery.{
  EndsWith, Evidence, workflow_concludes, delivered_is_authoritative,
}

abbrev identity : Identity
identity = record {
  session_id = text "s";
  flow_revision = 1;
  request_id = text "r";
  pool_id = text "p";
  amount_identity = text "a";
  started_at_ms = 0;
  hard_deadline_at_ms = 15000;
}

-- The preview is computed, and the deadline passes before it is delivered.
abbrev before : List Call
before =
    marks_computed (record { now = 10; current = true })
    ∷ cancels_work (foreign (text "e"))
    ∷ timer_fires 15000
    ∷ []

abbrev later : List Call
later =
    terminalizes delivered authoritative_live_preview authoritative_preview_delivered 15001
    ∷ validates (record { now = 15002; current = true })
    ∷ []

abbrev too_late : Terminal
too_late = record {
  phase = delivery_failed;
  outcome = explicit_fail_closed;
  code = hard_deadline;
  terminal_at_ms = 15000;
}

terminal_is_final_example : HasEnded too_late (run (run (new_context identity 0) before) later)
unfolding run step new_context mark_computed validate_current cancel_work hard_timer_fires
    terminalize
terminal_is_final_example = terminal_is_final identity 0 before later too_late refl

abbrev at : ℕ → Moment
at now = record { now = now; current = true }

abbrev wait : ℕ → Wait (Unit {0})
wait now = record { before = at now; interim = []; settled = fulfilled tt; later = at (now + 5) }

abbrev script : Script ℕ
script = record {
  compute = record { before = at 1; interim = []; settled = fulfilled 7; later = at 5 };
  computed_at = at 6;
  persist = wait 7;
  marked_at = at 13;
  checked_at = at 14;
  delivery = wait 15;
  concluded_at = 21;
  persist_terminal = some (foreign (text "locked"));
  failed_at = 22;
  persist_failure = none;
  current_at_notice = true;
  notice = fulfilled tt;
}

abbrev world : World Text
world = record {
  execution = new_context identity 0;
  liquidity_line = text "Unavailable";
  sent = [];
  notices = [];
}

abbrev render : ℕ → Text → Text
render v line = v ∷ line

abbrev outcome_of : ℕ → Outcome
outcome_of v = authoritative_live_preview

abbrev shown : Terminal
shown = record {
  phase = delivered;
  outcome = authoritative_live_preview;
  code = authoritative_preview_delivered;
  terminal_at_ms = 21;
}

workflow_concludes_example :
    (t : Terminal) × EndsWith t (run_live_preview_delivery_workflow render outcome_of script world)
unfolding new_context
workflow_concludes_example = workflow_concludes render outcome_of script world refl

delivered_is_authoritative_example : Evidence render outcome_of script 15000
unfolding run_live_preview_delivery_workflow attempt run_stage race disturb conclude caught
    fail_with notify_terminal Run.validates Run.marks new_context mark_computed validate_current
    cancel_work terminalize
delivered_is_authoritative_example =
    delivered_is_authoritative render outcome_of script world shown refl refl refl
