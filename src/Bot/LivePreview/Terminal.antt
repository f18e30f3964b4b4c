-- ===== src/Bot/LivePreview/Terminal.antt =====
-- A context that has ended stays as it ended, whatever is called on it.
use funi.Common.{
  ℕ, ◌≡◌, refl, inl, inr, Bool, true, false, Option, none, some, List, [], ◌∷◌, arith, is_some,
  Bool-cases,
}
use funi.Bot.LivePreview.Defs.{
  TerminalPhase, failed, superseded, delivery_failed, explicit_fail_closed, superseded_no_op,
  hard_deadline, identity_superseded, computed_from, Phase, preparing, computed, ended, Outcome,
  Code, Thrown, Identity, Terminal, Execution, Moment, terminalize, supersede, new_context,
  hard_timer_fires, set_flow_revision, validate_current, mark_computed, cancel_work,
}

pub data Call : Type 0 where
  terminalizes : TerminalPhase → Outcome → Code → ℕ → Call
  supersedes : Code → ℕ → Call
  timer_fires : ℕ → Call
  revises : ℕ → Call
  validates : Moment → Call
  marks_computed : Moment → Call
  cancels_work : Thrown → Call

unfoldable pub step : Execution → Call → Execution
step s (terminalizes p o c now) = (terminalize s p o c now).0
step s (supersedes c now) = (supersede s c now).0
step s (timer_fires now) = hard_timer_fires s now
step s (revises r) = (set_flow_revision s r).0
step s (validates m) = (validate_current s m).0
step s (marks_computed m) = (mark_computed s m).0
step s (cancels_work reason) = cancel_work s reason

unfoldable pub run : Execution → List Call → Execution
run s [] = s
run s (c ∷ cs) = run (step s c) cs

abbrev is_open : Phase → Bool
is_open preparing = true
is_open computed = true
is_open (ended p) = false

abbrev WellWith : Option Terminal → Execution → Type 0
WellWith none s = (is_open s.phase ≡ true) × (s.cleanup_owned ≡ true) × (s.deadline_aborted ≡ none)
WellWith (some t) s =
    (s.phase ≡ ended t.phase)
    × (s.cleanup_owned ≡ false)
    × (s.timer_armed ≡ false)
    × (is_some s.aborted ≡ true)
    × (is_some s.deadline_aborted ≡ true)

-- An open context has work to clean up and a live deadline signal; a context that ended shows its
-- terminal's phase, has no timer and has aborted both signals.
abbrev pub IsWell : Execution → Type 0
IsWell s = WellWith s.terminal s

pub terminalize-IsWell :
    (s : Execution) (p : TerminalPhase) (o : Outcome) (c : Code) (now : ℕ)
    → IsWell s
    → IsWell (terminalize s p o c now).0
unfolding terminalize
terminalize-IsWell s p o c now h = ground arith

pub hard_timer_fires-IsWell : (s : Execution) (now : ℕ) → IsWell s → IsWell (hard_timer_fires s now)
unfolding hard_timer_fires
hard_timer_fires-IsWell s now h = elim (Bool-cases s.timer_armed) [
  | inl e ↦ ground (
    arith,
    terminalize-IsWell s failed explicit_fail_closed hard_deadline now,
    terminalize-IsWell s delivery_failed explicit_fail_closed hard_deadline now,
  )
  | inr e ↦ ground arith
]

pub validate_current-IsWell :
    (s : Execution) (m : Moment) → IsWell s → IsWell (validate_current s m).0
unfolding validate_current supersede
validate_current-IsWell s m h = ground (
  arith,
  terminalize-IsWell s failed explicit_fail_closed hard_deadline m.now h,
  terminalize-IsWell s superseded superseded_no_op identity_superseded m.now h,
)

computed_from-IsWell :
    (p : Phase) (s : Execution) → s.phase ≡ p → IsWell s → IsWell (computed_from p s).0
computed_from-IsWell p s e h = ground arith

pub mark_computed-IsWell : (s : Execution) (m : Moment) → IsWell s → IsWell (mark_computed s m).0
unfolding mark_computed
mark_computed-IsWell s m h = ground (
  arith,
  validate_current-IsWell s m h,
  computed_from-IsWell (validate_current s m).0.phase (validate_current s m).0 refl,
)

pub cancel_work-IsWell : (s : Execution) (e : Thrown) → IsWell s → IsWell (cancel_work s e)
unfolding cancel_work
cancel_work-IsWell s e h = ground arith

set_flow_revision-IsWell : (s : Execution) (r : ℕ) → IsWell s → IsWell (set_flow_revision s r).0
unfolding set_flow_revision
set_flow_revision-IsWell s r h = ground arith

pub new_context-IsWell : (i : Identity) (now : ℕ) → IsWell (new_context i now)
unfolding new_context terminalize
new_context-IsWell i now = ground arith

step-IsWell : (s : Execution) (c : Call) → IsWell s → IsWell (step s c)
unfolding step supersede
step-IsWell s (terminalizes p o c now) h = terminalize-IsWell s p o c now h
step-IsWell s (supersedes c now) h = terminalize-IsWell s superseded superseded_no_op c now h
step-IsWell s (timer_fires now) h = hard_timer_fires-IsWell s now h
step-IsWell s (revises r) h = set_flow_revision-IsWell s r h
step-IsWell s (validates m) h = validate_current-IsWell s m h
step-IsWell s (marks_computed m) h = mark_computed-IsWell s m h
step-IsWell s (cancels_work e) h = cancel_work-IsWell s e h

run-IsWell : (s : Execution) (cs : List Call) → IsWell s → IsWell (run s cs)
unfolding run
run-IsWell s [] h = h
run-IsWell s (c ∷ cs) h = run-IsWell (step s c) cs (step-IsWell s c h)

step_keeps :
    (s : Execution) (c : Call) {t : Terminal}
    → IsWell s
    → s.terminal ≡ some t
    → (step s c).terminal ≡ some t
unfolding step supersede terminalize hard_timer_fires set_flow_revision validate_current
    mark_computed cancel_work
step_keeps s (terminalizes p o c now) h e = ground arith
step_keeps s (supersedes c now) h e = ground arith
step_keeps s (timer_fires now) h e = ground arith
step_keeps s (revises r) h e = ground arith
step_keeps s (validates m) h e = ground arith
step_keeps s (marks_computed m) h e = ground arith
step_keeps s (cancels_work r) h e = e

run_keeps :
    (s : Execution) (cs : List Call) {t : Terminal}
    → IsWell s
    → s.terminal ≡ some t
    → (run s cs).terminal ≡ some t
unfolding run
run_keeps s [] h e = e
run_keeps s (c ∷ cs) h e = run_keeps (step s c) cs (step-IsWell s c h) (step_keeps s c h e)

-- A context that ended in `t`: the phase is the terminal's, the hard timer is off and both abort
-- signals are raised.
pub record HasEnded (t : Terminal) (s : Execution) : Type 0 where
  pub terminal : s.terminal ≡ some t
  pub phase : s.phase ≡ ended t.phase
  pub timer_armed : s.timer_armed ≡ false
  pub cleanup_owned : s.cleanup_owned ≡ false
  pub aborted : is_some s.aborted ≡ true
  pub deadline_aborted : is_some s.deadline_aborted ≡ true

well-HasEnded : (s : Execution) {t : Terminal} → s.terminal ≡ some t → IsWell s → HasEnded t s
well-HasEnded s e h = ground arith

-- If a sequence of calls on a new context, in any order and at any instants, has left a terminal, then
-- after every sequence that follows that terminal stands as it was first written; the phase is the
-- terminal's, the hard timer is off, nothing is left to clean up and both abort signals are raised.
pub terminal_is_final :
    (i : Identity) (now : ℕ) (before later : List Call) (t : Terminal)
    → (run (new_context i now) before).terminal ≡ some t
    → HasEnded t (run (run (new_context i now) before) later)
terminal_is_final i now before later t e = do
  let s = run (new_context i now) before
  let well = run-IsWell (new_context i now) before (new_context-IsWell i now)
  well-HasEnded (run s later) (run_keeps s later well e) (run-IsWell s later well)
