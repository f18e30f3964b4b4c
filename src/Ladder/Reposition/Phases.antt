-- ===== src/Ladder/Reposition/Phases.antt =====
-- The phases of a cycle and the classification of its state.
use funi.Common.{
  ℕ, Bool, true, false, not, ◌&&◌, ◌||◌, Option, none, some, List, [], ◌∷◌, Text, text, text_eq,
  any_where, if◌then◌else◌, ◌==◌,
}

pub data Phase : Type 0 where
  open_pending watching close_prepared close_submitted close_confirmed principal_reconciled : Phase
  reopen_planned reopen_prepared reopen_submitted completed blocked operator_closed : Phase

pub data ParentStatus : Type 0 where
  planned opened closed cancelled : ParentStatus

abbrev pub phase_code : Phase → ℕ
phase_code Phase.open_pending = 0
phase_code Phase.watching = 1
phase_code Phase.close_prepared = 2
phase_code Phase.close_submitted = 3
phase_code Phase.close_confirmed = 4
phase_code Phase.principal_reconciled = 5
phase_code Phase.reopen_planned = 6
phase_code Phase.reopen_prepared = 7
phase_code Phase.reopen_submitted = 8
phase_code Phase.completed = 9
phase_code Phase.blocked = 10
phase_code Phase.operator_closed = 11

abbrev pub phase_eq : Phase → Phase → Bool
phase_eq a b = phase_code a == phase_code b

abbrev pub parent_code : ParentStatus → ℕ
parent_code ParentStatus.planned = 0
parent_code ParentStatus.opened = 1
parent_code ParentStatus.closed = 2
parent_code ParentStatus.cancelled = 3

abbrev pub parent_eq : ParentStatus → ParentStatus → Bool
parent_eq a b = parent_code a == parent_code b

-- `V4_BID_LADDER_USDG_RESET_PARENT_STATUS_MATRIX`
abbrev pub allowed_parent_statuses : Phase → List ParentStatus
allowed_parent_statuses Phase.open_pending = ParentStatus.planned ∷ ParentStatus.opened ∷ []
allowed_parent_statuses Phase.watching = ParentStatus.opened ∷ []
allowed_parent_statuses Phase.close_prepared = ParentStatus.opened ∷ []
allowed_parent_statuses Phase.close_submitted = ParentStatus.opened ∷ ParentStatus.closed ∷ []
allowed_parent_statuses Phase.close_confirmed = ParentStatus.closed ∷ []
allowed_parent_statuses Phase.principal_reconciled = ParentStatus.closed ∷ []
allowed_parent_statuses Phase.reopen_planned = ParentStatus.closed ∷ []
allowed_parent_statuses Phase.reopen_prepared = ParentStatus.closed ∷ []
allowed_parent_statuses Phase.reopen_submitted = ParentStatus.closed ∷ []
allowed_parent_statuses Phase.completed = ParentStatus.closed ∷ []
allowed_parent_statuses Phase.blocked =
    ParentStatus.planned ∷ ParentStatus.opened ∷ ParentStatus.closed ∷ ParentStatus.cancelled ∷ []
allowed_parent_statuses Phase.operator_closed = ParentStatus.closed ∷ []

-- `v4BidLadderUsdResetParentStatePolicy(...).valid`
abbrev pub parent_valid : Phase → ParentStatus → Bool
parent_valid phase parent = any_where (parent_eq parent) (allowed_parent_statuses phase)

pub data SemanticsKind : Type 0 where
  progress wait block terminal : SemanticsKind

pub data Reason : Type 0 where
  parent_state_invalid : Phase → ParentStatus → Reason
  at_terminal_phase : Phase → Reason
  waiting_for_initial_open : Reason
  waiting_for_open_convergence : Reason
  waiting_for_operator_or_eligibility : Reason
  waiting_for_close_canonical_projection : Reason
  validate_confirmed_close : Reason
  advance : Phase → Reason
  waiting_for_active_owner : Reason
  transaction_journal_failed : Reason
  waiting_for_exact_hash_recovery : Reason
  stored : Text → Reason
  reposition_blocked : Reason
  replacement_approval_preparing : Reason
  allowance_evidence_unavailable : Reason
  child_missing : Reason

pub record Semantics : Type 0 where
  pub kind : SemanticsKind
  pub reason : Reason
  pub healer : Bool

abbrev pub semantics : SemanticsKind → Reason → Semantics
semantics k r = record { kind = k; reason = r; healer = false }

abbrev pub with_healer : SemanticsKind → Reason → Semantics
with_healer k r = record { kind = k; reason = r; healer = true }

abbrev pub is_open : ParentStatus → Bool
is_open ParentStatus.opened = true
is_open _ = false

abbrev pub is_planned : ParentStatus → Bool
is_planned ParentStatus.planned = true
is_planned _ = false

abbrev pub open_wait : ParentStatus → Semantics
open_wait parent =
    semantics wait
      (if is_planned parent then waiting_for_initial_open else waiting_for_open_convergence)

-- `v4BidLadderUsdgResetStateSemantics` on a valid parent state, by phase.
abbrev pub valid_semantics : Phase → ParentStatus → Semantics
valid_semantics Phase.completed parent = semantics terminal (at_terminal_phase Phase.completed)
valid_semantics Phase.blocked parent = semantics terminal (at_terminal_phase Phase.blocked)
valid_semantics Phase.operator_closed parent =
    semantics terminal (at_terminal_phase Phase.operator_closed)
valid_semantics Phase.open_pending parent = open_wait parent
valid_semantics Phase.watching parent = semantics wait waiting_for_operator_or_eligibility
valid_semantics Phase.close_submitted parent =
    if is_open parent
    then semantics wait waiting_for_close_canonical_projection
    else semantics progress validate_confirmed_close
valid_semantics phase parent = semantics progress (advance phase)

unfoldable pub state_semantics : Phase → ParentStatus → Semantics
state_semantics phase parent =
    if parent_valid phase parent
    then valid_semantics phase parent
    else semantics block (parent_state_invalid phase parent)

pub data ChildState : Type 0 where
  no_child planned opened cancelled blocked : ChildState

pub data ApprovalReadiness : Type 0 where
  ready required unknown : ApprovalReadiness

pub data JournalState : Type 0 where
  no_journal pending confirmed failed : JournalState

pub data LeaseState : Type 0 where
  free owned other : LeaseState

pub record Snapshot : Type 0 where
  pub parent_status : ParentStatus
  pub phase : Phase
  pub child_state : ChildState
  pub approval_readiness : ApprovalReadiness
  pub journal_state : JournalState
  pub lease_state : LeaseState
  pub block_reason : Option Text

abbrev pub lease_is_other : LeaseState → Bool
lease_is_other LeaseState.other = true
lease_is_other _ = false

abbrev pub journal_is_failed : JournalState → Bool
journal_is_failed JournalState.failed = true
journal_is_failed _ = false

abbrev pub journal_is_pending : JournalState → Bool
journal_is_pending JournalState.pending = true
journal_is_pending _ = false

abbrev pub child_is_none : ChildState → Bool
child_is_none ChildState.no_child = true
child_is_none _ = false

abbrev pub child_is_cancelled : ChildState → Bool
child_is_cancelled ChildState.cancelled = true
child_is_cancelled _ = false

-- The phase BLOCKED: `snapshot.blockReason || "REPOSITION_BLOCKED"`, and what can be healed.
abbrev pub healable : ChildState → Text → Bool
healable child r =
    (text_eq r (text "REPOSITION_POST_CONFIRM_APPROVAL_REQUIRED") && child_is_none child)
    || (text_eq r (text "REPOSITION_JIT_REMATERIALIZATION_LIMIT_EXHAUSTED")
        && child_is_cancelled child)

abbrev pub blocked_semantics : ChildState → Option Text → Semantics
blocked_semantics child none = semantics block reposition_blocked
blocked_semantics child (some []) = semantics block reposition_blocked
blocked_semantics child (some r) =
    if healable child r then with_healer block (stored r) else semantics block (stored r)

abbrev pub approval_semantics : ApprovalReadiness → Semantics
approval_semantics ApprovalReadiness.ready = semantics progress (advance Phase.principal_reconciled)
approval_semantics ApprovalReadiness.required = semantics progress replacement_approval_preparing
approval_semantics ApprovalReadiness.unknown = semantics wait allowance_evidence_unavailable

abbrev pub reopen_semantics : Phase → ChildState → Semantics
reopen_semantics phase child =
    if child_is_none child
    then semantics block child_missing
    else semantics progress (advance phase)

-- The branches on the phase.
abbrev pub classify_phase : Snapshot → Phase → Semantics
classify_phase s Phase.completed = semantics terminal (at_terminal_phase Phase.completed)
classify_phase s Phase.operator_closed =
    semantics terminal (at_terminal_phase Phase.operator_closed)
classify_phase s Phase.blocked = blocked_semantics s.child_state s.block_reason
classify_phase s Phase.open_pending = open_wait s.parent_status
classify_phase s Phase.watching = semantics wait waiting_for_operator_or_eligibility
classify_phase s Phase.close_submitted =
    if is_open s.parent_status
    then semantics wait waiting_for_close_canonical_projection
    else semantics progress validate_confirmed_close
classify_phase s Phase.principal_reconciled = approval_semantics s.approval_readiness
classify_phase s Phase.reopen_planned = reopen_semantics Phase.reopen_planned s.child_state
classify_phase s Phase.reopen_prepared = reopen_semantics Phase.reopen_prepared s.child_state
classify_phase s Phase.reopen_submitted = reopen_semantics Phase.reopen_submitted s.child_state
classify_phase s phase = semantics progress (advance phase)

-- `classifyV4BidLadderRepositionState`
unfoldable pub classify_reposition_state : Snapshot → Semantics
classify_reposition_state s =
    if not (parent_valid s.phase s.parent_status)
    then semantics block (parent_state_invalid s.phase s.parent_status)
    else (if lease_is_other s.lease_state
        then semantics wait waiting_for_active_owner
        else (if journal_is_failed s.journal_state
            then semantics block transaction_journal_failed
            else (if journal_is_pending s.journal_state
                then semantics wait waiting_for_exact_hash_recovery
                else classify_phase s s.phase)))
