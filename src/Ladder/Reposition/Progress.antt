-- ===== src/Ladder/Reposition/Progress.antt =====
-- When a cycle may act.
use funi.Common.{◌≡◌, Bool, true, false, not, ◌&&◌, arith}
use funi.Ladder.Reposition.Phases.{
  Phase, SemanticsKind, Snapshot, ApprovalReadiness, parent_valid, is_open, lease_is_other,
  journal_is_failed, journal_is_pending, child_is_none, classify_phase, classify_reposition_state,
}

abbrev pub is_progress : SemanticsKind → Bool
is_progress SemanticsKind.progress = true
is_progress _ = false

abbrev pub is_unknown : ApprovalReadiness → Bool
is_unknown ApprovalReadiness.unknown = true
is_unknown _ = false

-- The phases in which a transaction is prepared, sent, or waited for.
abbrev pub may_act : Snapshot → Phase → Bool
may_act s Phase.close_prepared = is_open s.parent_status
may_act s Phase.close_submitted = parent_valid Phase.close_confirmed s.parent_status
may_act s Phase.close_confirmed = parent_valid Phase.close_confirmed s.parent_status
may_act s Phase.principal_reconciled =
    parent_valid Phase.close_confirmed s.parent_status && not (is_unknown s.approval_readiness)
may_act s Phase.reopen_planned =
    parent_valid Phase.close_confirmed s.parent_status && not (child_is_none s.child_state)
may_act s Phase.reopen_prepared =
    parent_valid Phase.close_confirmed s.parent_status && not (child_is_none s.child_state)
may_act s Phase.reopen_submitted =
    parent_valid Phase.close_confirmed s.parent_status && not (child_is_none s.child_state)
may_act s _ = false

phase_progress :
    (s : Snapshot) (p : Phase)
    → (parent_valid p s.parent_status && is_progress (classify_phase s p).kind) ≡ may_act s p
phase_progress s p = ground arith

-- The classification of a state says PROGRESS exactly if nobody else holds the lease, no transaction
-- of the journal has failed or is pending, and the phase may act: the close is prepared while the
-- parent is open, or the parent is closed and the phase is from the submitted close to the submitted
-- opening, with a readiness of approval that is known where principal is reconciled, and with a child
-- where the opening is planned, prepared or submitted.
pub progress_iff :
    (s : Snapshot)
    → is_progress (classify_reposition_state s).kind ≡ (
        not (lease_is_other s.lease_state)
        && (not (journal_is_failed s.journal_state)
            && (not (journal_is_pending s.journal_state) && may_act s s.phase)))
unfolding classify_reposition_state
progress_iff s = ground (arith, phase_progress s s.phase)
