-- ===== src/Ladder/Reposition/Tests.antt =====
-- The theorems on the cycle, applied to one parent and its five legs.
use funi.Common.{
  ℕ, ◌+◌, ◌≡◌, ◌↔◌, refl, true, false, not, ◌&&◌, none, [], ◌∷◌, text, text_eq, lower, negsuc,
}
use funi.Ladder.Reposition.Phases.{
  Phase, ParentStatus, Snapshot, ChildState, ApprovalReadiness, JournalState, LeaseState,
  classify_reposition_state, lease_is_other, journal_is_failed, journal_is_pending,
}
use funi.Ladder.Reposition.Progress.{is_progress, may_act, progress_iff}
use funi.Ladder.Reposition.Legs.{
  Index, ExpectedLeg, LegTruth, EligibilityInput, Eligibility, Outputs, evaluate_eligibility,
  classify_outputs,
}
use funi.Ladder.Reposition.Closing.{IsEligible, eligible_iff, outputs_add_up}

abbrev closing : Snapshot
closing = record {
  parent_status = ParentStatus.closed;
  phase = Phase.close_submitted;
  child_state = ChildState.no_child;
  approval_readiness = ApprovalReadiness.unknown;
  journal_state = JournalState.confirmed;
  lease_state = LeaseState.owned;
  block_reason = none;
}

progress_iff_example : is_progress (classify_reposition_state closing).kind ≡ (
    not (lease_is_other LeaseState.owned)
    && (not (journal_is_failed JournalState.confirmed)
        && (not (journal_is_pending JournalState.confirmed)
            && may_act closing Phase.close_submitted)))
progress_iff_example = progress_iff closing

abbrev expected : ℕ → ExpectedLeg
expected n = record { token_id = n; tick_lower = negsuc 119; tick_upper = negsuc 59 }

abbrev leg : ℕ → LegTruth
leg n = record {
  token_id = n;
  owner = text "0xAB";
  pool_id = text "0x1";
  tick_lower = negsuc 119;
  tick_upper = negsuc 59;
  liquidity = 8;
  principal = record { token0 = 0; token1 = 10 };
  block_number = 77;
}

abbrev input : EligibilityInput
input = record {
  wallet = text "0xab";
  expected_pool_id = text "0x1";
  funding_index = Index.first;
  target_index = Index.zeroth;
  expected_legs = expected 1 ∷ expected 2 ∷ expected 3 ∷ expected 4 ∷ expected 5 ∷ [];
  legs = leg 1 ∷ leg 2 ∷ leg 3 ∷ leg 4 ∷ leg 5 ∷ [];
  unresolved_transactions = 0;
  nonce_ambiguous = false;
}

abbrev found : Eligibility
found = record { eligible = true; usdg_principal = 50; target_principal = 0 }

eligible_iff_example : (true ≡ true) ↔ IsEligible input
unfolding evaluate_eligibility text_eq lower
eligible_iff_example = eligible_iff input found refl

abbrev split : Outputs
split = record {
  returned_usdg_principal = 50;
  returned_target_principal = 0;
  returned_usdg_fee = 3;
  returned_target_fee = 1;
  fees = record { token0 = 1; token1 = 3 };
}

outputs_add_up_example : (50 + 3 ≡ 53) × (0 + 1 ≡ 1)
unfolding classify_outputs
outputs_add_up_example =
    outputs_add_up (record { token0 = 0; token1 = 50 }) (record { token0 = 1; token1 = 53 })
      Index.first Index.zeroth split refl
