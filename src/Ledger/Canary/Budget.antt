-- ===== src/Ledger/Canary/Budget.antt =====
-- The row of `canary_budget` and its operations, with the manual pause of the safety state.
use funi.Common.{
  ℕ, ◌+◌, Bool, true, false, not, ◌&&◌, Option, none, some, List, Text, text, text_eq, ltb, ◌==◌,
  if◌then◌else◌,
}
use funi.Ledger.Confirmation.Defs.{Requests}

pub data BudgetStatus : Type 0 where
  available : BudgetStatus
  claimed : BudgetStatus
  approval_submitted : BudgetStatus
  mint_submitted : BudgetStatus
  succeeded : BudgetStatus
  failed : BudgetStatus
  manually_reset : BudgetStatus

pub record Budget : Type 0 where
  pub status : BudgetStatus
  pub attempts_used : ℕ
  pub intent_id : Option Text
  pub failure_reason : Option Text
  pub remaining_allowance : Option ℕ
  pub reset_token_hash : Option Text
  pub reset_expires_at : Option ℕ
  pub updated_at : ℕ

pub data IntentState : Type 0 where
  previewed : IntentState
  final_simulation_passed : IntentState
  other_state : Text → IntentState

pub record Intent : Type 0 where
  pub id : Text
  pub wallet : Text
  pub owner : Text
  pub state : IntentState
  pub idempotency_key : Text
  pub payload_json : Text
  pub approval_hash : Option Text
  pub mint_hash : Option Text
  pub token_id : Option Text
  pub failure_reason : Option Text
  pub created_at : ℕ
  pub updated_at : ℕ

pub record Transition : Type 0 where
  pub intent_id : Text
  pub state : IntentState
  pub created_at : ℕ

pub record Selection : Type 0 where
  pub id : Text
  pub user_id : Text
  pub chat_id : Text
  pub session_id : Text
  pub superseded : Bool

-- Whether the manual pause is set, and by whom.
pub record Pause : Type 0 where
  pub manual_pause : Bool
  pub actor : Text
  pub at : ℕ

pub record Canary : Type 0 where
  pub budget : Option Budget
  pub intents : List Intent
  pub transitions : List Transition
  pub pause : Option Pause
  pub requests : Requests
  pub selections : List Selection

abbrev pub is_available : Budget → Bool
is_available b = elim b.status [ available ↦ b.attempts_used == 0 | _ ↦ false ]

abbrev pub budget_available : Option Budget → Bool
budget_available none = false
budget_available (some b) = is_available b

unfoldable pub canary_budget_available : Canary → Bool
canary_budget_available s = budget_available s.budget

-- `UPDATE canary_budget SET status='CLAIMED' ... WHERE id=1 AND status='AVAILABLE' AND attempts_used=0`
abbrev pub claimed_by : Text → ℕ → Budget → Budget
claimed_by id at b = record b {
  status = claimed;
  attempts_used = 1;
  intent_id = some id;
  updated_at = at;
}

abbrev pub claim_budget : Canary → Budget → Text → ℕ → Canary
claim_budget s b id at = record s { budget = some (claimed_by id at b) }

abbrev pub set_manual_pause : Canary → Bool → Text → ℕ → Canary
set_manual_pause s paused actor at = record s {
  pause = some (record { manual_pause = paused; actor = actor; at = at });
}

abbrev pub belongs_to : Text → Option Text → Bool
belongs_to id none = false
belongs_to id (some owner) = text_eq owner id

-- `status IN ('CLAIMED','APPROVAL_SUBMITTED')`
abbrev pub is_underway : BudgetStatus → Bool
is_underway claimed = true
is_underway approval_submitted = true
is_underway _ = false

-- `status IN ('SUCCEEDED','FAILED')`
abbrev pub is_final : BudgetStatus → Bool
is_final succeeded = true
is_final failed = true
is_final _ = false

-- The two states that `updateCanaryBudgetState` takes.
pub data Submitted : Type 0 where
  approval : Submitted
  mint : Submitted

abbrev pub submitted_status : Submitted → BudgetStatus
submitted_status approval = approval_submitted
submitted_status mint = mint_submitted

abbrev pub updated_budget : Canary → Option Budget → Submitted → Text → ℕ → Canary × Bool
updated_budget s none to id at = (s, false)
updated_budget s (some b) to id at =
    if belongs_to id b.intent_id && is_underway b.status
    then (
      record s { budget = some (record b { status = submitted_status to; updated_at = at }) },
      true,
    )
    else (s, false)

unfoldable pub update_canary_budget_state : Canary → Submitted → Text → ℕ → Canary × Bool
update_canary_budget_state s to id at = updated_budget s s.budget to id at

abbrev pub outcome_status : Bool → BudgetStatus
outcome_status true = succeeded
outcome_status false = failed

abbrev pub outcome_actor : Bool → Text
outcome_actor true = text "canary-budget:succeeded"
outcome_actor false = text "canary-budget:failed"

abbrev pub finalized :
    Canary → Option Budget → Text → Bool → Option Text → Option ℕ → ℕ → Canary × Bool
finalized s none id ok reason allowance at = (s, false)
finalized s (some b) id ok reason allowance at =
    if belongs_to id b.intent_id && not (is_final b.status)
    then (
      set_manual_pause
          (record s {
            budget = some (record b {
              status = outcome_status ok;
              attempts_used = 1;
              failure_reason = reason;
              remaining_allowance = allowance;
              updated_at = at;
            });
          })
          true (outcome_actor ok) at,
      true,
    )
    else (s, false)

-- A final attempt pauses execution.
unfoldable pub finalize_canary_budget :
    Canary → Text → Bool → Option Text → Option ℕ → ℕ → Canary × Bool
finalize_canary_budget s id ok reason allowance at = finalized s s.budget id ok reason allowance at

module _ (sha256 : Text → Text) where
  abbrev pub with_token : Canary → Option Budget → Text → ℕ → ℕ → Canary
  with_token s none token now ttl = s
  with_token s (some b) token now ttl = record s {
    budget = some (record b {
      reset_token_hash = some (sha256 token);
      reset_expires_at = some (now + ttl);
      updated_at = now;
    });
  }

  unfoldable pub request_canary_budget_reset : Canary → Text → ℕ → ℕ → Canary
  request_canary_budget_reset s token now ttl = with_token s s.budget token now ttl

  abbrev pub holds_token : Text → ℕ → Budget → Bool
  holds_token token now b =
      belongs_to (sha256 token) b.reset_token_hash
      && (elim b.reset_expires_at [ none ↦ false | some t ↦ ltb now t ])

  abbrev pub reset_row : ℕ → Budget → Budget
  reset_row now b = record b {
    status = available;
    attempts_used = 0;
    intent_id = none;
    failure_reason = none;
    remaining_allowance = none;
    reset_token_hash = none;
    reset_expires_at = none;
    updated_at = now;
  }

  abbrev pub budget_reset : Canary → Option Budget → Text → ℕ → Canary × Bool
  budget_reset s none token now = (s, false)
  budget_reset s (some b) token now =
      if holds_token token now b
      then (
        set_manual_pause (record s { budget = some (reset_row now b) }) false
            (text "canary-budget-manual-reset") now,
        true,
      )
      else (s, false)

  unfoldable pub reset_canary_budget : Canary → Text → ℕ → Canary × Bool
  reset_canary_budget s token now = budget_reset s s.budget token now
