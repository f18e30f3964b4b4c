-- ===== src/Ledger/Canary/Tests.antt =====
-- The theorems on the canary: a claim, a second claim, a failed attempt and a manual reset; and the
-- arms of one operator.
use funi.Common.{◌+◌, ◌≤◌, none, some, false, List, [], ◌∷◌, Text, text, if◌then◌else◌, arith}
use funi.Ledger.Canary.Budget.{available, Budget, Selection, Canary, canary_budget_available}
use funi.Ledger.Canary.Claims.{DirectClaim}
use funi.Ledger.Canary.Armed
use funi.Ledger.Canary.Armed.{IsSingle, run, run-IsSingle}
use funi.Ledger.Canary.Exclusive.{
  Call, claims_direct, finalizes, asks_reset, resets, claims_in, resets_in, claims_exclude,
}

abbrev budget : Budget
budget = record {
  status = available;
  attempts_used = 0;
  intent_id = none;
  failure_reason = none;
  remaining_allowance = none;
  reset_token_hash = none;
  reset_expires_at = none;
  updated_at = 0;
}

abbrev selection : Selection
selection = record {
  id = text "p";
  user_id = text "u";
  chat_id = text "c";
  session_id = text "s";
  superseded = false;
}

abbrev canary : Canary
canary = record {
  budget = some budget;
  intents = [];
  transitions = [];
  pause = none;
  requests = [];
  selections = selection ∷ [];
}

abbrev direct : Text → DirectClaim
direct id = record {
  key = id;
  new_id = id;
  owner = text "o";
  user_id = text "u";
  chat_id = text "c";
  session_id = text "s";
  selection_id = text "p";
  wallet = text "0xa";
  payload = text "{}";
  now = 5;
}

abbrev calls : List Call
calls =
    claims_direct (direct (text "a"))
    ∷ claims_direct (direct (text "b"))
    ∷ finalizes (text "a") false (some (text "reverted")) none 6
    ∷ asks_reset (text "t") 7 100
    ∷ resets (text "t") 8
    ∷ claims_direct (direct (text "b"))
    ∷ []

abbrev sha256 : Text → Text
sha256 t = 0 ∷ t

claims_exclude_example :
    claims_in sha256 canary calls
    ≤ (if canary_budget_available canary then 1 else 0) + resets_in sha256 canary calls
claims_exclude_example = claims_exclude sha256 canary calls

abbrev arm_calls : List Armed.Call
arm_calls =
    Armed.arms (text "a") (text "u") (text "c") 0 10
    ∷ Armed.requests (text "b") (text "u") (text "c") 1 10
    ∷ Armed.confirms (text "b") (text "u") (text "c") 2 10
    ∷ Armed.consumes (text "u") (text "c") (text "b") 3
    ∷ []

run-IsSingle_example : IsSingle (run [] arm_calls)
run-IsSingle_example =
    run-IsSingle [] arm_calls (record { ids = λ id. omega arith; operators = λ u c. omega arith })
