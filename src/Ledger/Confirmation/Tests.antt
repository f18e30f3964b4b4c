-- ===== src/Ledger/Confirmation/Tests.antt =====
-- The theorem on requests, applied to one that is cancelled and then confirmed.
use funi.Common.{List, [], ◌∷◌, text, none, some, Tracks}
use funi.Ledger.Confirmation.Defs.{
  CreateInput, Call, creates, looks_up, resolves, recovers, confirm, cancel, run,
}
use funi.Ledger.Confirmation.Final.{Follows, decisions_are_final}

abbrev request : CreateInput
request = record {
  action = text "open";
  payload_json = text "{}";
  expires_at = 100;
  owner = text "o";
  idempotency_key = text "k";
  block_number = some 7;
  price_observed_at = none;
}

abbrev before : List Call
before = creates request (text "r") 1 ∷ resolves (text "r") (text "o") cancel none 0 2 ∷ []

abbrev later : List Call
later =
    resolves (text "r") (text "o") confirm (some 8) 0 3
    ∷ looks_up (text "r") 200
    ∷ recovers 300
    ∷ []

decisions_are_final_example : Tracks Follows (run [] before) (run (run [] before) later)
decisions_are_final_example = decisions_are_final before later
