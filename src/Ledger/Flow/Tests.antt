-- ===== src/Ledger/Flow/Tests.antt =====
-- The theorems on sessions, applied to one session and to two compare-and-sets of it.
use funi.Common.{
  Bool, ◌≡◌, ◌≢◌, refl, none, some, [], ◌∷◌, List, text, text_eq, ok, arith, count_where, Tracks,
}
use funi.Ledger.Flow.Defs.{
  FlowStatus, Session, Flows, CreateInput, CasInput, CasResult, new_session, create_telegram_flow,
  scope_of, active_in, active_telegram_flow, applied, cas_result, cas_applied,
  transition_telegram_flow_cas, recover_telegram_flows,
}
use funi.Ledger.Flow.History.{
  Call, creates, transitions, recovers, run, Moves, IsExclusive, run_revises,
}
use funi.Ledger.Flow.Cas.{applied_once}
use funi.Ledger.Flow.Creation.{KeepsOthers, creation_takes_over}

abbrev creation : CreateInput
creation = record {
  user_id = text "u";
  chat_id = text "c";
  state = record { kind = some (text "k"); json = text "j" };
  now = 10;
  ttl_ms = 100;
  session_id = text "s1";
}

abbrev second : CreateInput
second = record creation { session_id = text "s2"; now = 20 }

abbrev cas : CasInput
cas = record {
  user_id = text "u";
  chat_id = text "c";
  session_id = text "s1";
  expected_revision = 0;
  next_state = record { kind = none; json = text "n" };
  expected_status = some FlowStatus.active;
  next_status = none;
  now = 30;
  ttl_ms = none;
}

abbrev calls : List Call
calls = creates creation ∷ transitions cas ∷ transitions cas ∷ creates second ∷ recovers 500 ∷ []

abbrev one_session : Flows
one_session = new_session creation 110 ∷ []

abbrev moved_session : Flows
moved_session = cas_applied cas none (new_session creation 110) ∷ []

run_revises_example : Tracks Moves one_session (run one_session calls)
run_revises_example = run_revises calls one_session

one_session-IsExclusive : IsExclusive one_session
one_session-IsExclusive = record { one_active = λ sc. ground arith; id_unique = λ id. ground arith }

abbrev first_reply : CasResult
first_reply = cas_result cas Bool.true (some (cas_applied cas none (new_session creation 110)))

abbrev later_calls : List Call
later_calls = transitions (record cas { expected_revision = 1; now = 40 }) ∷ recovers 500 ∷ []

abbrev expired_session : Session
expired_session = record {
  session_id = text "s1";
  user_id = text "u";
  chat_id = text "c";
  state = record { kind = none; json = text "n" };
  status = FlowStatus.expired;
  flow_revision = 3;
  created_at_ms = 10;
  updated_at_ms = 500;
  expires_at_ms = 110;
}

abbrev second_reply : CasResult
second_reply = cas_result cas Bool.false (some expired_session)

applied_once_example : second_reply.result ≢ applied
unfolding transition_telegram_flow_cas text_eq run recover_telegram_flows
applied_once_example =
    applied_once one_session moved_session (expired_session ∷ []) later_calls cas cas first_reply
      second_reply one_session-IsExclusive refl refl refl refl refl refl refl

creation_takes_over_example :
    (db' : Flows) × (s : Session) × (create_telegram_flow one_session second ≡ ok (db', s))
    × (count_where (active_in (scope_of (text "u") (text "c"))) db' ≡ 1)
    × (active_telegram_flow db' (text "u") (text "c") 119 ≡ some s)
    × Tracks (KeepsOthers (scope_of (text "u") (text "c"))) one_session db'
unfolding text_eq
creation_takes_over_example =
    creation_takes_over second one_session 119 refl refl (omega arith) refl (omega arith)
