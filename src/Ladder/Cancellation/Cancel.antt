-- ===== src/Ladder/Cancellation/Cancel.antt =====
-- `cancelPlannedV4BidLadder` and `expireAbandonedPlannedV4BidLadders`.
use funi.Common.{
  ℕ, ◌+◌, Bool, ◌&&◌, ◌||◌, not, Option, none, some, List, [], ◌∷◌, Text, text_eq, ◌==◌, ltb, leb,
  if◌then◌else◌, select_where, count_where, update_where, take, is_none, Result, ok, err,
}
use funi.Ladder.Store.Rows.{
  planned, cancelled, status_eq, live, mode_eq, Ladder, Leg, Store, load_bid_ladder,
}
use funi.Ladder.Store.Create.{version_v1}
use funi.Ladder.Store.Reset.{text_lt, order_rows}
use funi.Ladder.Cancellation.Evidence.{Json, Evidence}
use funi.Ladder.Cancellation.Blockers.{
  auto_expiry_ms, candidate_limit, auto_expiry_reason, Blocker,
  planned_v4_bid_ladder_cancellation_status,
}

pub data CancelResult : Type 0 where
  was_cancelled : (revision : ℕ) → CancelResult
  already_cancelled : CancelResult
  state_changed : CancelResult
  was_blocked : List Blocker → CancelResult

pub data Error : Type 0 where
  leg_transition_conflict : Error
  limit_invalid : Error

abbrev pub is_cancellable : Text → ℕ → Ladder → Bool
is_cancellable id revision l =
    text_eq l.ladder_id id && (status_eq l.status planned && (l.revision == revision))

abbrev pub cancelled_ladder : Text → ℕ → Ladder → Ladder
cancelled_ladder reason now l = record l {
  status = cancelled;
  terminal_reason = some reason;
  terminal_at_ms = some now;
  updated_at_ms = now;
  revision = l.revision + 1;
}

abbrev pub is_cancellable_leg : Text → Leg → Bool
is_cancellable_leg id l =
    text_eq l.ladder_id id
    && (status_eq l.status planned
        && (is_none l.token_id && (is_none l.open_batch_id && is_none l.close_batch_id)))

abbrev pub cancelled_leg : ℕ → Leg → Leg
cancelled_leg now l = record l { status = cancelled; updated_at_ms = now }

abbrev pub with_cancelled : Store → Text → ℕ → Text → ℕ → Store
with_cancelled db id revision reason now = record db {
  ladders = update_where (is_cancellable id revision) (cancelled_ladder reason now) db.ladders;
  legs = update_where (is_cancellable_leg id) (cancelled_leg now) db.legs;
}

-- The two UPDATE statements.
abbrev pub write_cancelled : Store → Text → ℕ → Text → ℕ → Result Error (Store × CancelResult)
write_cancelled db id revision reason now =
    if not (count_where (is_cancellable id revision) db.ladders == 1)
    then ok (db, state_changed)
    else if not (count_where (is_cancellable_leg id) db.legs == 5)
    then err leg_transition_conflict
    else ok (with_cancelled db id revision reason now, was_cancelled (revision + 1))

abbrev pub listed :
    CancelResult
    → Store × Result Error (List CancelResult)
    → Store × Result Error (List CancelResult)
listed r (s, ok rs) = (s, ok (r ∷ rs))
listed r (s, err x) = (s, err x)

abbrev pub is_abandoned : ℕ → Ladder → Bool
is_abandoned now l =
    text_eq l.strategy_version version_v1
    && (mode_eq l.execution_mode live
        && (status_eq l.status planned && leb (l.updated_at_ms + auto_expiry_ms) now))

abbrev pub oldest_first : Ladder → Ladder → Bool
oldest_first a b =
    ltb a.updated_at_ms b.updated_at_ms
    || ((a.updated_at_ms == b.updated_at_ms) && text_lt a.ladder_id b.ladder_id)

-- Each candidate is its own transaction: one that throws stops the sweep and leaves those before it.
abbrev pub swept :
    Result Error (Store × CancelResult)
    → Store
    → (Store → Store × Result Error (List CancelResult))
    → Store × Result Error (List CancelResult)
swept (err x) db rest = (db, err x)
swept (ok (db', r)) db rest = listed r (rest db')

module _ (parse : Text → Option Json) (date_parse : Text → Option ℕ) where
  abbrev pub cancel_current :
      Store → Evidence → Text → ℕ → Text → ℕ → Option Ladder → Result Error (Store × CancelResult)
  cancel_current db e id revision reason now none = ok (db, state_changed)
  cancel_current db e id revision reason now (some l) =
      if status_eq l.status cancelled
      then ok (db, already_cancelled)
      else if not (status_eq l.status planned && (l.revision == revision))
      then ok (db, state_changed)
      else (let safety =
            planned_v4_bid_ladder_cancellation_status parse date_parse db e id revision now in
          if safety.eligible
          then write_cancelled db id revision reason now
          else ok (db, was_blocked safety.blockers))

  unfoldable pub cancel_planned_v4_bid_ladder :
      Store → Evidence → Text → ℕ → Text → ℕ → Result Error (Store × CancelResult)
  cancel_planned_v4_bid_ladder db e id revision reason now =
      cancel_current db e id revision reason now (load_bid_ladder db id)

  unfoldable pub sweep :
      Evidence → ℕ → List Ladder → Store → Store × Result Error (List CancelResult)
  sweep e now [] db = (db, ok [])
  sweep e now (l ∷ ls) db =
      swept (cancel_planned_v4_bid_ladder db e l.ladder_id l.revision auto_expiry_reason now) db
        (sweep e now ls)

  unfoldable pub expire_abandoned_planned_v4_bid_ladders :
      Store → Evidence → ℕ → ℕ → Store × Result Error (List CancelResult)
  expire_abandoned_planned_v4_bid_ladders db e now limit =
      if ltb limit 1 || ltb candidate_limit limit
      then (db, err limit_invalid)
      else sweep e now
          (take limit (order_rows oldest_first (select_where (is_abandoned now) db.ladders))) db
