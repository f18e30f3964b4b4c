-- ===== src/Ladder/Store/Reset.antt =====
-- `transitionBidLadderUsdReset`, `listBidLadderUsdResetCandidates`, `listBidLadders` and
-- `v4BidLadderStrategyDepthBps`.
use funi.Common.{
  ℕ, ◌+◌, Bool, true, false, not, ◌&&◌, ◌||◌, Option, none, some, List, [], ◌∷◌, Text, text_eq, ltb,
  ◌==◌, ℤ, above, negsuc, pos, if◌then◌else◌, any_where, select_where, first_where, count_where,
  update_where, coalesce?, is_some, take, Result, ok, err, ◌>>◌, throw_if,
}
use funi.Ladder.Store.Rows.{
  Ladder, Leg, Phase, open_pending, watching, close_prepared, close_submitted, close_confirmed,
  principal_reconciled, reopen_planned, reopen_prepared, reopen_submitted, completed, blocked,
  operator_closed, CloseReason, normal_operator_close, reset_reposition, Reset, Store, is_ladder,
  is_leg_of,
}

pub data Error : Type 0 where
  transition_invalid : Error
  amount_invalid : Error
  transition_conflict : Error
  constraint : Error
  limit_invalid : Error
  strategy_depth_missing : Error

abbrev pub phase_eq : Phase → Phase → Bool
phase_eq open_pending open_pending = true
phase_eq watching watching = true
phase_eq close_prepared close_prepared = true
phase_eq close_submitted close_submitted = true
phase_eq close_confirmed close_confirmed = true
phase_eq principal_reconciled principal_reconciled = true
phase_eq reopen_planned reopen_planned = true
phase_eq reopen_prepared reopen_prepared = true
phase_eq reopen_submitted reopen_submitted = true
phase_eq completed completed = true
phase_eq blocked blocked = true
phase_eq operator_closed operator_closed = true
phase_eq _ _ = false

abbrev pub in_phases : List Phase → Phase → Bool
in_phases [] p = false
in_phases (q ∷ qs) p = phase_eq p q || in_phases qs p

pub record TransitionInput : Type 0 where
  pub ladder_id : Text
  pub from : List Phase
  pub to : Phase
  pub close_reason : Option CloseReason
  pub close_workflow_identity : Option Text
  pub reopen_workflow_identity : Option Text
  pub returned_usdg_principal : Option ℤ
  pub returned_target_principal : Option ℤ
  pub returned_usdg_fee : Option ℤ
  pub returned_target_fee : Option ℤ
  pub block_reason : Option Text
  pub now_ms : ℕ

abbrev pub is_negative : Option ℤ → Bool
is_negative none = false
is_negative (some (pos n)) = false
is_negative (some (negsuc n)) = true

abbrev pub amount : Option ℤ → Option ℕ
amount none = none
amount (some v) = some (above v)

abbrev pub has_negative : TransitionInput → Bool
has_negative i =
    is_negative i.returned_usdg_principal
    || (is_negative i.returned_target_principal
        || (is_negative i.returned_usdg_fee || is_negative i.returned_target_fee))

-- SET
abbrev pub moved : TransitionInput → Reset → Reset
moved i r = record r {
  phase = i.to;
  close_reason = coalesce? i.close_reason r.close_reason;
  close_workflow_identity = coalesce? i.close_workflow_identity r.close_workflow_identity;
  reopen_workflow_identity = coalesce? i.reopen_workflow_identity r.reopen_workflow_identity;
  returned_usdg_principal = coalesce? (amount i.returned_usdg_principal) r.returned_usdg_principal;
  returned_target_principal =
      coalesce? (amount i.returned_target_principal) r.returned_target_principal;
  returned_usdg_fee = coalesce? (amount i.returned_usdg_fee) r.returned_usdg_fee;
  returned_target_fee = coalesce? (amount i.returned_target_fee) r.returned_target_fee;
  block_reason = i.block_reason;
  revision = r.revision + 1;
  updated_at_ms = i.now_ms;
}

-- WHERE
abbrev pub in_reach : TransitionInput → Reset → Bool
in_reach i r = text_eq r.ladder_id i.ladder_id && in_phases i.from r.phase

abbrev pub is_close_reason : CloseReason → Option CloseReason → Bool
is_close_reason normal_operator_close (some normal_operator_close) = true
is_close_reason reset_reposition (some reset_reposition) = true
is_close_reason _ _ = false

abbrev pub may_have_closed : Phase → Bool
may_have_closed p =
    in_phases
      (close_confirmed ∷ principal_reconciled ∷ reopen_planned ∷ reopen_prepared ∷ reopen_submitted
        ∷ completed ∷ blocked ∷ operator_closed ∷ [])
      p

abbrev pub must_have_reset : Phase → Bool
must_have_reset p =
    in_phases
      (close_confirmed ∷ principal_reconciled ∷ reopen_planned ∷ reopen_prepared ∷ reopen_submitted
        ∷ completed ∷ [])
      p

-- The CHECK constraints that tie the phase to the reason for closing.
unfoldable pub phase_allowed : Reset → Bool
phase_allowed r =
    (not (is_some r.close_reason) || may_have_closed r.phase)
    && ((not (phase_eq r.phase operator_closed)
          || is_close_reason normal_operator_close r.close_reason)
        && (not (must_have_reset r.phase) || is_close_reason reset_reposition r.close_reason))

abbrev pub is_empty_list : List Phase → Bool
is_empty_list [] = true
is_empty_list (p ∷ ps) = false

-- The workflow identities are unique among the rows of other ladders.
abbrev pub identity_taken : Option Text → Text → Reset → Bool
identity_taken none id r = false
identity_taken (some w) id r =
    not (text_eq r.ladder_id id)
    && (elim r.close_workflow_identity [ none ↦ false | some v ↦ text_eq v w ])

abbrev pub reopening_taken : Option Text → Text → Reset → Bool
reopening_taken none id r = false
reopening_taken (some w) id r =
    not (text_eq r.ladder_id id)
    && (elim r.reopen_workflow_identity [ none ↦ false | some v ↦ text_eq v w ])

abbrev pub breaks : TransitionInput → List Reset → Bool
breaks i rs =
    any_where (λ r. in_reach i r && not (phase_allowed (moved i r))) rs
    || (any_where (in_reach i) rs
        && (any_where (identity_taken i.close_workflow_identity i.ladder_id) rs
            || any_where (reopening_taken i.reopen_workflow_identity i.ladder_id) rs))

unfoldable pub transition_bid_ladder_usd_reset :
    List Reset → TransitionInput → Result Error (List Reset)
transition_bid_ladder_usd_reset rs i = do
  throw_if (is_empty_list i.from) transition_invalid
  throw_if (has_negative i) amount_invalid
  throw_if (breaks i rs) constraint
  throw_if (not (count_where (in_reach i) rs == 1)) transition_conflict
  ok (update_where (in_reach i) (moved i) rs)

-- `a < b` on SQLite's text, unit by unit.
abbrev pub text_lt : Text → Text → Bool
text_lt [] [] = false
text_lt [] (d ∷ t) = true
text_lt (c ∷ s) [] = false
text_lt (c ∷ s) (d ∷ t) = ltb c d || ((c == d) && text_lt s t)

module _ {A : Type 0} (first : A → A → Bool) where
  abbrev pub insert_row : A → List A → List A
  insert_row x [] = x ∷ []
  insert_row x (y ∷ ys) = if first y x then y ∷ insert_row x ys else x ∷ y ∷ ys

  abbrev pub order_rows : List A → List A
  order_rows [] = []
  order_rows (x ∷ xs) = insert_row x (order_rows xs)

abbrev pub is_candidate : List Ladder → Reset → Bool
is_candidate ladders r =
    not (in_phases (completed ∷ blocked ∷ operator_closed ∷ []) r.phase)
    && any_where (is_ladder r.ladder_id) ladders

abbrev pub updated_first : Reset → Reset → Bool
updated_first a b =
    ltb a.updated_at_ms b.updated_at_ms
    || ((a.updated_at_ms == b.updated_at_ms) && text_lt a.ladder_id b.ladder_id)

abbrev pub created_last : Ladder → Ladder → Bool
created_last a b =
    ltb b.created_at_ms a.created_at_ms
    || ((b.created_at_ms == a.created_at_ms) && text_lt b.ladder_id a.ladder_id)

unfoldable pub list_bid_ladder_usd_reset_candidates : Store → ℕ → Result Error (List Reset)
list_bid_ladder_usd_reset_candidates db limit = do
  throw_if (ltb limit 1 || ltb 32 limit) limit_invalid
  ok (take limit (order_rows updated_first (select_where (is_candidate db.ladders) db.resets)))

unfoldable pub list_bid_ladders : Store → ℕ → Result Error (List Ladder)
list_bid_ladders db limit = do
  throw_if (ltb limit 1 || ltb 100 limit) limit_invalid
  ok (take limit (order_rows created_last db.ladders))

abbrev pub depth_of : Option Leg → Result Error ℕ
depth_of none = err strategy_depth_missing
depth_of (some l) =
    if ltb 0 l.plan.lower_drop_bps && ltb l.plan.lower_drop_bps 10000
    then ok l.plan.lower_drop_bps
    else err strategy_depth_missing

unfoldable pub v4_bid_ladder_strategy_depth_bps : Store → Text → Result Error ℕ
v4_bid_ladder_strategy_depth_bps db id =
    depth_of (first_where (λ l. is_leg_of id l && (l.plan.leg_index == 4)) db.legs)
