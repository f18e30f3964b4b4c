-- ===== src/Workers/StateCache/Actionable.antt =====
-- `fullyActionableV4BidLadder` and `convergeOpenPendingV4BidLadder`.
use funi.Common.{
  ℕ, ◌+◌, Bool, true, false, not, ◌&&◌, ◌||◌, Option, none, some, List, [], ◌∷◌, ◌++◌, map, Text,
  text, text_eq, same_text, ltb, leb, ◌==◌, if◌then◌else◌, select_where, count_where, first_where,
  Result, ok, err, is_some,
}
use funi.Ladder.Store.Rows.{
  Status, status_eq, Ladder, Leg, open_pending, watching, Reset, Store, is_ladder, is_leg_of,
  load_bid_ladder_usd_reset,
}
use funi.Ladder.Store.Reset.{Error, TransitionInput, phase_eq, transition_bid_ladder_usd_reset}

-- `v4_pool_registry`, `v4_positions` and `active_position_reconciliations`, in the columns read here.
pub record Registered : Type 0 where
  pub pool_id : Text
  pub refresh_block : Option Text
  pub last_refreshed_at : Option Text

pub record Position : Type 0 where
  pub token_id : Text
  pub pool_id : Text
  pub open_intent_id : Option Text

pub record Reconciled : Type 0 where
  pub position_id : Text
  pub owner_status : Text
  pub confirmed_active : Bool
  pub terminal_reason : Option Text
  pub fresh_until_ms : ℕ

pub record Tables : Type 0 where
  pub store : Store
  pub registry : List Registered
  pub positions : List Position
  pub reconciled : List Reconciled

-- A row of the join.
pub record Joined : Type 0 where
  pub registered : Option Registered
  pub leg : Option Leg
  pub position : Option Position
  pub active : Option Reconciled

-- The right side of a LEFT JOIN.
abbrev pub or_null : {A : Type 0} → List A → List (Option A)
or_null [] = none ∷ []
or_null (x ∷ xs) = some x ∷ map some xs

abbrev pub for_each : {A B : Type 0} → List A → (A → List B) → List B
for_each [] f = []
for_each (x ∷ xs) f = f x ++ for_each xs f

abbrev pub is_text : Option Text → Text → Bool
is_text none t = false
is_text (some s) t = text_eq s t

abbrev pub token : Option Leg → Option Text
token none = none
token (some x) = x.token_id

abbrev pub position_of : Option Leg → Position → Bool
position_of x p = is_text (token x) p.token_id

abbrev pub reconciled_of : Option Leg → Reconciled → Bool
reconciled_of x a = elim (token x) [
  | none ↦ false
  | some t ↦ text_eq a.position_id (text "v4:" ++ t)
]

abbrev pub with_leg : Tables → Option Registered → Option Leg → List Joined
with_leg db r x = for_each (or_null (select_where (position_of x) db.positions)) (λ p.
    for_each (or_null (select_where (reconciled_of x) db.reconciled))
      (λ a. record { registered = r; leg = x; position = p; active = a } ∷ []))

unfoldable pub joined : Tables → Ladder → List Joined
joined db l =
    for_each (or_null (select_where (λ r. same_text r.pool_id l.pool_id) db.registry))
      (λ r. for_each (or_null (select_where (is_leg_of l.ladder_id) db.store.legs)) (with_leg db r))

abbrev pub is_bound : Ladder → Position → Bool
is_bound l p = same_text p.pool_id l.pool_id && is_text p.open_intent_id l.ladder_id

abbrev pub is_owned : ℕ → Reconciled → Bool
is_owned now a =
    text_eq a.owner_status (text "VERIFIED_OWNED")
    && (a.confirmed_active && (not (is_some a.terminal_reason) && ltb now a.fresh_until_ms))

abbrev pub is_open : Leg → Bool
is_open x = status_eq x.status Status.opened && is_some x.token_id

abbrev pub verifies : ℕ → Ladder → Option Leg → Option Position → Option Reconciled → Bool
verifies now l (some x) (some p) (some a) = is_open x && (is_bound l p && is_owned now a)
verifies now l _ _ _ = false

abbrev pub is_verified : ℕ → Ladder → Joined → Bool
is_verified now l j = verifies now l j.leg j.position j.active

abbrev pub has_leg : Joined → Bool
has_leg j = is_some j.leg

abbrev pub is_truthy : Option Text → Bool
is_truthy none = false
is_truthy (some []) = false
is_truthy (some (c ∷ t)) = true

abbrev pub parsed : Option ℕ → ℕ
parsed none = 0
parsed (some t) = t

abbrev pub first_registered : List Joined → Option Registered
first_registered [] = none
first_registered (j ∷ js) = j.registered

abbrev pub open_ladder : Text → Ladder → Bool
open_ladder id l = is_ladder id l && status_eq l.status Status.opened

abbrev pub awaits_opening : Option Reset → Bool
awaits_opening none = false
awaits_opening (some r) = phase_eq r.phase open_pending

abbrev pub to_watching : Text → ℕ → TransitionInput
to_watching id now = record {
  ladder_id = id;
  from = open_pending ∷ [];
  to = watching;
  close_reason = none;
  close_workflow_identity = none;
  reopen_workflow_identity = none;
  returned_usdg_principal = none;
  returned_target_principal = none;
  returned_usdg_fee = none;
  returned_target_fee = none;
  block_reason = none;
  now_ms = now;
}

abbrev pub watched : Result Error (List Reset) → Result Error (List Reset × Bool)
watched (ok rs) = ok (rs, true)
watched (err e) = err e

-- `date_parse` is `Date.parse`, `none` for NaN; of a group, SQLite takes the registry's columns from one
-- row, here the first.
module _ (date_parse : Text → Option ℕ) where
  abbrev pub observed_at : Option Text → ℕ
  observed_at none = 0
  observed_at (some t) = if is_truthy (some t) then parsed (date_parse t) else 0

  abbrev pub is_fresh : Option Registered → ℕ → ℕ → Bool
  is_fresh none now ttl = false
  is_fresh (some r) now ttl =
      is_truthy r.refresh_block
      && (ltb 0 (observed_at r.last_refreshed_at)
          && leb now (observed_at r.last_refreshed_at + ttl))

  abbrev pub actionable : Option Ladder → Tables → ℕ → ℕ → Bool
  actionable none db now ttl = false
  actionable (some l) db now ttl =
      is_fresh (first_registered (joined db l)) now ttl
      && ((count_where has_leg (joined db l) == 5)
          && (count_where (is_verified now l) (joined db l) == 5))

  unfoldable pub fully_actionable_v4_bid_ladder : Tables → Text → ℕ → ℕ → Bool
  fully_actionable_v4_bid_ladder db id now ttl =
      actionable (first_where (open_ladder id) db.store.ladders) db now ttl

  unfoldable pub converge_open_pending_v4_bid_ladder :
      Tables → Text → ℕ → ℕ → Result Error (List Reset × Bool)
  converge_open_pending_v4_bid_ladder db id now ttl =
      if not (awaits_opening (load_bid_ladder_usd_reset db.store id))
        || not (fully_actionable_v4_bid_ladder db id now ttl)
      then ok (db.store.resets, false)
      else watched (transition_bid_ladder_usd_reset db.store.resets (to_watching id now))
