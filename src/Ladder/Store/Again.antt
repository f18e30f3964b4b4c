-- ===== src/Ladder/Store/Again.antt =====
-- A ladder that was created is read back as it was planned, and creating it again changes nothing.
use funi.Common.{
  ℕ, suc, ◌≡◌, refl, ap, ◌∙◌, inl, inr, Bool, true, false, ◌&&◌, Option, none, some, List, [], ◌∷◌,
  ◌++◌, map, arith, Text, text_eq, text_eq_refl, lower, lower_idem, same_text, ◌==◌, ℤ, eq_ℤ,
  Bool-cases, select_where, first_where, any_where, update_where, length, ok, first-append_new,
  Option-cases, first-update, set_if,
}
use mathlib.Core.Option
use funi.Ladder.Store.Rows.{
  Mode, mode_eq, CreationReason, LegPlan, Leg, Reset, Store, is_ladder, is_leg_of, is_reset_of,
  index_of, insert_by, order_by, load_bid_ladder, list_bid_ladder_legs, load_bid_ladder_usd_reset,
}
use funi.Ladder.Store.Create.{
  Plan, ResetCreation, reason_eq, id_or_empty, linked, reset_clashes, may_link, generation_valid,
  sorted_legs, legs_valid_from, plan_valid, parent_same, same_snapshot, leg_same, legs_same,
  equivalent, lineage_same, lineage_checked, new_ladder, new_leg, with_rows, new_reset, with_link,
  with_reset, create_bid_ladder, hash_text,
}

and_intro : {a b : Bool} → a ≡ true → b ≡ true → (a && b) ≡ true
and_intro p q = ground arith

same_text-lower : (t : Text) → same_text (lower t) t ≡ true
same_text-lower t = rw (lower_idem t) (text_eq_refl (lower t))

num_refl : (n : ℕ) → (n == n) ≡ true
num_refl n = ground arith

tick_refl : (t : ℤ) → eq_ℤ t t ≡ true
tick_refl t = ground arith

mode_refl : (m : Mode) → mode_eq m m ≡ true
mode_refl Mode.dry_run = refl
mode_refl Mode.live = refl

snapshot_refl : (s : Option ℕ) → same_snapshot s s ≡ true
snapshot_refl none = refl
snapshot_refl (some n) = num_refl n

hash_same :
    (h : Option Text)
    → text_eq (hash_text (elim h [ none ↦ none | some t ↦ some (lower t) ])) (hash_text h) ≡ true
hash_same none = text_eq_refl []
hash_same (some t) = rw (lower_idem t) (text_eq_refl (lower t))

parent_same-new : (plan : Plan) → parent_same plan (new_ladder plan) ≡ true
unfolding parent_same
parent_same-new plan = and_intro (text_eq_refl plan.strategy_version) (
    and_intro (mode_refl plan.execution_mode) (
      and_intro (same_text-lower plan.pool_id) (
        and_intro (same_text-lower plan.key.currency0) (
          and_intro (same_text-lower plan.key.currency1) (
            and_intro (num_refl plan.key.fee) (
              and_intro (num_refl plan.key.tick_spacing) (
                and_intro (same_text-lower plan.key.hooks) (
                  and_intro (same_text-lower plan.funding_token) (
                    and_intro (same_text-lower plan.target_token) (
                      and_intro (num_refl plan.funding_index) (
                        and_intro (num_refl plan.target_index) (
                          and_intro (tick_refl plan.tick) (
                            and_intro (num_refl plan.block_number) (
                              and_intro (hash_same plan.reference_block_hash) (
                                and_intro (num_refl plan.total_funding_amount)
                                  (snapshot_refl plan.entry_usd_snapshot))))))))))))))))

leg_same-new : (id : Text) (at : ℕ) (p : LegPlan) → leg_same p (new_leg id at p) ≡ true
leg_same-new id at p =
    and_intro
      (and_intro (num_refl p.leg_index) (
        and_intro (num_refl p.upper_drop_bps) (
          and_intro (num_refl p.lower_drop_bps) (
            and_intro (num_refl p.weight_bps) (
              and_intro (tick_refl p.tick_lower) (
                and_intro (tick_refl p.tick_upper) (
                  and_intro (num_refl p.funding_amount) (
                    and_intro (num_refl p.planned_liquidity)
                      (and_intro (num_refl p.funding_index) (num_refl p.target_index))))))))))
      refl

module _ (id : Text) (at : ℕ) where
  legs_same-new : (ps : List LegPlan) → legs_same ps (map (new_leg id at) ps) ≡ true
  legs_same-new [] = refl
  legs_same-new (p ∷ ps) = and_intro (leg_same-new id at p) (legs_same-new ps)

  length-new : (ps : List LegPlan) → length (map (new_leg id at) ps) ≡ length ps
  length-new [] = refl
  length-new (p ∷ ps) = ap suc (length-new ps)

  -- Rows that were inserted in the order of their indices are listed in it.
  order_by-new :
      (n : ℕ) (ps : List LegPlan)
      → legs_valid_from n ps ≡ true
      → order_by index_of (map (new_leg id at) ps) ≡ map (new_leg id at) ps
  order_by-new n [] v = refl
  order_by-new n (p ∷ []) v = refl
  order_by-new n (p ∷ q ∷ ps) v =
      ap (insert_by index_of (new_leg id at p)) (order_by-new (suc n) (q ∷ ps) (ground arith))
      ∙ ground arith

  select-new :
      (ps : List LegPlan)
      → select_where (is_leg_of id) (map (new_leg id at) ps) ≡ map (new_leg id at) ps
  select-new [] = refl
  select-new (p ∷ ps) = ground (arith, text_eq_refl id, select-new ps)

  select_append-new :
      (ls : List Leg) (ps : List LegPlan)
      → any_where (is_leg_of id) ls ≡ false
      → select_where (is_leg_of id) (ls ++ map (new_leg id at) ps) ≡ map (new_leg id at) ps
  select_append-new [] ps h = select-new ps
  select_append-new (l ∷ ls) ps h = ground (arith, select_append-new ls ps)

reason_refl : (r : CreationReason) → reason_eq r r ≡ true
reason_refl CreationReason.initial_open = refl
reason_refl CreationReason.usdg_reset_reposition = refl

lineage-new : (plan : Plan) (r : ResetCreation) → lineage_same r (some (new_reset plan r)) ≡ true
lineage-new plan r = and_intro (text_eq_refl r.root_ladder_id) (
    and_intro (text_eq_refl (id_or_empty r.previous_ladder_id))
      (and_intro (num_refl r.generation) (reason_refl r.creation_reason)))

-- A link to a child does not touch the lineage.
lineage-link :
    (q : Reset → Bool) (id : Text) (at : ℕ) (r : ResetCreation) (o : Option Reset)
    → lineage_same r (Option.map (set_if q (linked id at)) o) ≡ lineage_same r o
lineage-link q id at r none = refl
lineage-link q id at r (some x) = elim (Bool-cases (q x)) [ inl e ↦ rw e refl | inr e ↦ rw e refl ]

lineage-update :
    (q : Reset → Bool) (id key : Text) (at : ℕ) (r : ResetCreation) (rs : List Reset)
    → lineage_same r (first_where (is_reset_of key) (update_where q (linked id at) rs))
      ≡ lineage_same r (first_where (is_reset_of key) rs)
lineage-update q id key at r rs =
    ap (lineage_same r) (first-update (is_reset_of key) q (linked id at) rs (λ x. refl))
    ∙ lineage-link q id at r (first_where (is_reset_of key) rs)

clash_free :
    (new : Reset) (rs : List Reset)
    → any_where (reset_clashes new) rs ≡ false
    → first_where (is_reset_of new.ladder_id) rs ≡ none
clash_free new [] h = refl
clash_free new (r ∷ rs) h = ground (arith, clash_free new rs)

-- What `with_link` and `with_reset` leave alone, and that the new row's lineage is found again.
abbrev Keeps : Store → Plan → Option ResetCreation → Store → Type 0
Keeps db plan reset db' =
    (db'.ladders ≡ db.ladders)
    × (db'.legs ≡ db.legs)
    × (lineage_checked db' plan.ladder_id reset ≡ true)

with_link-Keeps :
    (db db' : Store) (plan : Plan) (r : ResetCreation) (o : Option Text)
    → lineage_same r (load_bid_ladder_usd_reset db plan.ladder_id) ≡ true
    → with_link db plan o ≡ ok db'
    → Keeps db plan (some r) db'
unfolding load_bid_ladder_usd_reset
with_link-Keeps db db' plan r none known h = ground arith
with_link-Keeps db db' plan r (some previous) known h = ground (
  arith,
  lineage-update (may_link previous plan.ladder_id) plan.ladder_id plan.ladder_id plan.created_at_ms
      r db.resets,
)

with_reset-Keeps :
    (db db' : Store) (plan : Plan) (reset : Option ResetCreation)
    → with_reset db plan reset ≡ ok db'
    → Keeps db plan reset db'
unfolding load_bid_ladder_usd_reset
with_reset-Keeps db db' plan none h = ground arith
with_reset-Keeps db db' plan (some r) h = elim (Bool-cases (generation_valid plan.ladder_id r)) [
  | inr bad ↦ absurd (ground arith)
  | inl good ↦ elim (Bool-cases (any_where (reset_clashes (new_reset plan r)) db.resets)) [
    | inl clash ↦ absurd (ground arith)
    | inr free ↦
        with_link-Keeps (record db { resets = db.resets ++ new_reset plan r ∷ [] }) db' plan r
          r.previous_ladder_id
          (ap (lineage_same r) (
              first-append_new (is_reset_of plan.ladder_id) db.resets (new_reset plan r)
                (clash_free (new_reset plan r) db.resets free) (text_eq_refl plan.ladder_id))
            ∙ lineage-new plan r)
          (ground arith)
  ]
]

-- The facts behind a creation that wrote.
create_facts :
    (db db' : Store) (plan : Plan) (reset : Option ResetCreation)
    → create_bid_ladder db plan reset ≡ ok (db', true)
    → (plan_valid plan ≡ true)
      × (load_bid_ladder db plan.ladder_id ≡ none)
      × (with_reset (with_rows db plan) plan reset ≡ ok db')
unfolding create_bid_ladder
create_facts db db' plan reset h = elim (Bool-cases (plan_valid plan)) [
  | inr bad ↦ absurd (ground arith)
  | inl good ↦ elim (Option-cases (load_bid_ladder db plan.ladder_id)) [
    | inl new ↦ (good, new, ground arith)
    | inr old ↦ absurd (ground arith)
  ]
]

-- The rows that a creation leaves.
pub created_rows :
    (db db' : Store) (plan : Plan) (reset : Option ResetCreation)
    → create_bid_ladder db plan reset ≡ ok (db', true)
    → any_where (is_leg_of plan.ladder_id) db.legs ≡ false
    → (load_bid_ladder db' plan.ladder_id ≡ some (new_ladder plan))
      × (list_bid_ladder_legs db' plan.ladder_id
          ≡ map (new_leg plan.ladder_id plan.created_at_ms) (sorted_legs plan))
unfolding load_bid_ladder list_bid_ladder_legs plan_valid
created_rows db db' plan reset h fresh = do
  let f = create_facts db db' plan reset h
  let k = with_reset-Keeps (with_rows db plan) db' plan reset f.2
  let id = plan.ladder_id
  let at = plan.created_at_ms
  let valid : legs_valid_from 0 (sorted_legs plan) ≡ true = ground (arith, f.0)
  (
    ap (first_where (is_ladder id)) k.0
        ∙ first-append_new (is_ladder id) db.ladders (new_ladder plan) f.1 (text_eq_refl id),
    ap (λ (ls : List Leg). order_by index_of (select_where (is_leg_of id) ls)) k.1
        ∙ ap (order_by index_of) (select_append-new id at db.legs (sorted_legs plan) fresh)
        ∙ order_by-new id at 0 (sorted_legs plan) valid,
  )

-- If a creation wrote, and no leg of that ladder stood without its ladder before, then creating it
-- again from the same plan is accepted and changes nothing.
pub create_again :
    (db db' : Store) (plan : Plan) (reset : Option ResetCreation)
    → create_bid_ladder db plan reset ≡ ok (db', true)
    → any_where (is_leg_of plan.ladder_id) db.legs ≡ false
    → create_bid_ladder db' plan reset ≡ ok (db', false)
unfolding create_bid_ladder plan_valid
create_again db db' plan reset h fresh = do
  let f = create_facts db db' plan reset h
  let k = with_reset-Keeps (with_rows db plan) db' plan reset f.2
  let back = created_rows db db' plan reset h fresh
  let five : (length (sorted_legs plan) == 5) ≡ true = ground (arith, f.0)
  let same : equivalent plan (new_ladder plan) (list_bid_ladder_legs db' plan.ladder_id) ≡ true =
      rw back.1 (
        and_intro (parent_same-new plan) (
          and_intro (rw (length-new plan.ladder_id plan.created_at_ms (sorted_legs plan)) five)
            (legs_same-new plan.ladder_id plan.created_at_ms (sorted_legs plan))))
  ground (arith, f.0, back.0, same, k.2)
