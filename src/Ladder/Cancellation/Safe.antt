-- ===== src/Ladder/Cancellation/Safe.antt =====
-- What a cancellation proves, and what it leaves.
use funi.Common.{
  ℕ, ◌+◌, ◌≤◌, ◌≡◌, refl, ap, ◌∙◌, inl, inr, true, false, ◌&&◌, not, Option, some, List, [], ◌∷◌,
  ◌++◌, arith, Text, text_eq, ◌==◌, Bool-cases, Option-cases, any_where, first_where, count_where,
  length, ok, first-update, set_if, first_where-true,
}
use mathlib.Core.Option
use funi.Ladder.Store.Rows.{
  planned, cancelled, status_eq, live, Ladder, Leg, Store, is_ladder, load_bid_ladder,
  list_bid_ladder_legs,
}
use funi.Ladder.Cancellation.Evidence.{Json, Evidence}
use funi.Ladder.Cancellation.Blockers.{
  auto_expiry_ms, Blocker, when, is_clear, parent_blockers, leg_advanced, leg_minted, leg_batched,
  leg_blockers, evidence_blockers, leg_tokens, planned_v4_bid_ladder_cancellation_status,
}
use funi.Ladder.Store.Create.{version_v1}
use funi.Ladder.Cancellation.Harmless.{split_empty, when_empty, IsHarmless, evidence-IsSilent}
use funi.Ladder.Cancellation.Cancel.{
  was_cancelled, already_cancelled, is_cancellable, cancelled_ladder, is_cancellable_leg,
  with_cancelled, write_cancelled, cancel_current, cancel_planned_v4_bid_ladder,
}

clear_empty : (bs : List Blocker) → is_clear bs ≡ true → bs ≡ []
clear_empty [] h = refl
clear_empty (b ∷ bs) h = cc

module _ (parse : Text → Option Json) (date_parse : Text → Option ℕ) where
  parent_harmless :
      (p : Ladder) (revision now : ℕ)
      → parent_blockers p revision now ≡ []
      → (text_eq p.strategy_version version_v1 ≡ true)
        × (p.execution_mode ≡ live)
        × (p.updated_at_ms + auto_expiry_ms ≤ now)
  unfolding parent_blockers
  parent_harmless p revision now h = ground arith

  legs_harmless :
      (legs : List Leg)
      → leg_blockers legs ≡ []
      → (length legs ≡ 5)
        × (any_where leg_advanced legs ≡ false)
        × (any_where leg_minted legs ≡ false)
        × (any_where leg_batched legs ≡ false)
  unfolding leg_blockers
  legs_harmless legs h =
      let a = split_empty (when (not (length legs == 5)) Blocker.leg_set_ambiguous) _ h in
      let b = split_empty (when (any_where leg_advanced legs) Blocker.leg_state_advanced) _ a.1 in
      let c = split_empty (when (any_where leg_minted legs) Blocker.minted_token_evidence) _ b.1 in
      (
        ground (arith, when_empty (not (length legs == 5)) Blocker.leg_set_ambiguous a.0),
        when_empty _ _ b.0,
        when_empty _ _ c.0,
        when_empty _ _ c.1,
      )

  written :
      (db db' : Store) (id reason : Text) (revision now n : ℕ)
      → write_cancelled db id revision reason now ≡ ok (db', was_cancelled n)
      → (db' ≡ with_cancelled db id revision reason now)
        × (n ≡ revision + 1)
        × (count_where (is_cancellable_leg id) db.legs ≡ 5)
  written db db' id reason revision now n h = ground arith

  -- The facts behind a cancellation that wrote.
  current_facts :
      (db db' : Store) (e : Evidence) (id reason : Text) (revision now n : ℕ) (p : Ladder)
      → cancel_current parse date_parse db e id revision reason now (some p)
        ≡ ok (db', was_cancelled n)
      → (status_eq p.status cancelled ≡ false)
        × ((status_eq p.status planned && (p.revision == revision)) ≡ true)
        × ((planned_v4_bid_ladder_cancellation_status parse date_parse db e id revision
              now).eligible
            ≡ true)
        × (write_cancelled db id revision reason now ≡ ok (db', was_cancelled n))
  current_facts db db' e id reason revision now n p h =
      elim (Bool-cases (status_eq p.status cancelled)) [
        | inl gone ↦ absurd (ground arith)
        | inr alive ↦ elim (Bool-cases (status_eq p.status planned && (p.revision == revision))) [
          | inr changed ↦ absurd (ground arith)
          | inl current ↦
              elim (Bool-cases
                (planned_v4_bid_ladder_cancellation_status parse date_parse db e id revision
                  now).eligible) [
                    | inr refused ↦ absurd (ground arith)
                    | inl eligible ↦ (alive, current, eligible, ground arith)
                  ]
        ]
      ]

  eligible_facts :
      (db : Store) (e : Evidence) (id : Text) (revision now : ℕ) (p : Ladder)
      → load_bid_ladder db id ≡ some p
      → status_eq p.status cancelled ≡ false
      → (planned_v4_bid_ladder_cancellation_status parse date_parse db e id revision now).eligible
        ≡ true
      → parent_blockers p revision now
          ++ (leg_blockers (list_bid_ladder_legs db id)
              ++ evidence_blockers parse date_parse e id
                  (leg_tokens (list_bid_ladder_legs db id))
                  now)
        ≡ []
  unfolding planned_v4_bid_ladder_cancellation_status
  eligible_facts db e id revision now p found alive h = clear_empty _ (ground (arith, found))

  -- If a cancellation wrote, the ladder was of the first strategy version, live, planned, at the
  -- expected revision and untouched for thirty minutes, and its five legs were planned with no token
  -- and no batch. No journal row, unfinished intent, receipt, position, unreleased exposure, active
  -- callback, live session or awaited confirmation names it, and no advanced open intent, nor one with
  -- gas or receipt evidence, as there is none of its own; no position or lifecycle row names a token of
  -- its legs, and every nonce mutex is over. What it wrote is its two updates, and the revision that it
  -- returns is the next one.
  pub cancelled-IsHarmless :
      (db db' : Store) (e : Evidence) (id reason : Text) (revision now n : ℕ)
      → cancel_planned_v4_bid_ladder parse date_parse db e id revision reason now
        ≡ ok (db', was_cancelled n)
      → IsHarmless parse date_parse db e id revision now
        × (db' ≡ with_cancelled db id revision reason now)
        × (n ≡ revision + 1)
  unfolding cancel_planned_v4_bid_ladder
  cancelled-IsHarmless db db' e id reason revision now n h =
      elim (Option-cases (load_bid_ladder db id)) [
        | inl missing ↦ absurd (ground arith)
        | inr (p, found) ↦ do
          let c = current_facts db db' e id reason revision now n p (ground (arith, found))
          let clear = eligible_facts db e id revision now p found c.0 c.2
          let s0 = split_empty (parent_blockers p revision now) _ clear
          let s1 = split_empty (leg_blockers (list_bid_ladder_legs db id)) _ s0.1
          let mine = parent_harmless p revision now s0.0
          let legs = legs_harmless (list_bid_ladder_legs db id) s1.0
          let planned_now : p.status ≡ planned = ground (arith, c.1)
          let expected_now : p.revision ≡ revision = ground (arith, c.1)
          let w = written db db' id reason revision now n c.3
          (
            record {
              parent = p;
              is_stored = found;
              is_planned = planned_now;
              is_v1 = mine.0;
              is_live = mine.1;
              is_expected = expected_now;
              is_abandoned = mine.2;
              has_five_legs = legs.0;
              legs_planned = legs.1;
              legs_unminted = legs.2;
              legs_unbatched = legs.3;
              nothing_refers =
                  evidence-IsSilent parse date_parse e id (leg_tokens (list_bid_ladder_legs db id))
                    now s1.1;
            },
            w.0,
            w.1,
          )
      ]

  cancelled_row :
      (id reason : Text) (revision now : ℕ) (l : Ladder)
      → is_cancellable id revision l ≡ true
      → set_if (is_cancellable id revision) (cancelled_ladder reason now) l
        ≡ cancelled_ladder reason now l
  cancelled_row id reason revision now l h = rw h refl

  -- If a cancellation wrote, then cancelling the same ladder again, whatever the evidence, the expected
  -- revision, the reason and the instant, answers that it was cancelled already and writes nothing.
  pub cancelled_is_settled :
      (db db' : Store) (e e' : Evidence) (id reason reason' : Text)
      (revision now n revision' now' : ℕ)
      → cancel_planned_v4_bid_ladder parse date_parse db e id revision reason now
        ≡ ok (db', was_cancelled n)
      → cancel_planned_v4_bid_ladder parse date_parse db' e' id revision' reason' now'
        ≡ ok (db', already_cancelled)
  unfolding cancel_planned_v4_bid_ladder load_bid_ladder
  cancelled_is_settled db db' e e' id reason reason' revision now n revision' now' h =
      elim (Option-cases (load_bid_ladder db id)) [
        | inl missing ↦ absurd (ground arith)
        | inr (p, found) ↦ do
          let c = current_facts db db' e id reason revision now n p (ground (arith, found))
          let w = written db db' id reason revision now n c.3
          let own : is_ladder id p ≡ true = first_where-true (is_ladder id) db.ladders found
          let hit : is_cancellable id revision p ≡ true = ground (arith, own, c.1)
          let back : load_bid_ladder db' id ≡ some (cancelled_ladder reason now p) =
              ap (λ (s : Store). first_where (is_ladder id) s.ladders) w.0
              ∙ first-update (is_ladder id) (is_cancellable id revision)
                  (cancelled_ladder reason now) db.ladders (λ x. refl)
              ∙ ap (Option.map (set_if (is_cancellable id revision) (cancelled_ladder reason now)))
                  found
              ∙ ap some (cancelled_row id reason revision now p hit)
          ground (arith, back)
      ]
