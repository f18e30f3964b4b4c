-- ===== src/Ladder/Store/Moves.antt =====
-- A transition is a compare-and-set on the phase.
use funi.Common.{
  ◌≤◌, ◌≡◌, refl, inl, inr, Bool, true, false, not, ◌&&◌, List, [], ◌∷◌, arith, ◌==◌, any_where,
  count_where, update_where, ok, err, Result, Result-cases, text_eq, text_eq_iff, count-update_le,
  ◌>>◌, throw_if, All,
}
use funi.Ladder.Store.Rows.{Reset, is_reset_of}
use funi.Ladder.Store.Reset.{
  Error, transition_invalid, amount_invalid, constraint, transition_conflict, TransitionInput,
  in_phases, has_negative, is_empty_list, moved, in_reach, phase_allowed, breaks,
  transition_bid_ladder_usd_reset,
}

guards_pass :
    {E A : Type 0} (a b c d : Bool) (e f g h : E) (x y : A)
    → (do throw_if a e; throw_if b f; throw_if c g; throw_if (not d) h; ok x) ≡ ok y
    → (d ≡ true) × (c ≡ false) × (y ≡ x)
guards_pass a b c d e f g h x y p = ground arith

guards_stop :
    {E A : Type 0} (a b c d : Bool) (e f g h : E) (x : A)
    → a ≡ false
    → b ≡ false
    → c ≡ false
    → d ≡ false
    → (do throw_if a e; throw_if b f; throw_if c g; throw_if (not d) h; ok x) ≡ err h
guards_stop a b c d e f g h x p q r s = ground arith

-- The facts behind a transition that wrote.
transition_facts :
    (rs rs' : List Reset) (i : TransitionInput)
    → transition_bid_ladder_usd_reset rs i ≡ ok rs'
    → (count_where (in_reach i) rs ≡ 1)
      × (breaks i rs ≡ false)
      × (rs' ≡ update_where (in_reach i) (moved i) rs)
unfolding transition_bid_ladder_usd_reset
transition_facts rs rs' i h = do
  let g =
      guards_pass (is_empty_list i.from) (has_negative i) (breaks i rs)
        (count_where (in_reach i) rs == 1) transition_invalid amount_invalid constraint
        transition_conflict (update_where (in_reach i) (moved i) rs) rs' h
  (ground (arith, g.0), g.1, g.2)

breaks_none :
    (j : TransitionInput) (rs : List Reset) → count_where (in_reach j) rs ≡ 0 → breaks j rs ≡ false
breaks_none j rs h = ground (arith, none_breaks rs h, none_in_reach rs h)
  where
    none_breaks :
        (xs : List Reset)
        → count_where (in_reach j) xs ≡ 0
        → any_where (λ r. in_reach j r && not (phase_allowed (moved j r))) xs ≡ false
    none_breaks [] z = refl
    none_breaks (r ∷ xs) z = ground (arith, none_breaks xs)

    none_in_reach :
        (xs : List Reset) → count_where (in_reach j) xs ≡ 0 → any_where (in_reach j) xs ≡ false
    none_in_reach [] z = refl
    none_in_reach (r ∷ xs) z = ground (arith, none_in_reach xs)

-- Of the one row of a ladder nothing is left in the phases that it has left.
module _ (i j : TransitionInput) (same : i.ladder_id ≡ j.ladder_id)
    (left : in_phases j.from i.to ≡ false) where
  reached_by_none :
      (rs : List Reset)
      → count_where (is_reset_of i.ladder_id) rs ≡ 0
      → (count_where (in_reach i) rs ≡ 0)
        × (count_where (in_reach j) (update_where (in_reach i) (moved i) rs) ≡ 0)
  reached_by_none [] h = (refl, refl)
  reached_by_none (r ∷ rs) h = ground (arith, same, reached_by_none rs)

  reached_again :
      (rs : List Reset)
      → count_where (is_reset_of i.ladder_id) rs ≤ 1
      → count_where (in_reach i) rs ≡ 1
      → count_where (in_reach j) (update_where (in_reach i) (moved i) rs) ≡ 0
  reached_again [] le h = refl
  reached_again (r ∷ rs) le h = ground (arith, same, left, reached_by_none rs, reached_again rs)

-- A run of transitions; one that throws leaves the rows as they were.
abbrev pub kept_or : List Reset → Result Error (List Reset) → List Reset
kept_or rs (ok rs') = rs'
kept_or rs (err e) = rs

unfoldable pub run : List Reset → List TransitionInput → List Reset
run rs [] = rs
run rs (c ∷ cs) = run (kept_or rs (transition_bid_ladder_usd_reset rs c)) cs

-- A transition that does not move the ladder of `j` to a phase that `j` starts from.
abbrev pub stays_past : TransitionInput → TransitionInput → Bool
stays_past j c = not (text_eq c.ladder_id j.ladder_id && in_phases j.from c.to)

moved-stays_past :
    (rs : List Reset) (j c : TransitionInput)
    → stays_past j c ≡ true
    → count_where (in_reach j) rs ≡ 0
    → count_where (in_reach j) (update_where (in_reach c) (moved c) rs) ≡ 0
moved-stays_past rs j c past h = omega (
  arith,
  h,
  count-update_le (in_reach j) (in_reach c) (moved c) rs (λ r m n. ground (
    arith,
    past,
    text_eq_iff r.ladder_id c.ladder_id,
    text_eq_iff r.ladder_id j.ladder_id,
    text_eq_iff c.ladder_id j.ladder_id,
  )),
)

run-stays_past :
    (j : TransitionInput) (cs : List TransitionInput) (rs : List Reset)
    → All (λ c. stays_past j c ≡ true) cs
    → count_where (in_reach j) rs ≡ 0
    → count_where (in_reach j) (run rs cs) ≡ 0
unfolding run
run-stays_past j [] rs past h = h
run-stays_past j (c ∷ cs) rs past h = elim (Result-cases (transition_bid_ladder_usd_reset rs c)) [
  | inl (rs', e) ↦ rw e (
      run-stays_past j cs rs' past.1
        (rw (transition_facts rs rs' c e).2 (moved-stays_past rs j c past.0 h)))
  | inr (x, e) ↦ rw e (run-stays_past j cs rs past.1 h)
]

-- If a transition of a ladder's reset wrote, where the ladder has at most one row, then after any
-- further transitions, none of which moves that ladder to one of the phases of `j`, the transition `j`
-- of the ladder is refused with a conflict, if its phases are without the one that was written, and it
-- names a phase and no negative amount.
pub transition_wins_once :
    (rs rs' : List Reset) (cs : List TransitionInput) (i j : TransitionInput)
    → transition_bid_ladder_usd_reset rs i ≡ ok rs'
    → count_where (is_reset_of i.ladder_id) rs ≤ 1
    → i.ladder_id ≡ j.ladder_id
    → in_phases j.from i.to ≡ false
    → is_empty_list j.from ≡ false
    → has_negative j ≡ false
    → All (λ c. stays_past j c ≡ true) cs
    → transition_bid_ladder_usd_reset (run rs' cs) j ≡ err transition_conflict
unfolding transition_bid_ladder_usd_reset
transition_wins_once rs rs' cs i j h one same left some_from amounts past = do
  let f = transition_facts rs rs' i h
  let none_left : count_where (in_reach j) rs' ≡ 0 = rw f.2 (reached_again i j same left rs one f.0)
  let none_after = run-stays_past j cs rs' past none_left
  guards_stop (is_empty_list j.from) (has_negative j) (breaks j (run rs' cs))
      (count_where (in_reach j) (run rs' cs) == 1) transition_invalid amount_invalid constraint
      transition_conflict (update_where (in_reach j) (moved j) (run rs' cs)) some_from amounts
      (breaks_none j (run rs' cs) none_after) (ground (arith, none_after))
