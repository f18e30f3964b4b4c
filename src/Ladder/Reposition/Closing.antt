-- ===== src/Ladder/Reposition/Closing.antt =====
-- What eligibility and the split of the outputs guarantee.
use funi.Common.{
  ℕ, ◌+◌, ◌≡◌, ◌↔◌, ap, ◌≤◌, refl, true, false, List, [], ◌∷◌, ◌++◌, arith, inl, inr, Result-cases,
  length, take, ok,
}
use funi.Ladder.Reposition.Legs.{
  Index, TokenAmounts, on, ExpectedLeg, LegTruth, EligibilityInput, Eligibility, Outputs, Blocker,
  identity_matches, leg_blockers, all_leg_blockers, block_of, set_blockers, no_blockers,
  evaluate_eligibility, classify_outputs,
}

-- A leg that nothing blocks.
pub record IsSound (i : EligibilityInput) (block : ℕ) (e : ExpectedLeg) (leg : LegTruth)
    : Type 0 where
  pub identified : identity_matches i e leg ≡ true
  pub coherent : leg.block_number ≡ block
  pub liquid : 1 ≤ leg.liquidity
  pub no_target : on i.target_index leg.principal ≡ 0
  pub funded : 1 ≤ on i.funding_index leg.principal

-- Two lists of one length, with every pair of them sound.
pub AllSound : EligibilityInput → ℕ → List ExpectedLeg → List LegTruth → Type 0
AllSound i block [] [] = Unit
AllSound i block (e ∷ es) (leg ∷ legs) = IsSound i block e leg × AllSound i block es legs
AllSound i block _ _ = ⊥

leg-IsSound :
    (i : EligibilityInput) (block index : ℕ) (e : ExpectedLeg) (leg : LegTruth) (bs : List Blocker)
    → no_blockers (leg_blockers i block index e leg ++ bs) ≡ true
    → IsSound i block e leg × (no_blockers bs ≡ true)
leg-IsSound i block index e leg bs h = (
  record {
    identified = ground arith;
    coherent = ground arith;
    liquid = ground arith;
    no_target = ground arith;
    funded = ground arith;
  },
  ground arith,
)

legs_sound :
    (i : EligibilityInput) (block index : ℕ) (es : List ExpectedLeg) (legs : List LegTruth)
    (bs : List Blocker)
    → all_leg_blockers i block index es legs ≡ ok bs
    → no_blockers bs ≡ true
    → length es ≡ length legs
    → AllSound i block es legs
unfolding AllSound all_leg_blockers
legs_sound i block index [] [] bs h n len = tt
legs_sound i block index [] (leg ∷ legs) bs h n len = cc
legs_sound i block index (e ∷ es) [] bs h n len = ground arith
legs_sound i block index (e ∷ es) (leg ∷ legs) bs h n len =
    elim (Result-cases (all_leg_blockers i block (index + 1) es legs)) [
      | inr (x, q) ↦ absurd (ground arith)
      | inl (rest, q) ↦
          let both : IsSound i block e leg × (no_blockers rest ≡ true) =
            leg-IsSound i block index e leg rest (ground arith) in
          (both.0, legs_sound i block (index + 1) es legs rest q both.1 (ground arith))
    ]

take_all : (legs : List LegTruth) → take (length legs) legs ≡ legs
take_all [] = refl
take_all (leg ∷ legs) = ap (◌∷◌ leg) (take_all legs)

take_five : (legs : List LegTruth) → length legs ≡ 5 → take 5 legs ≡ legs
take_five legs h = rw h at (take_all legs)

leg_unblocked :
    (i : EligibilityInput) (block index : ℕ) (e : ExpectedLeg) (leg : LegTruth)
    → IsSound i block e leg
    → leg_blockers i block index e leg ≡ []
leg_unblocked i block index e leg s =
    ground (arith, s.identified, s.coherent, s.liquid, s.no_target, s.funded)

legs_unblocked :
    (i : EligibilityInput) (block index : ℕ) (es : List ExpectedLeg) (legs : List LegTruth)
    → AllSound i block es legs
    → all_leg_blockers i block index es legs ≡ ok []
unfolding AllSound all_leg_blockers
legs_unblocked i block index [] [] h = refl
legs_unblocked i block index [] (leg ∷ legs) h = absurd h
legs_unblocked i block index (e ∷ es) [] h = refl
legs_unblocked i block index (e ∷ es) (leg ∷ legs) h =
    ground
      (arith, leg_unblocked i block index e leg h.0, legs_unblocked i block (index + 1) es legs h.1)

-- The condition for closing and opening again.
pub record IsEligible (i : EligibilityInput) : Type 0 where
  pub five_expected : length i.expected_legs ≡ 5
  pub five_legs : length i.legs ≡ 5
  pub resolved : i.unresolved_transactions ≡ 0
  pub certain : i.nonce_ambiguous ≡ false
  pub sound : AllSound i (block_of i.legs) i.expected_legs i.legs

module _ (i : EligibilityInput) (r : Eligibility) where
  eligible-IsEligible : evaluate_eligibility i ≡ ok r → r.eligible ≡ true → IsEligible i
  unfolding evaluate_eligibility
  eligible-IsEligible h e =
      elim (Result-cases (all_leg_blockers i (block_of i.legs) 0 i.expected_legs (take 5 i.legs))) [
        | inr (x, q) ↦ absurd (ground arith)
        | inl (bs, q) ↦
            let none_left : no_blockers (set_blockers i ++ bs) ≡ true = ground arith in
            let five : length i.legs ≡ 5 = ground arith in
            record {
              five_expected = ground arith;
              five_legs = five;
              resolved = ground arith;
              certain = ground arith;
              sound =
                  legs_sound i (block_of i.legs) 0 i.expected_legs i.legs bs
                    (rw (take_five i.legs five) at q) (ground arith) (ground arith);
            }
      ]

  IsEligible-eligible : evaluate_eligibility i ≡ ok r → IsEligible i → r.eligible ≡ true
  unfolding evaluate_eligibility
  IsEligible-eligible h v =
      let q : all_leg_blockers i (block_of i.legs) 0 i.expected_legs (take 5 i.legs) ≡ ok [] =
        rw (take_five i.legs v.five_legs)
          (legs_unblocked i (block_of i.legs) 0 i.expected_legs i.legs v.sound) in
      ground (arith, v.five_expected, v.five_legs, v.resolved, v.certain)

-- An evaluation that returns says eligible exactly if there are five expected legs and five legs, no
-- transaction is unresolved, the nonce is not ambiguous, and each leg is the expected position of the
-- wallet in the pool, read at one block, with liquidity, with some funding principal and with no
-- target principal.
pub eligible_iff :
    (i : EligibilityInput) (r : Eligibility)
    → evaluate_eligibility i ≡ ok r
    → (r.eligible ≡ true) ↔ IsEligible i
eligible_iff i r h = (eligible-IsEligible i r h, IsEligible-eligible i r h)

-- The outputs that a classification returns add up: for the funding token and for the target token the returned principal and the returned fee are
-- together what the receipt transferred.
pub outputs_add_up :
    (principal transfers : TokenAmounts) (funding target : Index) (o : Outputs)
    → classify_outputs principal transfers funding target ≡ ok o
    → (o.returned_usdg_principal + o.returned_usdg_fee ≡ on funding transfers)
      × (o.returned_target_principal + o.returned_target_fee ≡ on target transfers)
unfolding classify_outputs
outputs_add_up principal transfers funding target o h = ground arith
