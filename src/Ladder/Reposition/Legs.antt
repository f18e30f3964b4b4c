-- ===== src/Ladder/Reposition/Legs.antt =====
-- What the chain says of the five positions, and what closing them returned.
use funi.Common.{
  ℕ, ◌+◌, ◌-◌, Bool, true, false, not, ◌&&◌, ◌||◌, List, [], ◌∷◌, ◌++◌, Text, same_text, ltb, ◌==◌,
  if◌then◌else◌, length, take, Result, ok, err, ℤ, above, below,
}

-- An index of the pool's two currencies.
pub data Index : Type 0 where
  zeroth first : Index

pub record TokenAmounts : Type 0 where
  pub token0 : ℕ
  pub token1 : ℕ

abbrev pub on : Index → TokenAmounts → ℕ
on Index.zeroth a = a.token0
on Index.first a = a.token1

pub record ExpectedLeg : Type 0 where
  pub token_id : ℕ
  pub tick_lower : ℤ
  pub tick_upper : ℤ

-- The fields of `V4BidLadderResetLegTruth` that are read.
pub record LegTruth : Type 0 where
  pub token_id : ℕ
  pub owner : Text
  pub pool_id : Text
  pub tick_lower : ℤ
  pub tick_upper : ℤ
  pub liquidity : ℕ
  pub principal : TokenAmounts
  pub block_number : ℕ

pub data Blocker : Type 0 where
  leg_set_invalid unresolved_transaction nonce_ambiguous : Blocker
  leg_identity_mismatch : ℕ → Blocker
  state_not_coherent : Blocker
  liquidity_not_positive : ℕ → Blocker
  target_principal_nonzero : ℕ → Blocker
  usdg_principal_not_positive : ℕ → Blocker

pub data Error : Type 0 where
  -- Reading a field of a missing element.
  type_error : Error
  principal_exceeds_receipt_transfer : Error

pub record EligibilityInput : Type 0 where
  pub wallet : Text
  pub expected_pool_id : Text
  pub funding_index : Index
  pub target_index : Index
  pub expected_legs : List ExpectedLeg
  pub legs : List LegTruth
  pub unresolved_transactions : ℕ
  pub nonce_ambiguous : Bool

abbrev pub eq_ℤ : ℤ → ℤ → Bool
eq_ℤ a b = above a == above b && below a == below b

abbrev pub blocker_if : Bool → Blocker → List Blocker
blocker_if c b = if c then b ∷ [] else []

abbrev pub identity_matches : EligibilityInput → ExpectedLeg → LegTruth → Bool
identity_matches i e leg =
    leg.token_id == e.token_id
    && (same_text leg.owner i.wallet
        && (same_text leg.pool_id i.expected_pool_id
            && (eq_ℤ leg.tick_lower e.tick_lower && eq_ℤ leg.tick_upper e.tick_upper)))

-- The body of the loop.
abbrev pub leg_blockers : EligibilityInput → ℕ → ℕ → ExpectedLeg → LegTruth → List Blocker
leg_blockers i block index e leg =
    blocker_if (not (identity_matches i e leg)) (leg_identity_mismatch index)
    ++ (blocker_if (not (leg.block_number == block)) state_not_coherent
        ++ (blocker_if (leg.liquidity == 0) (liquidity_not_positive index)
            ++ (blocker_if (not (on i.target_index leg.principal == 0))
                  (target_principal_nonzero index)
                ++ blocker_if (on i.funding_index leg.principal == 0)
                    (usdg_principal_not_positive index))))

-- The loop over the legs, beside the expected ones.
unfoldable pub all_leg_blockers :
    EligibilityInput → ℕ → ℕ → List ExpectedLeg → List LegTruth → Result Error (List Blocker)
all_leg_blockers i block index es [] = ok []
all_leg_blockers i block index [] (leg ∷ legs) = err type_error
all_leg_blockers i block index (e ∷ es) (leg ∷ legs) =
    elim (all_leg_blockers i block (index + 1) es legs) [
      | ok bs ↦ ok (leg_blockers i block index e leg ++ bs)
      | err x ↦ err x
    ]

abbrev pub block_of : List LegTruth → ℕ
block_of [] = 0
block_of (leg ∷ legs) = leg.block_number

abbrev pub set_blockers : EligibilityInput → List Blocker
set_blockers i =
    blocker_if (not (length i.expected_legs == 5) || not (length i.legs == 5)) leg_set_invalid
    ++ (blocker_if (not (i.unresolved_transactions == 0)) unresolved_transaction
        ++ blocker_if i.nonce_ambiguous nonce_ambiguous)

abbrev pub sum_on : Index → List LegTruth → ℕ
sum_on t [] = 0
sum_on t (leg ∷ legs) = on t leg.principal + sum_on t legs

pub record Eligibility : Type 0 where
  pub eligible : Bool
  pub usdg_principal : ℕ
  pub target_principal : ℕ

abbrev pub no_blockers : List Blocker → Bool
no_blockers [] = true
no_blockers (b ∷ bs) = false

abbrev pub eligibility_of :
    EligibilityInput → Result Error (List Blocker) → Result Error Eligibility
eligibility_of i (err x) = err x
eligibility_of i (ok bs) = ok (record {
  eligible = no_blockers (set_blockers i ++ bs);
  usdg_principal = sum_on i.funding_index i.legs;
  target_principal = sum_on i.target_index i.legs;
})

-- `evaluateV4BidLadderUsdResetEligibility`, but for its list of blockers.
unfoldable pub evaluate_eligibility : EligibilityInput → Result Error Eligibility
unfolding all_leg_blockers
evaluate_eligibility i =
    eligibility_of i (all_leg_blockers i (block_of i.legs) 0 i.expected_legs (take 5 i.legs))

pub record Outputs : Type 0 where
  pub returned_usdg_principal : ℕ
  pub returned_target_principal : ℕ
  pub returned_usdg_fee : ℕ
  pub returned_target_fee : ℕ
  pub fees : TokenAmounts

-- `classifyV4BidLadderUsdResetOutputs`
unfoldable pub classify_outputs : TokenAmounts → TokenAmounts → Index → Index → Result Error Outputs
classify_outputs principal transfers funding target =
    if ltb transfers.token0 principal.token0 || ltb transfers.token1 principal.token1
    then err principal_exceeds_receipt_transfer
    else (let fees : TokenAmounts = record {
      token0 = transfers.token0 - principal.token0;
      token1 = transfers.token1 - principal.token1;
    } in
        ok (record {
          returned_usdg_principal = on funding principal;
          returned_target_principal = on target principal;
          returned_usdg_fee = on funding fees;
          returned_target_fee = on target fees;
          fees = fees;
        }))
