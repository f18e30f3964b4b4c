-- ===== src/Ledger/Canary/Exclusive.antt =====
-- Claims of the budget exclude each other until a manual reset.
use funi.Common.{
  ℕ, ◌+◌, ◌≤◌, ◌≡◌, refl, inl, inr, Bool, true, false, Option, none, some, List, [], ◌∷◌, arith,
  Text, if◌then◌else◌, Result, ok, err, Bool-cases, not, ◌||◌, ◌++◌, text_eq, leb, first_where,
}
use funi.Ledger.Confirmation.Defs
use funi.Ledger.Confirmation.Defs.{Request, is_awaiting, has_id}
use funi.Ledger.Canary.Budget.{
  Budget, IntentState, previewed, Intent, Canary, Submitted, budget_available, is_available,
  claim_budget, update_canary_budget_state, finalize_canary_budget, request_canary_budget_reset,
  reset_canary_budget, updated_budget, finalized, with_token, budget_reset, holds_token,
  canary_budget_available,
}
use funi.Ledger.Canary.Claims.{
  Error, Patch, ClaimStatus, was_claimed, already_claimed, DirectClaim, ConfirmationClaim,
  create_canary_intent, claim_prepared_canary_intent, claim_direct_canary_intent,
  claim_canary_confirmation, claim_canary_intent, transition_canary_intent, insert_intent,
  log_transition, created, if_available, claimed_with, selection_current, is_selection, new_intent,
  with_request, mint_action, invalid_intent, stale_pool_selection, invalid_confirmation,
  confirmation_not_active, confirmation_expired, claim_prepared, claim_direct, claim_request,
  claim_confirmation, canary_intent, canary_intent_by_key,
}

pub data Call : Type 0 where
  creates : (id wallet owner key payload : Text) → ℕ → Call
  claims_prepared : (id owner wallet : Text) → ℕ → Call
  claims_direct : DirectClaim → Call
  claims_confirmation : ConfirmationClaim → Call
  simulates : Text → ℕ → Call
  transitions : Text → IntentState → Patch → ℕ → Call
  submits : Submitted → Text → ℕ → Call
  finalizes : Text → Bool → Option Text → Option ℕ → ℕ → Call
  asks_reset : Text → ℕ → ℕ → Call
  resets : Text → ℕ → Call

-- What a call answers: that it claimed the budget, that it reset it, or something else.
pub data Reply : Type 0 where
  claimed : Reply
  was_reset : Reply
  other : Reply

abbrev pub reply_of : ClaimStatus → Reply
reply_of was_claimed = claimed
reply_of _ = other

abbrev pub claim_outcome : Canary → Result Error (Canary × ClaimStatus) → Canary × Reply
claim_outcome s (ok (s', r)) = (s', reply_of r)
claim_outcome s (err e) = (s, other)

abbrev pub plain : Canary → Result Error Canary → Canary × Reply
plain s (ok s') = (s', other)
plain s (err e) = (s, other)

abbrev pub reset_outcome : Canary × Bool → Canary × Reply
reset_outcome (s, true) = (s, was_reset)
reset_outcome (s, false) = (s, other)

abbrev pub claims : Reply → ℕ
claims claimed = 1
claims _ = 0

abbrev pub fills : Reply → ℕ
fills was_reset = 1
fills _ = 0

module _ (sha256 : Text → Text) where
  unfoldable pub step : Canary → Call → Canary × Reply
  step s (creates id wallet owner key payload at) =
      plain s (create_canary_intent s id wallet owner key payload at)
  step s (claims_prepared id owner wallet at) =
      claim_outcome s (claim_prepared_canary_intent s id owner wallet at)
  step s (claims_direct c) = claim_outcome s (claim_direct_canary_intent s c)
  step s (claims_confirmation c) = claim_outcome s (claim_canary_confirmation s c)
  step s (simulates id at) = ((claim_canary_intent s id at).0, other)
  step s (transitions id st p at) = plain s (transition_canary_intent s id st p at)
  step s (submits to id at) = ((update_canary_budget_state s to id at).0, other)
  step s (finalizes id done reason allowance at) =
      ((finalize_canary_budget s id done reason allowance at).0, other)
  step s (asks_reset token now ttl) = (request_canary_budget_reset sha256 s token now ttl, other)
  step s (resets token now) = reset_outcome (reset_canary_budget sha256 s token now)

  unfoldable pub claims_in : Canary → List Call → ℕ
  claims_in s [] = 0
  claims_in s (c ∷ cs) = claims (step s c).1 + claims_in (step s c).0 cs

  unfoldable pub resets_in : Canary → List Call → ℕ
  resets_in s [] = 0
  resets_in s (c ∷ cs) = fills (step s c).1 + resets_in (step s c).0 cs

abbrev free : Option Budget → ℕ
free b = if budget_available b then 1 else 0

-- A claim takes what is free.
abbrev Takes : Canary → Canary × Reply → Type 0
Takes s x = claims x.1 + free x.0.budget ≤ free s.budget + fills x.1

log_transition_budget :
    (s : Canary) (id : Text) (st : IntentState) (at : ℕ)
    → (log_transition s id st at).budget ≡ s.budget
log_transition_budget s id st at = ground arith

abbrev KeepsBudget : Option Budget → Result Error Canary → Type 0
KeepsBudget b (ok s) = s.budget ≡ b
KeepsBudget b (err e) = Unit {0}

insert_intent_budget : (s : Canary) (i : Intent) → KeepsBudget s.budget (insert_intent s i)
insert_intent_budget s i = ground (
  arith,
  log_transition_budget (record s { intents = s.intents ++ i ∷ [] }) i.id previewed i.created_at,
)

created_budget :
    (o : Option Intent) (s : Canary) (i : Intent) → KeepsBudget s.budget (created o s i)
created_budget (some x) s i = refl
created_budget none s i = insert_intent_budget s i

plain-Takes : (s : Canary) (r : Result Error Canary) → KeepsBudget s.budget r → Takes s (plain s r)
plain-Takes s (ok s') h = ground arith
plain-Takes s (err e) h = ground arith

free_le : (o : Option Budget) → free o ≤ 1
free_le o = ground arith

-- What follows a claim of the budget claims at most once, and frees nothing.
abbrev Once : Canary → (Canary → Result Error (Canary × ClaimStatus)) → Type 0
Once s rest =
    (s' : Canary)
    → budget_available s'.budget ≡ false
    → (claims (claim_outcome s (rest s')).1 + free (claim_outcome s (rest s')).0.budget ≤ 1)

other-Takes :
    (s s' : Canary) (r : ClaimStatus)
    → reply_of r ≡ other
    → s'.budget ≡ s.budget
    → Takes s (claim_outcome s (ok (s', r)))
other-Takes s s' r e h = ground arith

-- A claim writes only a budget that was available, and then it is not.
if_available-Takes :
    (s : Canary) (o : Option Budget) (id : Text) (at : ℕ)
    (rest : Canary → Result Error (Canary × ClaimStatus))
    → s.budget ≡ o
    → Once s rest
    → Takes s (claim_outcome s (if_available s o id at rest))
if_available-Takes s none id at rest e h = ground arith
if_available-Takes s (some b) id at rest e h = elim (Bool-cases (is_available b)) [
  | inl filled ↦ ground (arith, e, h (claim_budget s b id at) refl)
  | inr shut ↦ ground (arith, e)
]

claimed_with-Takes :
    (s s' : Canary) (r : Result Error Canary)
    → budget_available s'.budget ≡ false
    → KeepsBudget s'.budget r
    → claims (claim_outcome s (claimed_with r)).1 + free (claim_outcome s (claimed_with r)).0.budget
      ≤ 1
claimed_with-Takes s s' (ok t) shut k = ground arith
claimed_with-Takes s s' (err e) shut k = omega (arith, free_le s.budget)

claim_prepared-Takes :
    (s : Canary) (o : Option Intent) (owner wallet : Text) (at : ℕ)
    → Takes s (claim_outcome s (claim_prepared s o owner wallet at))
claim_prepared-Takes s none owner wallet at = other-Takes s s invalid_intent refl refl
claim_prepared-Takes s (some i) owner wallet at = ground (
  arith,
  if_available-Takes s s.budget i.id at (λ (t : Canary). ok (t, was_claimed)) refl
      (λ t shut. ground arith),
)

claim_direct-Takes :
    (s : Canary) (c : DirectClaim) (o : Option Intent)
    → Takes s (claim_outcome s (claim_direct s c o))
claim_direct-Takes s c (some x) = other-Takes s s already_claimed refl refl
claim_direct-Takes s c none =
    elim (Bool-cases
      (selection_current c (first_where (is_selection c.selection_id) s.selections))) [
        | inr stale ↦ rw stale (other-Takes s s stale_pool_selection refl refl)
        | inl current ↦ rw current (
            if_available-Takes s s.budget c.new_id c.now _ refl (λ t shut.
              claimed_with-Takes s t
                (insert_intent t (new_intent c.new_id c.wallet c.owner c.key c.payload c.now)) shut
                (insert_intent_budget t _)))
      ]

claim_request-Takes :
    (s : Canary) (c : ConfirmationClaim) (o : Option Request)
    → Takes s (claim_outcome s (claim_request s c o))
claim_request-Takes s c none = other-Takes s s invalid_confirmation refl refl
claim_request-Takes s c (some r) =
    elim (Bool-cases (not (text_eq r.owner c.owner) || not (text_eq r.action mint_action))) [
      | inl e ↦ rw e (other-Takes s s invalid_confirmation refl refl)
      | inr e ↦ rw e (elim (Bool-cases (is_awaiting r.state)) [
        | inr f ↦ rw f (other-Takes s s confirmation_not_active refl refl)
        | inl f ↦ rw f (elim (Bool-cases (leb r.expires_at c.now)) [
          | inl g ↦ rw g (
              other-Takes s (with_request s c.confirmation_id Defs.State.expired c.now)
                confirmation_expired refl refl)
          | inr g ↦ rw g (
              if_available-Takes s s.budget c.new_id c.now _ refl (λ t shut.
                claimed_with-Takes s t
                  (insert_intent (with_request t c.confirmation_id Defs.State.confirmed c.now)
                    (new_intent c.new_id c.wallet c.owner c.key c.payload c.now))
                  shut
                  (insert_intent_budget
                    (with_request t c.confirmation_id Defs.State.confirmed c.now) _)))
        ])
      ])
    ]

claim_confirmation-Takes :
    (s : Canary) (c : ConfirmationClaim) (o : Option Intent)
    → Takes s (claim_outcome s (claim_confirmation s c o))
claim_confirmation-Takes s c (some x) = other-Takes s s already_claimed refl refl
claim_confirmation-Takes s c none =
    claim_request-Takes s c (first_where (has_id c.confirmation_id) s.requests)

updated_budget-Takes :
    (s : Canary) (o : Option Budget) (to : Submitted) (id : Text) (at : ℕ)
    → s.budget ≡ o
    → Takes s ((updated_budget s o to id at).0, other)
updated_budget-Takes s none to id at e = ground arith
updated_budget-Takes s (some b) to id at e = ground arith

finalized-Takes :
    (s : Canary) (o : Option Budget) (id : Text) (done : Bool) (r : Option Text) (a : Option ℕ)
    (at : ℕ)
    → s.budget ≡ o
    → Takes s ((finalized s o id done r a at).0, other)
finalized-Takes s none id done r a at e = ground arith
finalized-Takes s (some b) id done r a at e = ground arith

with_token-Takes :
    (sha256 : Text → Text) (s : Canary) (o : Option Budget) (token : Text) (now ttl : ℕ)
    → s.budget ≡ o
    → Takes s (with_token sha256 s o token now ttl, other)
with_token-Takes sha256 s none token now ttl e = ground arith
with_token-Takes sha256 s (some b) token now ttl e = ground arith

budget_reset-Takes :
    (sha256 : Text → Text) (s : Canary) (o : Option Budget) (token : Text) (now : ℕ)
    → s.budget ≡ o
    → Takes s (reset_outcome (budget_reset sha256 s o token now))
budget_reset-Takes sha256 s none token now e = ground arith
budget_reset-Takes sha256 s (some b) token now e =
    elim (Bool-cases (holds_token sha256 token now b)) [
      | inl good ↦ rw good (omega arith)
      | inr bad ↦ rw bad (omega arith)
    ]

simulates-Takes :
    (s : Canary) (id : Text) (at : ℕ) → Takes s ((claim_canary_intent s id at).0, other)
unfolding claim_canary_intent
simulates-Takes s id at = ground arith

transition-KeepsBudget :
    (s : Canary) (id : Text) (st : IntentState) (p : Patch) (at : ℕ)
    → KeepsBudget s.budget (transition_canary_intent s id st p at)
unfolding transition_canary_intent
transition-KeepsBudget s id st p at = ground arith

module _ (sha256 : Text → Text) where
  step-Takes : (s : Canary) (c : Call) → Takes s (step sha256 s c)
  unfolding step create_canary_intent claim_prepared_canary_intent claim_direct_canary_intent
      claim_canary_confirmation update_canary_budget_state finalize_canary_budget
      request_canary_budget_reset reset_canary_budget
  step-Takes s (creates id wallet owner key payload at) =
      plain-Takes s (create_canary_intent s id wallet owner key payload at)
        (created_budget (canary_intent_by_key s key) s (new_intent id wallet owner key payload at))
  step-Takes s (claims_prepared id owner wallet at) =
      claim_prepared-Takes s (canary_intent s id) owner wallet at
  step-Takes s (claims_direct c) = claim_direct-Takes s c (canary_intent_by_key s c.key)
  step-Takes s (claims_confirmation c) = claim_confirmation-Takes s c (canary_intent_by_key s c.key)
  step-Takes s (simulates id at) = simulates-Takes s id at
  step-Takes s (transitions id st p at) =
      plain-Takes s (transition_canary_intent s id st p at) (transition-KeepsBudget s id st p at)
  step-Takes s (submits to id at) = updated_budget-Takes s s.budget to id at refl
  step-Takes s (finalizes id done r a at) = finalized-Takes s s.budget id done r a at refl
  step-Takes s (asks_reset token now ttl) = with_token-Takes sha256 s s.budget token now ttl refl
  step-Takes s (resets token now) = budget_reset-Takes sha256 s s.budget token now refl

  run-Takes :
      (s : Canary) (cs : List Call) → claims_in sha256 s cs ≤ free s.budget + resets_in sha256 s cs
  unfolding claims_in resets_in
  run-Takes s [] = omega arith
  run-Takes s (c ∷ cs) = omega (arith, step-Takes s c, run-Takes (step sha256 s c).0 cs)

  -- Through every sequence of calls on the canary, in any order, no more claims of the budget succeed
  -- than manual resets, and one more if it was available at the start.
  pub claims_exclude :
      (s : Canary) (cs : List Call)
      → claims_in sha256 s cs ≤ (if canary_budget_available s then 1 else 0) + resets_in sha256 s cs
  unfolding canary_budget_available
  claims_exclude s cs = run-Takes s cs
