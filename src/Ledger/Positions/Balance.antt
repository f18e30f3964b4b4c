-- ===== src/Ledger/Positions/Balance.antt =====
-- What the amounts of a position are made of.
use funi.Common.{
  ℕ, ◌+◌, ◌≡◌, refl, Bool, true, false, inl, inr, none, some, List, [], ◌∷◌, ◌++◌, arith, Text,
  text_eq, if◌then◌else◌, coalesce, Bool-cases,
}
use funi.Ledger.Positions.Defs.{
  TokenAmounts, Kind, LedgerEvent, CollectionAllocation, PositionLedger, Ledger, no_amounts,
  new_ledger, applied, logged, ingest, set_unclaimed_fees, allocation_of, Call, ingests,
  sets_unclaimed_fees, ledger_after, step, run, has_key, key_of, lacks_reason, put,
}

-- The two tokens of an amount.
pub data Token : Type 0 where
  first second : Token

abbrev pub of : Token → TokenAmounts → ℕ
of Token.first a = a.token0
of Token.second a = a.token1

abbrev pub is_deposit : Kind → Bool
is_deposit Kind.mint = true
is_deposit Kind.increase = true
is_deposit _ = false

abbrev pub is_decrease : Kind → Bool
is_decrease Kind.decrease = true
is_decrease _ = false

abbrev pub is_collect : Kind → Bool
is_collect Kind.collect = true
is_collect _ = false

-- The amount of a token over the events of some kinds.
unfoldable pub total : Token → (Kind → Bool) → List LedgerEvent → ℕ
total t k [] = 0
total t k (e ∷ es) = (if k e.kind then of t (coalesce e.amounts no_amounts) else 0) + total t k es

unfoldable pub allocated_principal : Token → List CollectionAllocation → ℕ
allocated_principal t [] = 0
allocated_principal t (a ∷ xs) = of t a.principal + allocated_principal t xs

unfoldable pub allocated_fees : Token → List CollectionAllocation → ℕ
allocated_fees t [] = 0
allocated_fees t (a ∷ xs) = of t a.fees + allocated_fees t xs

-- The books of a position, against its own events and allocations.
pub record IsBalanced (p : PositionLedger) : Type 0 where
  pub deposited : (t : Token) → of t p.deposits ≡ total t is_deposit p.events
  pub released :
      (t : Token)
      → of t p.pending_principal + of t p.withdrawn_principal ≡ total t is_decrease p.events
  pub paid_out :
      (t : Token) → of t p.withdrawn_principal + of t p.claimed_fees ≡ total t is_collect p.events
  pub principal_split :
      (t : Token) → of t p.withdrawn_principal ≡ allocated_principal t p.allocations
  pub fees_split : (t : Token) → of t p.claimed_fees ≡ allocated_fees t p.allocations

total-append :
    (t : Token) (k : Kind → Bool) (es : List LedgerEvent) (e : LedgerEvent)
    → total t k (es ++ e ∷ [])
      ≡ total t k es + (if k e.kind then of t (coalesce e.amounts no_amounts) else 0)
unfolding total
total-append t k [] e = omega arith
total-append t k (x ∷ es) e = ground (arith, total-append t k es e)

principal-append :
    (t : Token) (xs : List CollectionAllocation) (a : CollectionAllocation)
    → allocated_principal t (xs ++ a ∷ []) ≡ allocated_principal t xs + of t a.principal
unfolding allocated_principal
principal-append t [] a = omega arith
principal-append t (x ∷ xs) a = ground (arith, principal-append t xs a)

fees-append :
    (t : Token) (xs : List CollectionAllocation) (a : CollectionAllocation)
    → allocated_fees t (xs ++ a ∷ []) ≡ allocated_fees t xs + of t a.fees
unfolding allocated_fees
fees-append t [] a = omega arith
fees-append t (x ∷ xs) a = ground (arith, fees-append t xs a)

-- One event moves the amounts of one token by what the kind says.
module _ (plus : ℕ → ℕ → ℕ) (e : LedgerEvent) (p : PositionLedger) (v : IsBalanced p) where
  abbrev after_event : Kind → PositionLedger
  after_event k = applied plus k e (coalesce e.amounts no_amounts) (logged e p)

  module _ (k : Kind) (h : e.kind ≡ k) (t : Token) where
    deposited_after : of t (after_event k).deposits ≡ total t is_deposit (after_event k).events
    deposited_after = ground (arith, v.deposited t, total-append t is_deposit p.events e, h)

    released_after :
        of t (after_event k).pending_principal + of t (after_event k).withdrawn_principal
        ≡ total t is_decrease (after_event k).events
    released_after = ground (arith, v.released t, total-append t is_decrease p.events e, h)

    paid_out_after :
        of t (after_event k).withdrawn_principal + of t (after_event k).claimed_fees
        ≡ total t is_collect (after_event k).events
    paid_out_after = ground (arith, v.paid_out t, total-append t is_collect p.events e, h)

    principal_split_after :
        of t (after_event k).withdrawn_principal ≡ allocated_principal t (after_event k).allocations
    principal_split_after = ground (
      arith,
      v.principal_split t,
      principal-append t p.allocations
          (allocation_of e (coalesce e.amounts no_amounts) (logged e p)),
    )

    fees_split_after :
        of t (after_event k).claimed_fees ≡ allocated_fees t (after_event k).allocations
    fees_split_after = ground (
      arith,
      v.fees_split t,
      fees-append t p.allocations (allocation_of e (coalesce e.amounts no_amounts) (logged e p)),
    )

  event-IsBalanced : (k : Kind) → e.kind ≡ k → IsBalanced (after_event k)
  event-IsBalanced k h = record {
    deposited = deposited_after k h;
    released = released_after k h;
    paid_out = paid_out_after k h;
    principal_split = principal_split_after k h;
    fees_split = fees_split_after k h;
  }

AllBalanced : Ledger → Type 0
AllBalanced l = (id : Text) → IsBalanced (l.positions id)

put-AllBalanced :
    (l : Ledger) (id : Text) (p : PositionLedger)
    → AllBalanced l
    → IsBalanced p
    → (x : Text) → IsBalanced (put id p l.positions x)
unfolding AllBalanced
put-AllBalanced l id p v b x = elim (Bool-cases (text_eq x id)) [
  | inl e ↦ rw e b
  | inr e ↦ rw e (v x)
]

ingest-AllBalanced :
    (plus : ℕ → ℕ → ℕ) (l : Ledger) (e : LedgerEvent)
    → AllBalanced l
    → AllBalanced (ledger_after l (ingest plus l e))
unfolding AllBalanced ingest
ingest-AllBalanced plus l e v = elim (Bool-cases (has_key (key_of e) l.seen)) [
  | inl y ↦ rw y v
  | inr n ↦ elim (Bool-cases (lacks_reason e.kind e.reason)) [
    | inl y ↦ rw (n, y) v
    | inr m ↦
        rw (n, m)
          (put-AllBalanced l e.position_id _ v
            (event-IsBalanced plus e (l.positions e.position_id) (v e.position_id) e.kind refl))
  ]
]

step-AllBalanced :
    (plus : ℕ → ℕ → ℕ) (l : Ledger) (c : Call) → AllBalanced l → AllBalanced (step plus l c)
unfolding AllBalanced step set_unclaimed_fees
step-AllBalanced plus l (ingests e) v = ingest-AllBalanced plus l e v
step-AllBalanced plus l (sets_unclaimed_fees id none) v = v
step-AllBalanced plus l (sets_unclaimed_fees id (some fees)) v = put-AllBalanced l id _ v (record {
  deposited = (v id).deposited;
  released = (v id).released;
  paid_out = (v id).paid_out;
  principal_split = (v id).principal_split;
  fees_split = (v id).fees_split;
})

run-AllBalanced :
    (plus : ℕ → ℕ → ℕ) (cs : List Call) (l : Ledger) → AllBalanced l → AllBalanced (run plus l cs)
unfolding run
run-AllBalanced plus [] l v = v
run-AllBalanced plus (c ∷ cs) l v =
    run-AllBalanced plus cs (step plus l c) (step-AllBalanced plus l c v)

new-AllBalanced : AllBalanced new_ledger
unfolding AllBalanced total allocated_principal allocated_fees
new-AllBalanced id = record {
  deposited = λ t. ground arith;
  released = λ t. ground arith;
  paid_out = λ t. ground arith;
  principal_split = λ t. ground arith;
  fees_split = λ t. ground arith;
}

-- In a new ledger, after any calls, the books of every position balance for both tokens: deposits
-- are the sum of its mints and increases, pending and withdrawn principal together are the sum of
-- its decreases, withdrawn principal and claimed fees together are the sum of its collects, and they
-- are the sums of the principal and of the fees over its allocations.
pub run-IsBalanced :
    (plus : ℕ → ℕ → ℕ) (cs : List Call) (id : Text)
    → IsBalanced ((run plus new_ledger cs).positions id)
unfolding AllBalanced
run-IsBalanced plus cs id = run-AllBalanced plus cs new_ledger new-AllBalanced id
