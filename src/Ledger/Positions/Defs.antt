-- ===== src/Ledger/Positions/Defs.antt =====
-- The class `Ledger`. Token amounts are non-negative, as those of chain events are.
use funi.Common.{
  ℕ, ◌+◌, ◌-◌, Bool, true, false, ◌&&◌, Option, none, some, List, [], ◌∷◌, ◌++◌, Text, text_eq, ltb,
  ◌==◌, if◌then◌else◌, coalesce, Result, ok, err,
}

pub record TokenAmounts : Type 0 where
  pub token0 : ℕ
  pub token1 : ℕ

pub data Kind : Type 0 where
  mint increase decrease collect swap gas manual_correction close : Kind

pub record LedgerEvent : Type 0 where
  pub id : Text
  pub position_id : Text
  pub tx_hash : Text
  pub log_index : ℕ
  pub kind : Kind
  pub amounts : Option TokenAmounts
  pub gas_usd : Option ℕ
  pub execution_cost_usd : Option ℕ
  pub reason : Option Text
  pub timestamp : Text

pub record CollectionAllocation : Type 0 where
  pub event_id : Text
  pub principal : TokenAmounts
  pub fees : TokenAmounts

pub record PositionLedger : Type 0 where
  pub deposits : TokenAmounts
  pub pending_principal : TokenAmounts
  pub withdrawn_principal : TokenAmounts
  pub claimed_fees : TokenAmounts
  pub unclaimed_fees : TokenAmounts
  pub gas_usd : ℕ
  pub execution_costs_usd : ℕ
  pub events : List LedgerEvent
  pub allocations : List CollectionAllocation

abbrev pub no_amounts : TokenAmounts
no_amounts = record { token0 = 0; token1 = 0 }

abbrev pub add : TokenAmounts → TokenAmounts → TokenAmounts
add a b = record { token0 = a.token0 + b.token0; token1 = a.token1 + b.token1 }

-- `take`: principal first, and what is left over is fees.
abbrev pub principal_of : ℕ → ℕ → ℕ
principal_of available amount = if ltb available amount then available else amount

abbrev pub fees_of : ℕ → ℕ → ℕ
fees_of available amount = amount - principal_of available amount

-- The ledger that `state` creates; the double 0 has the bit pattern 0.
abbrev pub empty_position : PositionLedger
empty_position = record {
  deposits = no_amounts;
  pending_principal = no_amounts;
  withdrawn_principal = no_amounts;
  claimed_fees = no_amounts;
  unclaimed_fees = no_amounts;
  gas_usd = 0;
  execution_costs_usd = 0;
  events = [];
  allocations = [];
}

-- The key `${txHash}:${logIndex}`: the digits behind its last colon are the index.
pub record Key : Type 0 where
  pub tx_hash : Text
  pub log_index : ℕ

pub record Ledger : Type 0 where
  pub seen : List Key
  pub positions : Text → PositionLedger

abbrev pub new_ledger : Ledger
new_ledger = record { seen = []; positions = λ id. empty_position }

pub data Error : Type 0 where
  manual_correction_requires_reason fees_cannot_be_negative : Error

abbrev pub key_of : LedgerEvent → Key
key_of e = record { tx_hash = e.tx_hash; log_index = e.log_index }

abbrev pub key_eq : Key → Key → Bool
key_eq a b = text_eq a.tx_hash b.tx_hash && a.log_index == b.log_index

abbrev pub has_key : Key → List Key → Bool
has_key k [] = false
has_key k (x ∷ xs) = if key_eq x k then true else has_key k xs

abbrev pub put : Text → PositionLedger → (Text → PositionLedger) → Text → PositionLedger
put id p f x = if text_eq x id then p else f x

-- The case "collect": how it is allocated, and the ledger after it.
abbrev pub allocation_of : LedgerEvent → TokenAmounts → PositionLedger → CollectionAllocation
allocation_of e a p = record {
  event_id = e.id;
  principal = record {
    token0 = principal_of p.pending_principal.token0 a.token0;
    token1 = principal_of p.pending_principal.token1 a.token1;
  };
  fees = record {
    token0 = fees_of p.pending_principal.token0 a.token0;
    token1 = fees_of p.pending_principal.token1 a.token1;
  };
}

abbrev pub collected : LedgerEvent → TokenAmounts → PositionLedger → PositionLedger
collected e a p =
    let split = allocation_of e a p in
    record p {
      pending_principal = record {
        token0 = p.pending_principal.token0 - split.principal.token0;
        token1 = p.pending_principal.token1 - split.principal.token1;
      };
      withdrawn_principal = add p.withdrawn_principal split.principal;
      claimed_fees = add p.claimed_fees split.fees;
      allocations = p.allocations ++ split ∷ [];
    }

-- The switch on the event's kind.
abbrev pub applied :
    (ℕ → ℕ → ℕ) → Kind → LedgerEvent → TokenAmounts → PositionLedger → PositionLedger
applied plus Kind.mint e a p = record p { deposits = add p.deposits a }
applied plus Kind.increase e a p = record p { deposits = add p.deposits a }
applied plus Kind.decrease e a p = record p { pending_principal = add p.pending_principal a }
applied plus Kind.collect e a p = collected e a p
applied plus Kind.gas e a p = record p { gas_usd = plus p.gas_usd (coalesce e.gas_usd 0) }
applied plus Kind.swap e a p = record p {
  execution_costs_usd = plus p.execution_costs_usd (coalesce e.execution_cost_usd 0);
}
applied plus Kind.manual_correction e a p = p
applied plus Kind.close e a p = p

-- `e.kind === "manual-correction" && !e.reason`: an empty reason counts as none.
abbrev pub lacks_reason : Kind → Option Text → Bool
lacks_reason Kind.manual_correction none = true
lacks_reason Kind.manual_correction (some []) = true
lacks_reason _ _ = false

abbrev pub logged : LedgerEvent → PositionLedger → PositionLedger
logged e p = record p { events = p.events ++ e ∷ [] }

-- `ingest`, with the ledger after it and what it returns.
unfoldable pub ingest : (ℕ → ℕ → ℕ) → Ledger → LedgerEvent → Result Error (Ledger × Bool)
ingest plus l e =
    if has_key (key_of e) l.seen
    then ok (l, false)
    else (if lacks_reason e.kind e.reason
        then err manual_correction_requires_reason
        else ok (
          record {
            seen = key_of e ∷ l.seen;
            positions =
                put e.position_id
                  (applied plus e.kind e (coalesce e.amounts no_amounts)
                    (logged e (l.positions e.position_id)))
                  l.positions;
          },
          true,
        ))

-- `setUnclaimedFees`; a fee below 0 is `none` here.
unfoldable pub set_unclaimed_fees : Ledger → Text → Option TokenAmounts → Result Error Ledger
set_unclaimed_fees l id none = err fees_cannot_be_negative
set_unclaimed_fees l id (some fees) = ok (record l {
  positions = put id (record (l.positions id) { unclaimed_fees = fees }) l.positions;
})

-- The calls on the ledger; one that throws leaves it as it was.
pub data Call : Type 0 where
  ingests : LedgerEvent → Call
  sets_unclaimed_fees : Text → Option TokenAmounts → Call

abbrev pub ledger_after : Ledger → Result Error (Ledger × Bool) → Ledger
ledger_after l (ok (l', fresh)) = l'
ledger_after l (err e) = l

abbrev pub kept_or : Ledger → Result Error Ledger → Ledger
kept_or l (ok l') = l'
kept_or l (err e) = l

unfoldable pub step : (ℕ → ℕ → ℕ) → Ledger → Call → Ledger
unfolding ingest set_unclaimed_fees
step plus l (ingests e) = ledger_after l (ingest plus l e)
step plus l (sets_unclaimed_fees id fees) = kept_or l (set_unclaimed_fees l id fees)

unfoldable pub run : (ℕ → ℕ → ℕ) → Ledger → List Call → Ledger
unfolding step
run plus l [] = l
run plus l (c ∷ cs) = run plus (step plus l c) cs
