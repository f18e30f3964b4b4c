-- ===== src/Ledger/Positions/Tests.antt =====
-- The theorems on the ledger, applied to a mint, a decrease, a collection and a replay.
use funi.Common.{ℕ, ◌+◌, ◌≡◌, refl, true, false, List, [], ◌∷◌, text, none, some, ok}
use funi.Ledger.Positions.Defs.{
  Kind, LedgerEvent, Ledger, Call, ingests, new_ledger, ingest, ledger_after, run,
}
use funi.Ledger.Positions.Balance.{IsBalanced, run-IsBalanced}
use funi.Ledger.Positions.Replay.{replay_ignored}

abbrev event : ℕ → Kind → ℕ → ℕ → LedgerEvent
event index kind a b = record {
  id = text "e";
  position_id = text "p";
  tx_hash = text "0x1";
  log_index = index;
  kind = kind;
  amounts = some (record { token0 = a; token1 = b });
  gas_usd = none;
  execution_cost_usd = none;
  reason = none;
  timestamp = text "t";
}

abbrev calls : List Call
calls =
    ingests (event 1 Kind.mint 10 20)
    ∷ ingests (event 2 Kind.decrease 4 5)
    ∷ ingests (event 3 Kind.collect 6 5)
    ∷ ingests (event 3 Kind.collect 6 5)
    ∷ []

run-IsBalanced_example : IsBalanced ((run ◌+◌ new_ledger calls).positions (text "p"))
run-IsBalanced_example = run-IsBalanced ◌+◌ calls (text "p")

abbrev minted : Ledger
minted = ledger_after new_ledger (ingest ◌+◌ new_ledger (event 1 Kind.mint 10 20))

replay_ignored_example :
    ingest ◌+◌ (run ◌+◌ minted calls) (event 1 Kind.mint 7 7) ≡ ok (run ◌+◌ minted calls, false)
unfolding ingest
replay_ignored_example =
    replay_ignored ◌+◌ new_ledger minted (event 1 Kind.mint 10 20) (event 1 Kind.mint 7 7) true
      calls refl refl refl
