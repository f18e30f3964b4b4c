-- ===== src/Ledger/Positions/Replay.antt =====
-- An event that is delivered again changes nothing.
use funi.Common.{ℕ, ◌≡◌, Bool, true, false, List, [], ◌∷◌, arith, text_eq_refl, ok}
use funi.Ledger.Positions.Defs.{
  Key, LedgerEvent, Ledger, Call, ingests, sets_unclaimed_fees, ingest, set_unclaimed_fees, key_of,
  has_key, step, run,
}

step-keeps_key :
    (plus : ℕ → ℕ → ℕ) (l : Ledger) (c : Call) (k : Key)
    → has_key k l.seen ≡ true
    → has_key k (step plus l c).seen ≡ true
unfolding step ingest set_unclaimed_fees
step-keeps_key plus l (ingests e) k h = ground arith
step-keeps_key plus l (sets_unclaimed_fees id fees) k h = ground arith

run-keeps_key :
    (plus : ℕ → ℕ → ℕ) (cs : List Call) (l : Ledger) (k : Key)
    → has_key k l.seen ≡ true
    → has_key k (run plus l cs).seen ≡ true
unfolding run
run-keeps_key plus [] l k h = h
run-keeps_key plus (c ∷ cs) l k h =
    run-keeps_key plus cs (step plus l c) k (step-keeps_key plus l c k h)

-- Once an event has been ingested, then after any further calls every event of the same transaction
-- and log index is refused with `false` and leaves the whole ledger as it is.
pub replay_ignored :
    (plus : ℕ → ℕ → ℕ) (l l' : Ledger) (e d : LedgerEvent) (fresh : Bool) (cs : List Call)
    → ingest plus l e ≡ ok (l', fresh)
    → d.tx_hash ≡ e.tx_hash
    → d.log_index ≡ e.log_index
    → ingest plus (run plus l' cs) d ≡ ok (run plus l' cs, false)
unfolding ingest
replay_ignored plus l l' e d fresh cs h tx index =
    rw (run-keeps_key plus cs l' (key_of d) (rw (tx, index) was_seen))
  where
    was_seen : has_key (key_of e) l'.seen ≡ true
    was_seen = ground (arith, text_eq_refl e.tx_hash)
