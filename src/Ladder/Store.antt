-- ===== src/Ladder/Store.antt =====
-- The bid ladders in SQLite: packages/lp-ledger/src/index.ts, `createBidLadder` and what reads it, and
-- the tables of infra/migrations/054_v4_bid_ladder_cancelled_lifecycle.sql and
-- 056_v4_bid_ladder_usdg_reset_reposition_v1.sql. A double is its bit pattern. The CHECK constraints on single
-- rows, such as the lengths of addresses, are taken as met, and so are the foreign keys and
-- the uniqueness of a leg's ticks; the symbol columns are left out.
pub mod Rows
pub mod Create
pub mod Again
pub mod ReadBack
pub mod Reset
pub mod Moves
pub mod Candidates
mod Tests
