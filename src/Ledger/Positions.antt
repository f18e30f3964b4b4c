-- ===== src/Ledger/Positions.antt =====
-- The in-memory accounting ledger of packages/lp-ledger/src/index.ts: the class `Ledger`, which
-- folds the events of a position into principal, fees and costs. A dollar amount is the bit pattern
-- of its double, and `plus` is the addition of doubles. A map from position id to its ledger, whose
-- missing entries `state` creates empty, is a function.
pub mod Defs
pub mod Balance
pub mod Replay
mod Tests
