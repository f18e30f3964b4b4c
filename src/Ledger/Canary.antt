-- ===== src/Ledger/Canary.antt =====
-- The canary of packages/lp-ledger/src/index.ts: one live attempt at a time, from a budget that only a
-- manual reset fills again, and the arms that an operator sets. SHA-256 is a parameter, and an id that
-- `randomUUID` makes is an argument.
pub mod Budget
pub mod Claims
pub mod Exclusive
pub mod Arms
pub mod Armed
mod Tests
