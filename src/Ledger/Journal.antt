-- ===== src/Ledger/Journal.antt =====
-- The chain transaction journal of packages/lp-ledger/src/index.ts: one row for each transaction
-- that was prepared, its transitions and its recovery from exact-hash evidence. The rows are those
-- of `chain_transaction_journal`; the constraints that an INSERT checks are those that its
-- migration declares. Instants are milliseconds, and a dollar amount is the bit pattern of its
-- double, which the code here only stores.
pub mod Defs
pub mod Invariant
pub mod History
pub mod Recovery
pub mod Attempt
mod Tests
