-- ===== src/Ledger/Flow.antt =====
-- The Telegram flow sessions of packages/lp-ledger/src/index.ts, over the rows of
-- `telegram_flow_sessions`: creation, lookup, the compare-and-set transition, and recovery. The
-- random session id is an argument. A flow's state is the JSON text of its object with the `kind`
-- that the code reads; instants are milliseconds.
pub mod Defs
pub mod History
pub mod Cas
pub mod Creation
mod Tests
