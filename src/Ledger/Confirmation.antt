-- ===== src/Ledger/Confirmation.antt =====
-- The confirmation requests of packages/lp-ledger/src/index.ts, over the rows of
-- `confirmation_requests`. The random id and the clock are arguments. The calls are no transactions:
-- what a call wrote before it throws stays. Instants are those of ISO texts of one format, whose order
-- as texts is their order in time; block numbers are natural numbers, and no row is stored in the
-- states DRAFT and SIMULATED by the code here.
pub mod Defs
pub mod Final
mod Tests
