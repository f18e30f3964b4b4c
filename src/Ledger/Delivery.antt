-- ===== src/Ledger/Delivery.antt =====
-- The PnL card deliveries of packages/lp-ledger/src/index.ts, over the rows of
-- `pnl_card_deliveries`: a delivery is claimed, its send is started, and it is finalized or
-- recovered. Each call takes the instant that the source reads from the clock.
pub mod Defs
pub mod Once
mod Tests
