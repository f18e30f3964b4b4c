-- ===== src/Ledger/Callback.antt =====
-- The rows of `chain_callback_authorizations`: one-shot authorizations of the buttons that act on
-- the chain (packages/lp-ledger/src/index.ts).
pub mod Defs
pub mod Single
pub mod Once
mod Tests
