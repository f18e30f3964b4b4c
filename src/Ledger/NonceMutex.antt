-- ===== src/Ledger/NonceMutex.antt =====
-- The nonce mutex of packages/lp-ledger/src/index.ts, over the rows of `chain_nonce_mutex`: one holder
-- of a wallet on a chain until it releases or expires. Instants are those of ISO texts of one format,
-- whose order as texts is their order in time.
pub mod Defs
pub mod Exclusion
mod Tests
