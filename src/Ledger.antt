-- ===== src/Ledger.antt =====
-- packages/lp-ledger/src/index.ts: the accounting ledger and the SQLite repository.
pub mod Journal
pub mod Flow
pub mod Callback
pub mod Positions
pub mod Delivery
pub mod Confirmation
pub mod NonceMutex
pub mod Canary
