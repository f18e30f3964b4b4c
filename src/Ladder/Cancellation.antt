-- ===== src/Ladder/Cancellation.antt =====
-- apps/cli/src/v4-bid-ladder-cancellation.ts: a planned ladder that was abandoned is cancelled, unless
-- any table holds evidence that it went further. `JSON.parse` and `Date.parse` are parameters.
pub mod Evidence
pub mod Blockers
pub mod Cancel
pub mod Harmless
pub mod Safe
mod Tests
