-- ===== src/Ladder/Planner.antt =====
-- The integer part of the planner of apps/cli/src/v4-bid-ladder-planner.ts: the scaled slices and the
-- split of the funding over them.
pub mod Defs
pub mod Slices
pub mod Funding
mod Tests
