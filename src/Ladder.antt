-- ===== src/Ladder.antt =====
-- The bid ladder of apps/cli/src: five single-sided positions below the price, closed and opened
-- again when their target principal is gone.
pub mod Reposition
pub mod Planner
pub mod Store
pub mod Cancellation
