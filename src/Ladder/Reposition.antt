-- ===== src/Ladder/Reposition.antt =====
-- The reposition cycle of apps/cli/src/v4-bid-ladder-usdg-reset.ts: the classification of its state,
-- the eligibility of the five positions, and the split of what closing them returns. A reason is a
-- constructor named after its text; the text of a stored block reason is kept. The table that stores
-- the phase is not modelled.
pub mod Phases
pub mod Legs
pub mod Progress
pub mod Closing
mod Tests
