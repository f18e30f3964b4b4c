-- ===== src/Workers.antt =====
-- The workers of apps/workers/src.
pub mod StateCache
