-- ===== src/Workers/StateCache.antt =====
-- apps/workers/src/state-cache-scheduling.ts: one unit of work at a time, from four lanes, and the
-- leases that keep workers apart. A phase of the worker is what the source calls it, a function that
-- says whether it ran a task; each call's answer is an argument.
pub mod Cycle
pub mod Turns
pub mod Lease
pub mod Exclusion
pub mod Once
pub mod Actionable
pub mod Converged
mod Tests
mod ActionableTests
