-- ===== src/Gates.antt =====
-- The execution gates of apps/cli/src/execution-gates.ts: three switches of the environment and the
-- readiness of the runtime decide whether an operation may run. The schemas that other files build
-- with the validation library are not modelled.
pub mod Defs
pub mod Pass
mod Tests
