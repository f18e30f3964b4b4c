-- ===== src/Bot/LivePreview.antt =====
-- apps/telegram-lp-bot/src/live-preview-lifecycle.ts: the context of one live preview, which ends once,
-- and the workflow that computes, persists and delivers it. Telemetry is not modelled. What the code
-- reads from outside (the clock, whether the identity is current, how an awaited operation settles,
-- and what the timer and other callers do to the context in the meantime) is an argument.
pub mod Defs
pub mod Terminal
pub mod Run
pub mod Workflow
pub mod Rules
pub mod Delivery
mod Tests
