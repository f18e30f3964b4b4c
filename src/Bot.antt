-- ===== src/Bot.antt =====
-- The Telegram bot, apps/telegram-lp-bot/src.
pub mod LivePreview
