-- ===== src/Bot.antt =====
-- The Telegram bot: who may command it, and the approval of a rebalance proposal
-- (`src/bot/mod.rs`, `src/bot/commands.rs`, `src/bot/proposal.rs`).
pub mod Text
pub mod Auth
pub mod Oneshot
pub mod Protocol
