-- ===== src/Trading.antt =====
-- The core of the bot: backend/trading_core.
pub mod State
pub mod Transitions
pub mod Emergency
pub mod Stops
pub mod Sync
pub mod SafeMode
