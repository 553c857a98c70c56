-- ===== src/Retry.antt =====
-- Calls of external services that may fail for a while: backend/core/retry.py.
pub mod Breaker
pub mod Circuit
pub mod Loop
pub mod Attempts
pub mod Endings
pub mod Guarded
pub mod Delay
