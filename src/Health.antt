-- ===== src/Health.antt =====
-- The watch over connection, clock and latency: backend/connection_health.
pub mod Monitor
pub mod Findings
pub mod Enforce
