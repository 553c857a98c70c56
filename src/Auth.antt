-- ===== src/Auth.antt =====
-- The login of the dashboard: backend/auth.
pub mod Throttle
pub mod Service
pub mod Lockouts
pub mod Purges
pub mod Failures
pub mod Logins
pub mod Active
pub mod Decisions
