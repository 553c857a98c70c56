-- ===== src/Reconcile.antt =====
-- The reconciliation of the exchange with the database: backend/reconciliation.
pub mod Gate
pub mod Rows
pub mod Engine
pub mod Report
pub mod Symbols
pub mod Found
pub mod Positions
pub mod Agreement
pub mod Newest
pub mod Lost
pub mod Missing
pub mod Blocking
