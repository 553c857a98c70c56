-- ===== src/Risk.antt =====
-- The Risk Engine: backend/risk_engine and the fee estimate of backend/core/fees.py that it reads.
pub mod Results
pub mod Checks
pub mod Schemas
pub mod Engine
pub mod Causes
pub mod Tradable
pub mod Safety
pub mod Built
pub mod Limits
pub mod Gaps
pub mod Audit
pub mod Fields
pub mod Totality
