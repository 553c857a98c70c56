-- ===== src/Estimates.antt =====
-- What an order is expected to cost: backend/core/fees.py and backend/core/slippage.py.
pub mod Fees
pub mod Slippage
pub mod Costs
pub mod Estimable
