-- ===== src/Budget.antt =====
-- The budget of tokens for calls of the model: backend/token_budget.
pub mod Manager
pub mod Windows
