-- ===== src/Exchange.antt =====
-- What the rest of the program knows of an exchange, backend/exchange_adapters/schemas.py and
-- base.py, and the simulated one of paper_adapter.py.
pub mod Orders
pub mod Fills
pub mod Ledger
pub mod Paper
pub mod Account
pub mod Placing
pub mod Known
pub mod Sound
pub mod Session
pub mod Reducing
pub mod Retried
