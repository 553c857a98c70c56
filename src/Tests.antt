-- ===== src/Tests.antt =====
-- The theorems at concrete inputs, and runs of the modelled code.
mod Fixed
mod Trading
mod Risk
mod Retry
mod Health
mod Auth
mod Position
mod Budget
mod Reconcile
mod Managed
mod Engine
mod Paper
mod Decision
mod Costs
