-- ===== src/Tests.antt =====
-- Tests: the theorems at concrete inputs.
mod Fixtures
mod Positions
mod Risk
mod Execution
mod Reconcile
mod Delivery
mod Life
