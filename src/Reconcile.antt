-- ===== src/Reconcile.antt =====
-- backend/etfpulse/pipeline/reconcile.py, with the reconciliation of positions in
-- pipeline/execution/positions_spot.py and positions_perps.py: orders and positions against what the
-- venue reports.
pub mod Json
pub mod Rows
pub mod Drift
pub mod Spot
pub mod Perps
pub mod Tasks
pub mod Fold
pub mod Sweep
pub mod Keeps
pub mod Folded
pub mod Again
pub mod Tally
pub mod Listed
pub mod Closing
pub mod Ends
