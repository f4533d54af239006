-- ===== src/Execution.antt =====
-- backend/etfpulse/pipeline/execution/pipeline.py: preparing, submitting and cancelling orders.
-- Execution/Clients has what the code calls, Execution/Wire the bytes that are sent, Execution/Orders
-- the shared steps, and the four calls are in Execution/Prepare, Execution/Submit and
-- Execution/Cancel.
pub mod Clients
pub mod Wire
pub mod Orders
pub mod Paper
pub mod Prepare
pub mod Submit
pub mod Cancel
pub mod Frames
pub mod Inserts
pub mod Placing
pub mod Sends
pub mod Delivery
pub mod CancelDelivery
pub mod Settles
pub mod Outcome
pub mod Replay
pub mod Terminal
