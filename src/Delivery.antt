-- ===== src/Delivery.antt =====
-- backend/etfpulse/pipeline/delivery.py: the fan-out of signals to recipients and the worker that
-- sends them, with the job that drives the fan-out (pipeline/scheduler.py).
pub mod Rows
pub mod FanOut
pub mod Send
pub mod Once
pub mod Trace
pub mod Reasons
pub mod Traced
pub mod Twice
pub mod Keeps
pub mod Steps
pub mod Worker
pub mod Retries
