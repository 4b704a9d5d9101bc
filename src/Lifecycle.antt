-- ===== src/Lifecycle.antt =====
-- The lifecycle job: batches of evaluations of trends.
pub mod Collect
pub mod Tick
mod Tests
