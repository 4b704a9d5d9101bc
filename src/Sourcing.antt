-- ===== src/Sourcing.antt =====
-- The sourcing of a trend: the retrieval pool, the plan, the run and the poll.
pub mod Pool
pub mod Plan
pub mod Context
pub mod Run
pub mod Poll
mod Tests
