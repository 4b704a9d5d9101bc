-- ===== src/Agents.antt =====
-- The libraries that the agents share.
pub mod Loop
mod Tests
