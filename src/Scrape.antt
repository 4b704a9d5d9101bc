-- ===== src/Scrape.antt =====
-- The scrape gateway: the ids of its jobs.
pub mod JobId
mod Tests
