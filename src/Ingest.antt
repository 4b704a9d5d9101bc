-- ===== src/Ingest.antt =====
-- The ingestion of TikTok videos.
pub mod Video
pub mod Signals
pub mod Run
mod Tests
