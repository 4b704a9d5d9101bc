-- ===== src/Promotion.antt =====
-- The promotion of candidates: the gate before the model, the verdict contract, and the enrichment
-- chains that a run fires.
pub mod Gate
pub mod Verdict
pub mod Targets
pub mod Fanout
pub mod Retrigger
mod Tests
