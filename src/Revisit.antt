-- ===== src/Revisit.antt =====
-- The distillation revisit workflow (distillation-revisit-p_o7CWWZl).
pub mod Packing
pub mod Store
pub mod Queue
pub mod Pool
pub mod Lead
mod Tests
