-- ===== src/Catalog.antt =====
-- The catalog sync: from the storefront's feed to the rows of DIM_CATALOG_PRODUCT.
pub mod Doc
pub mod Feed
pub mod Plan
pub mod Sync
mod Tests
