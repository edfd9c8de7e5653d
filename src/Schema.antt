-- ===== src/Schema.antt =====
-- The schema service: src/text_to_sql/schema.
pub mod Cache
pub mod Catalog
