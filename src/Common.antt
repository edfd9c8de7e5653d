-- ===== src/Common.antt =====
-- Errors and identifiers: src/text_to_sql/common.
pub mod Errors
pub mod Ids
