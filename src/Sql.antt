-- ===== src/Sql.antt =====
-- Parsing, validation and normalization of SQL: src/text_to_sql/sql.
pub mod Parser
pub mod Validator
pub mod Normalizer
