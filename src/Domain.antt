-- ===== src/Domain.antt =====
-- The domain model: src/text_to_sql/domain.
pub mod Enums
pub mod Tables
pub mod Models
pub mod Walks
pub mod Neighbors
pub mod Serialized
