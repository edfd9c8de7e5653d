-- ===== src/Security.antt =====
-- Deterministic security: src/text_to_sql/security.
pub mod Classification
pub mod Policy
pub mod Rewriter
pub mod Cost
