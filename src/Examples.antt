-- ===== src/Examples.antt =====
-- Concrete inputs: a small library in place of SQLGlot, a schema, and the theorems applied to them.
pub mod Sample
pub mod Statements
pub mod Security
pub mod Schemas
pub mod Pipeline
pub mod Calendar
mod Retrieval
mod Metrics
mod Answers
mod Endpoint
