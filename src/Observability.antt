-- ===== src/Observability.antt =====
-- Metrics: src/text_to_sql/observability. Logs and traces are written to streams and are not modelled.
pub mod Labels
pub mod Metrics
