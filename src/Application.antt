-- ===== src/Application.antt =====
-- The pipeline: src/text_to_sql/application. `Platform` gathers the configured components and the
-- libraries, `Gate` is the deterministic gate, `Generation` the repair loop, `Process` the whole
-- request.
pub mod Repair
pub mod Platform
pub mod Gate
pub mod Generation
pub mod Ambiguity
pub mod Explainer
pub mod Failure
pub mod Report
pub mod Process
