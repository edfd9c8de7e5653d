-- ===== src/Llm.antt =====
-- Providers of the language model: src/text_to_sql/llm.
pub mod Json
pub mod Retries
pub mod Response
pub mod Prompt
