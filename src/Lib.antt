-- ===== src/Lib.antt =====
-- The Text-to-SQL engine of src/text_to_sql: a question is answered by SQL that a language model
-- proposes and that deterministic gates check, rewrite and bound before it reaches the database.
--
-- The parts, and the files that model them:
-- - Base: Boolean tests, lists, texts and dictionaries as Python has them.
-- - Common: common/errors.py (Errors; a class is a constructor, its attributes functions) and
--   common/ids.py (Ids).
-- - Domain: domain/enums.py (Enums), domain/schema_models.py (Tables, with `neighbors` in
--   Neighbors, the prompt's text in Serialized and walks of the join graph in Walks), domain/models.py and
--   domain/context.py (Models).
-- - Sqlglot: what the program uses of the library SQLGlot, as a record of types and operations. It is
--   a parameter of every component that reads statements; its documented laws are hypotheses where a
--   theorem needs them (LimitLaws, WhereLaws).
-- - Sql: sql/parser.py (Parser), sql/normalizer.py (Normalizer) and sql/validator.py (Validator):
--   Findings has `ValidationOutcome` and `add`, Comments the backstop `_comment_backstop`, Functions,
--   Tables and Columns the loops of `_check_functions` and `_check_tables_and_columns`, Statement
--   `validate` and `validate_expression`.
-- - Security: security/classification.py, policy.py, rewriter.py and cost.py.
-- - Application: application/repair.py (Repair) and application/orchestrator.py: `_secure_candidate`
--   (Gate), `_generate_with_repair` (Generation), `_raise_for_failure` (Failure), `process` and
--   `validate_sql` (Process, with the helpers in Report); application/ambiguity.py (Ambiguity) and
--   application/explainer.py (Explainer). Platform gathers the components that the gate calls.
-- - Execution: execution/executor.py. The driver is a parameter, with the contract of `fetchmany`.
-- - Semantic: semantic/models.py, and semantic/dates.py (Dates, with its patterns and its calendar).
-- - Schema: schema/cache.py (Cache) and schema/catalog.py (Catalog).
-- - Retrieval: retrieval/retriever.py: `_tokenize` (Tokens), the signals (Signals), `_shortest_path` (Paths), `_add_bridges`
--   and `retrieve`. A score is kept in tenths.
-- - Observability: observability/metrics.py: label sets (Labels), the registry with its operations (Metrics), the
--   text exposition (Metrics/Rendered).
-- - Llm: llm/openai_adapter.py: JSON values (Json), `_post` and `_post_with_retries` (Retries), `_parse_response`
--   (Response); llm/prompt.py (Prompt).
-- - Api: api/dependencies.py, api/errors.py and api/routes.py.
-- - Examples: a small library of flat statements in place of SQLGlot, and runs on it.
--
-- How they interact: `process` authorizes the tenant, detects ambiguity, and runs the repair loop,
-- which asks the provider and passes each answer to the gate. The gate validates, applies the policy
-- to the columns that the validator recorded, adds tenant predicates, bounds the rows, validates the
-- result again and analyses its cost. Only a text that the gate rendered is executed. State that the
-- source mutates is passed on: the outcome of a validation, the log of counters, provider calls and
-- queries, the slot of the cache. A raised error is a value.
--
-- Choices: `lower`, `upper`, `strip` and `isdigit` are exact on ASCII. The scan of string literals
-- has the length of the text as fuel and printing a number n has n + 1, which no run exhausts, since
-- each step consumes a character or divides by ten. The search of the join graph has one round for each entry
-- of the adjacency sets and one more, and a round takes one table off the queue, which each table joins once.
-- The repair loop has one round for each attempt.
-- Floats are abstract, or hundredths for a confidence and tenths for a score; the monotonic clock counts ticks. The order in
-- which Python walks a set of texts is a parameter where a result shows it, and the order of insertion elsewhere.
--
-- Not modelled: spans, logs, timings, the semantic layer's text in a prompt, the parsing of what EXPLAIN prints, the
-- deterministic provider, redaction, introspection, configuration, the application factory, the probes and
-- sample data. The detector, the retriever, the provider and the explainer are collaborators of the model of
-- `process`, which holds for any of them; the parts above model the ones that the program wires in.
pub mod Base
pub mod Domain
pub mod Sqlglot
pub mod Sql
pub mod Security
pub mod Application
pub mod Common
pub mod Execution
pub mod Semantic
pub mod Schema
pub mod Retrieval
pub mod Observability
pub mod Llm
pub mod Api
pub mod Examples
