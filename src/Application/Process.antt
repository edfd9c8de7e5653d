-- ===== src/Application/Process.antt =====
-- `QueryOrchestrator.process` and `validate_sql` of src/text_to_sql/application/orchestrator.py, with
-- their helpers. The detector, the retriever, the date resolver, the provider, the database and the
-- explainer are collaborators; what they do is a function of their inputs. Spans, logs and timings
-- are not modelled.
pub mod Guarded
use build_your_own_text2sql.Base.{
  ℕ, zero, suc, min, String, Bool, true, false, not, ◌&&◌, Option, none, some, List, [], ◌∷◌, ◌++◌,
  if◌then◌else◌,
}
use build_your_own_text2sql.Base.Text.{◌=s=◌, ◌+s◌, join, is_empty}
use build_your_own_text2sql.Common.Errors.{
  EngineError, raise_error, authorization_denied, code_detail,
}
use build_your_own_text2sql.Common.Ids.{sanitize_correlation_id}
use build_your_own_text2sql.Domain.Enums.{
  SqlDialect, AmbiguityCategory, RiskLevel, ResponseStatus, clarification_required, preview,
  success, ambiguity_value, statement_value,
}
use build_your_own_text2sql.Domain.Models.{
  QueryRequest, AuthContext, Clarification, ConversationState, ConversationTurn, last_turn,
  RetrievedObject, ValidationReport, ExecutionMetadata, ModelMetadata, QueryResponse,
  empty_response, ValidateSqlRequest,
}
use build_your_own_text2sql.Domain.Tables.{DatabaseSchema}
use build_your_own_text2sql.Execution.{ExecutionResult, Executed, failed_with, result_of}
use build_your_own_text2sql.Security.Cost.{CostReport}
use build_your_own_text2sql.Application.Gate.{Secured}
use build_your_own_text2sql.Application.Failure.{failure_error}
use build_your_own_text2sql.Application.Generation.{
  ResolvedDate, GenerationRequest, GenerationResponse, Reply, Effect, inc, execute, Generated,
  raised, finished, no_generation, generate_with_repair,
}
use build_your_own_text2sql.Application.Report.{
  authorize_tenant, build_report, model_metadata, row_cap,
}

-- The configuration and the collaborators that `process` uses, where `F` holds the estimates' floats
-- and `V` the values of a row. `secure` is the gate of a request.
pub record Collaborators (F V : Type 0) : Type 0 where
  pub default_dialect : SqlDialect
  pub max_rows : ℕ
  pub max_repair : ℕ
  pub disclose : Bool
  pub hex : String
  pub schema : DatabaseSchema
  pub model : String
  pub marked : String → Bool
  pub detect : String → Option Clarification
  pub retrieve : String → DatabaseSchema → List RetrievedObject
  pub resolve_date : String → Option ResolvedDate
  pub provider : ℕ → GenerationRequest → Reply
  pub secure : String → SqlDialect → DatabaseSchema → AuthContext → ℕ → Secured F
  pub run_query : SqlDialect → String → ℕ → Executed V
  pub explainer : String → ExecutionResult V → List String → ℕ → Bool → String × List String

-- How a request ends: with an error, a response, or a failed assertion.
pub data Processed (F V : Type 0) : Type 0 where
  error_raised : EngineError → Processed F V
  responded : QueryResponse F V → Processed F V
  assertion_failed : Processed F V

module _ {F V : Type 0} (k : Collaborators F V) (request : QueryRequest) (auth : AuthContext)
    (execute_flag : Bool) (bound : Option String) where
  -- `request.correlation_id or bound`
  correlation : String
  correlation =
      sanitize_correlation_id k.hex (elim request.correlation_id [
        | none ↦ bound
        | some c ↦ if is_empty c then bound else some c
      ])

  unfoldable pub dialect_of : SqlDialect
  dialect_of = elim request.dialect [ none ↦ k.default_dialect | some d ↦ d ]

  unfoldable pub cap : ℕ
  cap = row_cap request.max_rows k.max_rows

  -- `execute and not request.dry_run and not request.sql_only`
  unfoldable pub do_execute : Bool
  do_execute = execute_flag && (not request.dry_run && not request.sql_only)

  unfoldable pub secured : String → Secured F
  secured sql = k.secure sql dialect_of k.schema auth cap

  -- the request of the first generation
  unfoldable pub first_request : GenerationRequest
  first_request = record {
    question = request.question;
    dialect = dialect_of;
    max_rows = cap;
    resolved_date = k.resolve_date request.question;
    conversation = request.conversation;
    repair = none;
    model = k.model;
  }

  -- what a preview and a success answer alike
  grounded : ResponseStatus → String → GenerationResponse → Secured F → ℕ → QueryResponse F V
  unfolding empty_response build_report model_metadata
  grounded status sql g s attempts = record (empty_response {F = F} {V = V} status correlation) {
    sql = some sql;
    dialect = some dialect_of;
    assumptions = g.assumptions;
    confidence = some g.confidence;
    validation = some (build_report s);
    retrieval = k.retrieve request.question k.schema;
    model = model_metadata k.disclose g attempts;
  }

  -- `generation.explanation or None`
  preview_response : String → GenerationResponse → Secured F → ℕ → QueryResponse F V
  unfolding grounded
  preview_response sql g s attempts = record (grounded preview sql g s attempts) {
    explanation = if is_empty g.explanation then none else some g.explanation;
  }

  success_response :
      String → GenerationResponse → Secured F → ℕ → ExecutionResult V → QueryResponse F V
  unfolding grounded
  success_response sql g s attempts r =
      let told : Option String × List String =
        if request.explain
        then (
          some (k.explainer request.question r g.assumptions g.confidence r.truncated).0,
          (k.explainer request.question r g.assumptions g.confidence r.truncated).1,
        )
        else (some g.explanation, []) in
      record (grounded success sql g s attempts) {
        columns = r.columns;
        rows = r.rows;
        row_count = some r.row_count;
        truncated = r.truncated;
        explanation = told.0;
        warnings = told.1;
        execution = some (record { row_count = r.row_count; truncated = r.truncated });
      }

  -- the response or the error that an execution gives
  pub after_execution :
      String
      → GenerationResponse
      → Secured F
      → ℕ
      → List Effect
      → Executed V
      → Processed F V × List Effect
  after_execution sql g s attempts log (failed_with e) =
      (error_raised e, log ++ execute sql cap ∷ [])
  after_execution sql g s attempts log (result_of r) = (
    responded (success_response sql g s attempts r),
    log ++ execute sql cap ∷ inc "t2sql_requests_success_total" "execute" ∷ [],
  )

  -- what follows a candidate that passed the gate
  passed_step :
      String → GenerationResponse → Secured F → ℕ → List Effect → Processed F V × List Effect
  passed_step sql g s attempts log =
      let run = after_execution sql g s attempts log (k.run_query dialect_of sql cap) in
      if do_execute then run else (
        responded (preview_response sql g s attempts),
        log ++ inc "t2sql_requests_success_total" "preview" ∷ [],
      )

  -- `assert secured.final_sql is not None`, and what follows it
  assert_step :
      Option String → GenerationResponse → Secured F → ℕ → List Effect → Processed F V × List Effect
  assert_step none g s attempts log = (assertion_failed, log)
  assert_step (some sql) g s attempts log = passed_step sql g s attempts log

  -- what follows the generation
  finish : Generated F → List Effect → Processed F V × List Effect
  unfolding failure_error
  finish (raised e) log = (error_raised e, log)
  finish no_generation log = (assertion_failed, log)
  finish (finished g s attempts) log = if s.ok then assert_step s.final_sql g s attempts log else (
    error_raised (failure_error s.issues attempts),
    log ++ inc "t2sql_requests_rejected_total" "" ∷ [],
  )

  -- the counters before any generation
  received : List Effect
  received =
      inc "t2sql_requests_total" (if execute_flag then "execute" else "preview")
      ∷ (if k.marked request.question
          then inc "t2sql_injection_markers_total" "question" ∷ []
          else [])

  clarified : Clarification → Processed F V × List Effect
  unfolding empty_response ambiguity_value
  clarified c = (
    responded (record (empty_response {F = F} {V = V} clarification_required correlation) {
      clarification = some c;
    }),
    received ++ inc "t2sql_clarifications_total" (ambiguity_value c.category) ∷ [],
  )

  generated_step : Processed F V × List Effect
  generated_step =
      let out = generate_with_repair k.provider secured first_request k.max_repair received in
      finish out.0 out.1

  detected_step : Option Clarification → Processed F V × List Effect
  detected_step (some c) = clarified c
  detected_step none = generated_step

  authorized_step : Option EngineError → Processed F V × List Effect
  authorized_step (some e) = (error_raised e, [])
  authorized_step none = detected_step (k.detect request.question)

  -- `process`
  pub process : Processed F V × List Effect
  process = authorized_step (authorize_tenant request auth)

  -- `validate_sql`, which gates a given text and executes nothing
  unfoldable pub validate_sql : ValidateSqlRequest → ValidationReport F
  unfolding build_report
  validate_sql r =
      let dialect : SqlDialect = elim r.dialect [ none ↦ k.default_dialect | some d ↦ d ] in
      build_report (k.secure r.sql dialect k.schema auth k.max_rows)
