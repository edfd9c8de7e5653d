-- ===== src/Application/Generation.antt =====
-- `_generate_with_repair` of src/text_to_sql/application/orchestrator.py, and the values of
-- src/text_to_sql/llm/base.py that it exchanges with the provider. The provider's answers and errors
-- are a parameter, which may differ from one attempt to the next. Spans, logs and timings leave no
-- trace in the result and are not modelled; the counters of `MetricsRegistry` are effects.
pub mod Bounded
pub mod Queries
use build_your_own_text2sql.Base.{
  ℕ, zero, suc, ◌+◌, String, Bool, true, false, not, ◌&&◌, Option, none, some, List, [], ◌∷◌, ◌++◌,
  ltb, if◌then◌else◌,
}
use build_your_own_text2sql.Common.Errors.{EngineError}
use build_your_own_text2sql.Domain.Enums.{SqlDialect, AmbiguityCategory}
use build_your_own_text2sql.Domain.Models.{ConversationState}
use build_your_own_text2sql.Application.Repair.{is_repairable, sanitized_feedback}
use build_your_own_text2sql.Application.Gate.{Secured}

pub record ResolvedDate : Type 0 where
  pub description : String
  pub matched_phrase : String
  pub start_iso : String
  pub end_iso : String

pub record RepairContext : Type 0 where
  pub attempt : ℕ
  pub previous_sql : String
  pub errors : List String

-- `GenerationRequest`, apart from the schema subset, the semantic layer, the prompt built of them, the
-- temperature and the timeout, which do not change in the loop
pub record GenerationRequest : Type 0 where
  pub question : String
  pub dialect : SqlDialect
  pub max_rows : ℕ
  pub resolved_date : Option ResolvedDate
  pub conversation : Option ConversationState
  pub repair : Option RepairContext
  pub model : String

pub record TokenUsage : Type 0 where
  pub prompt_tokens : ℕ
  pub completion_tokens : ℕ

pub record GenerationClarification : Type 0 where
  pub category : AmbiguityCategory
  pub question : String
  pub interpretations : List String

-- `confidence` in hundredths
pub record GenerationResponse : Type 0 where
  pub sql : String
  pub dialect : SqlDialect
  pub explanation : String
  pub referenced_tables : List String
  pub referenced_columns : List String
  pub assumptions : List String
  pub confidence : ℕ
  pub needs_clarification : Bool
  pub clarification : Option GenerationClarification
  pub prompt_version : String
  pub provider : String
  pub model : String
  pub usage : TokenUsage

-- What a call of the provider does.
pub data Reply : Type 0 where
  failed : EngineError → Reply
  answered : GenerationResponse → Reply

-- What the pipeline does to the world: a counter, a call of the provider, a query that is run.
pub data Effect : Type 0 where
  inc : String → String → Effect
  generate : ℕ → Effect
  execute : String → ℕ → Effect

-- The end of the loop: an error of the provider, a result, or the failed assertion that there is one.
pub data Generated (F : Type 0) : Type 0 where
  raised : EngineError → Generated F
  finished : GenerationResponse → Secured F → ℕ → Generated F
  no_generation : Generated F

module _ {F : Type 0} (provider : ℕ → GenerationRequest → Reply) (secure : String → Secured F)
    (request : GenerationRequest) (max_repair : ℕ) where
  -- the request of one attempt
  unfoldable pub attempt_request : Option RepairContext → GenerationRequest
  attempt_request ctx = record request { repair = ctx }

  unfoldable pub next_context : ℕ → GenerationResponse → Secured F → RepairContext
  next_context attempts g s = record {
    attempt = attempts;
    previous_sql = g.sql;
    errors = sanitized_feedback s.issues;
  }

  -- `attempt < max_repair and is_repairable(issues)`
  unfoldable pub may_repair : ℕ → Secured F → Bool
  may_repair attempt s = ltb attempt max_repair && is_repairable s.issues

  decide :
      (ℕ → ℕ → Option RepairContext → List Effect → Generated F × List Effect)
      → ℕ
      → ℕ
      → List Effect
      → GenerationResponse
      → Secured F
      → Generated F × List Effect
  decide again attempt attempts log g s =
      let next =
        again (attempt + 1) (attempts + 1) (some (next_context (attempts + 1) g s))
          (log ++ inc "t2sql_repair_attempts_total" "" ∷ []) in
      if s.ok
      then (finished g s attempts, log)
      else (if may_repair attempt s then next else (finished g s attempts, log))

  -- what a round makes of the provider's reply
  pub after_reply :
      (ℕ → ℕ → Option RepairContext → List Effect → Generated F × List Effect)
      → ℕ
      → ℕ
      → List Effect
      → Reply
      → Generated F × List Effect
  after_reply again attempt attempts log (failed e) = (raised e, log)
  after_reply again attempt attempts log (answered g) =
      decide again attempt attempts log g (secure g.sql)

  -- one round for each `attempt` of `range(max_repair + 1)`
  loop : ℕ → ℕ → ℕ → Option RepairContext → List Effect → Generated F × List Effect
  loop zero attempt attempts ctx log = (no_generation, log)
  loop (suc rounds) attempt attempts ctx log =
      after_reply (loop rounds) attempt attempts (log ++ generate attempt ∷ [])
        (provider attempt (attempt_request ctx))

  -- `_generate_with_repair`
  pub generate_with_repair : List Effect → Generated F × List Effect
  generate_with_repair log = loop (suc max_repair) 0 0 none log
