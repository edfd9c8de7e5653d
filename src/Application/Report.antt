-- ===== src/Application/Report.antt =====
-- The helpers of `QueryOrchestrator` of src/text_to_sql/application/orchestrator.py: the tenant check,
-- the summary of the conversation, the validation report, the model's metadata and the row cap.
use build_your_own_text2sql.Base.{
  ℕ, zero, suc, min, String, Bool, Option, none, some, List, [], ◌∷◌, ◌++◌, if◌then◌else◌,
}
use build_your_own_text2sql.Base.Text.{◌=s=◌, ◌+s◌, join, is_empty}
use build_your_own_text2sql.Common.Errors.{
  EngineError, raise_error, authorization_denied, code_detail,
}
use build_your_own_text2sql.Domain.Enums.{statement_value}
use build_your_own_text2sql.Domain.Models.{
  QueryRequest, AuthContext, ConversationState, ConversationTurn, last_turn, ValidationReport,
  ModelMetadata,
}
use build_your_own_text2sql.Application.Gate.{Secured}
use build_your_own_text2sql.Application.Generation.{GenerationResponse}

-- `_authorize_tenant`
unfoldable pub authorize_tenant : QueryRequest → AuthContext → Option EngineError
unfolding raise_error
authorize_tenant request auth = elim request.tenant_id [
  | none ↦ none
  | some t ↦
      if t =s= auth.tenant_id
      then none
      else some (
          raise_error authorization_denied
            "The requested tenant does not match the authenticated tenant."
            (code_detail "tenant_mismatch"))
]

-- `label: a, b` for a list that is not empty
summary_bit : String → List String → List String
unfolding join
summary_bit label [] = []
summary_bit label (x ∷ xs) = (label +s ": " +s join ", " (x ∷ xs)) ∷ []

date_bit : Option String → List String
date_bit none = []
date_bit (some d) = if is_empty d then [] else ("date range: " +s d) ∷ []

turn_summary : ConversationTurn → String
unfolding join
turn_summary last = join "; " (
    ("Previous question: " +s last.question) ∷ summary_bit "metrics" last.metrics
    ++ summary_bit "dimensions" last.dimensions
    ++ summary_bit "filters" last.filters
    ++ date_bit last.date_range)

-- `_conversation_summary`
pub conversation_summary : Option ConversationState → Option String
unfolding last_turn
conversation_summary none = none
conversation_summary (some turns) = elim (last_turn turns) [
  | none ↦ none
  | some last ↦ some (turn_summary last)
]

-- `_build_report`
unfoldable pub build_report : {F : Type 0} → Secured F → ValidationReport F
unfolding statement_value
build_report s = record {
  is_valid = s.ok;
  statement_type = statement_value s.statement_type;
  referenced_tables = s.referenced_tables;
  referenced_columns = s.referenced_columns;
  issues = s.issues;
  risk_level = elim s.cost [ none ↦ none | some c ↦ some c.risk_level ];
  estimated_cost = elim s.cost [ none ↦ none | some c ↦ c.estimated_rows ];
  applied_rewrites = s.applied_rewrites;
}

-- `_model_metadata`
unfoldable pub model_metadata : Bool → GenerationResponse → ℕ → Option ModelMetadata
model_metadata disclose g attempts =
    if disclose
    then some (record {
      provider = g.provider;
      model = g.model;
      prompt_version = g.prompt_version;
      prompt_tokens = g.usage.prompt_tokens;
      completion_tokens = g.usage.completion_tokens;
      repair_attempts = attempts;
    })
    else none

-- `request.max_rows or self._max_rows`, capped
unfoldable pub row_cap : Option ℕ → ℕ → ℕ
row_cap none configured = configured
row_cap (some zero) configured = configured
row_cap (some (suc n)) configured = min (suc n) configured
