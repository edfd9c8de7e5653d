-- ===== src/Domain/Models.antt =====
-- Request and response values: src/text_to_sql/domain/models.py and domain/context.py. Durations
-- (`StageTimings`, `duration_ms`) are measured by the wall clock and are not modelled.
use build_your_own_text2sql.Base.{
  ℕ, String, Bool, Option, none, some, List, [], ◌∷◌, ◌++◌, map, ◌≡◌, refl,
}
use build_your_own_text2sql.Base.Lists.{any}
use build_your_own_text2sql.Base.Text.{contains, lower}
use build_your_own_text2sql.Domain.Enums.{AmbiguityCategory, SqlDialect, RiskLevel, ResponseStatus}

pub record ValidationIssue : Type 0 where
  pub code : String
  pub message : String
  pub location : Option String

-- the codes of a list of issues, `{issue.code for issue in issues}`
abbrev pub codes_of : List ValidationIssue → List String
codes_of issues = map (λ i. i.code) issues

-- `codes & other` as a truth value
abbrev pub meets : List String → List String → Bool
meets codes other = any (λ c. contains other c) codes

pub record ClarificationInterpretation : Type 0 where
  pub label : String
  pub description : String

-- `confidence` in hundredths
pub record Clarification : Type 0 where
  pub category : AmbiguityCategory
  pub explanation : String
  pub interpretations : List ClarificationInterpretation
  pub suggested_question : String
  pub confidence : ℕ

pub record ConversationTurn : Type 0 where
  pub question : String
  pub sql : Option String
  pub referenced_tables : List String
  pub metrics : List String
  pub dimensions : List String
  pub filters : List String
  pub date_range : Option String
  pub assumptions : List String

-- `ConversationState`: its turns; `last` is the last of them
abbrev pub ConversationState : Type 0
ConversationState = List ConversationTurn

unfoldable pub last_turn : ConversationState → Option ConversationTurn
last_turn [] = none
last_turn (t ∷ []) = some t
last_turn (t ∷ u ∷ ts) = last_turn (u ∷ ts)

unfoldable pub with_turn : ConversationState → ConversationTurn → ConversationState
with_turn turns t = turns ++ t ∷ []

-- the new turn is the last one
pub last_turn-with_turn :
    (turns : ConversationState) (t : ConversationTurn) → last_turn (with_turn turns t) ≡ some t
unfolding last_turn with_turn
last_turn-with_turn [] t = refl
last_turn-with_turn (u ∷ []) t = refl
last_turn-with_turn (u ∷ v ∷ ts) t = last_turn-with_turn (v ∷ ts) t

pub record AuthContext : Type 0 where
  pub user_id : String
  pub tenant_id : String
  pub roles : List String

unfoldable pub is_admin : AuthContext → Bool
unfolding lower
is_admin auth = contains (map lower auth.roles) "admin"

unfoldable pub has_role : AuthContext → String → Bool
unfolding lower
has_role auth role = contains (map lower auth.roles) (lower role)

-- `QueryRequest`, apart from the data source and the glossary overrides, which the pipeline does not
-- read
pub record QueryRequest : Type 0 where
  pub question : String
  pub dialect : Option SqlDialect
  pub tenant_id : Option String
  pub conversation : Option ConversationState
  pub max_rows : Option ℕ
  pub dry_run : Bool
  pub sql_only : Bool
  pub explain : Bool
  pub correlation_id : Option String

pub record RetrievedObject : Type 0 where
  pub table : String
  -- in tenths: every weight of the retriever is a multiple of 0.1
  pub score : ℕ
  pub reason : String

-- `ValidateSQLRequest`, apart from the tenant, which `validate_sql` does not read
pub record ValidateSqlRequest : Type 0 where
  pub sql : String
  pub dialect : Option SqlDialect

-- `F` holds the estimates' floats
pub record ValidationReport (F : Type 0) : Type 0 where
  pub is_valid : Bool
  pub statement_type : String
  pub referenced_tables : List String
  pub referenced_columns : List String
  pub issues : List ValidationIssue
  pub risk_level : Option RiskLevel
  pub estimated_cost : Option F
  pub applied_rewrites : List String

pub record ExecutionMetadata : Type 0 where
  pub row_count : ℕ
  pub truncated : Bool

pub record ModelMetadata : Type 0 where
  pub provider : String
  pub model : String
  pub prompt_version : String
  pub prompt_tokens : ℕ
  pub completion_tokens : ℕ
  pub repair_attempts : ℕ

-- `QueryResponse`, where `V` holds the JSON values of a row other than null, which is `none`
pub record QueryResponse (F V : Type 0) : Type 0 where
  pub status : ResponseStatus
  pub correlation_id : String
  pub sql : Option String
  pub dialect : Option SqlDialect
  pub columns : List String
  pub rows : List (List (Option V))
  pub row_count : Option ℕ
  pub truncated : Bool
  pub explanation : Option String
  pub assumptions : List String
  pub warnings : List String
  pub confidence : Option ℕ
  pub validation : Option (ValidationReport F)
  pub clarification : Option Clarification
  pub retrieval : List RetrievedObject
  pub execution : Option ExecutionMetadata
  pub model : Option ModelMetadata

-- a response of a status, with the defaults elsewhere
unfoldable pub empty_response : {F V : Type 0} → ResponseStatus → String → QueryResponse F V
empty_response status correlation_id = record {
  status = status;
  correlation_id = correlation_id;
  sql = none;
  dialect = none;
  columns = [];
  rows = [];
  row_count = none;
  truncated = Bool.false;
  explanation = none;
  assumptions = [];
  warnings = [];
  confidence = none;
  validation = none;
  clarification = none;
  retrieval = [];
  execution = none;
  model = none;
}
