-- ===== src/Common/Errors.antt =====
-- The error hierarchy: src/text_to_sql/common/errors.py. A class is a constructor, and a class
-- attribute a function by clauses, where a subclass that sets nothing has its parent's value.
use build_your_own_text2sql.Base.{
  ℕ, String, Bool, true, false, ◌≡◌, ◌≤◌, Option, none, some, List, arith,
}
use build_your_own_text2sql.Domain.Models.{ValidationIssue}

pub data ErrorCategory : Type 0 where
  client ambiguity authorization validation provider database cost configuration dependency :
      ErrorCategory
  internal : ErrorCategory

unfoldable pub category_value : ErrorCategory → String
category_value client = "client"
category_value ambiguity = "ambiguity"
category_value authorization = "authorization"
category_value validation = "validation"
category_value provider = "provider"
category_value database = "database"
category_value cost = "cost"
category_value configuration = "configuration"
category_value dependency = "dependency"
category_value internal = "internal"

pub data ErrorClass : Type 0 where
  engine invalid_request ambiguous_question authorization_denied sql_parse sql_validation :
      ErrorClass
  cost_rejected provider_failure provider_timeout provider_output repair_exhausted : ErrorClass
  schema_retrieval execution_failure configuration_failure dependency_unavailable : ErrorClass

unfoldable pub error_code : ErrorClass → String
error_code engine = "engine_error"
error_code invalid_request = "invalid_request"
error_code ambiguous_question = "clarification_required"
error_code authorization_denied = "authorization_denied"
error_code sql_parse = "sql_parse_failed"
error_code sql_validation = "sql_validation_failed"
error_code cost_rejected = "query_cost_rejected"
error_code provider_failure = "provider_error"
error_code provider_timeout = "provider_timeout"
error_code provider_output = "provider_output_invalid"
error_code repair_exhausted = "repair_exhausted"
error_code schema_retrieval = "schema_retrieval_failed"
error_code execution_failure = "execution_failed"
error_code configuration_failure = "configuration_error"
error_code dependency_unavailable = "dependency_unavailable"

unfoldable pub http_status : ErrorClass → ℕ
http_status engine = 500
http_status invalid_request = 422
http_status ambiguous_question = 409
http_status authorization_denied = 403
http_status sql_parse = 422
http_status sql_validation = 422
http_status cost_rejected = 422
http_status provider_failure = 502
http_status provider_timeout = 504
http_status provider_output = 502
http_status repair_exhausted = 422
http_status schema_retrieval = 500
http_status execution_failure = 500
http_status configuration_failure = 500
http_status dependency_unavailable = 503

unfoldable pub class_retryable : ErrorClass → Bool
class_retryable provider_failure = true
class_retryable provider_timeout = true
class_retryable provider_output = true
class_retryable schema_retrieval = true
class_retryable execution_failure = true
class_retryable dependency_unavailable = true
class_retryable _ = false

unfoldable pub class_category : ErrorClass → ErrorCategory
class_category engine = internal
class_category invalid_request = client
class_category ambiguous_question = ambiguity
class_category authorization_denied = authorization
class_category sql_parse = validation
class_category sql_validation = validation
class_category cost_rejected = cost
class_category provider_failure = provider
class_category provider_timeout = provider
class_category provider_output = provider
class_category repair_exhausted = validation
class_category schema_retrieval = database
class_category execution_failure = database
class_category configuration_failure = configuration
class_category dependency_unavailable = dependency

-- The details that the program puts into an error: a code, a reason, the issues of a candidate with
-- the number of repairs, or the locations and messages of an invalid request body.
pub data Details : Type 0 where
  nothing : Details
  code_detail reason_detail : String → Details
  issue_details : List ValidationIssue → ℕ → Details
  field_errors : List (String × String) → Details

pub record EngineError : Type 0 where
  pub class : ErrorClass
  pub message : String
  pub details : Details
  pub remediation : Option String
  pub retryable : Bool

-- `EngineError.__init__`: the class's flag, unless one is given
unfoldable pub make_error :
    ErrorClass → String → Details → Option String → Option Bool → EngineError
unfolding class_retryable
make_error class message details remediation retryable = record {
  class = class;
  message = message;
  details = details;
  remediation = remediation;
  retryable = elim retryable [ none ↦ class_retryable class | some b ↦ b ];
}

-- `raise SomeError(message, details=…)`
unfoldable pub raise_error : ErrorClass → String → Details → EngineError
unfolding make_error
raise_error class message details = make_error class message details none none

-- `to_public_dict`: the keys of the payload in order, and what stands there
pub record PublicError : Type 0 where
  pub code : String
  pub message : String
  pub category : String
  pub retryable : Bool
  pub details : Option Details
  pub remediation : Option String

unfoldable pub present_details : Details → Option Details
present_details nothing = none
present_details d = some d

unfoldable pub to_public : EngineError → PublicError
unfolding present_details error_code class_category category_value
to_public e = record {
  code = error_code e.class;
  message = e.message;
  category = category_value (class_category e.class);
  retryable = e.retryable;
  details = present_details e.details;
  remediation = e.remediation;
}

-- An error that its class calls retryable is a server-side one.
pub class_retryable-http_status : (c : ErrorClass) → class_retryable c ≡ true → 500 ≤ http_status c
unfolding class_retryable http_status
class_retryable-http_status engine h = omega arith
class_retryable-http_status invalid_request h = cc
class_retryable-http_status ambiguous_question h = cc
class_retryable-http_status authorization_denied h = cc
class_retryable-http_status sql_parse h = cc
class_retryable-http_status sql_validation h = cc
class_retryable-http_status cost_rejected h = cc
class_retryable-http_status repair_exhausted h = cc
class_retryable-http_status _ h = omega arith
