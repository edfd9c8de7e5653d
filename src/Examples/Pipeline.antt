-- ===== src/Examples/Pipeline.antt =====
-- The theorems on the gate, the repair loop and the whole request.
use build_your_own_text2sql.Base.{
  ℕ, zero, suc, ◌+◌, ◌≤◌, ◌≡◌, refl, true, false, String, none, some, [],
}
use build_your_own_text2sql.Domain.Enums.{SqlDialect}
use build_your_own_text2sql.Domain.Models.{QueryRequest}
use build_your_own_text2sql.Sql.Validator.Statement.{validator_runs}
use build_your_own_text2sql.Security.Policy.{policy_runs}
use build_your_own_text2sql.Security.Rewriter.{rewriter_runs}
use build_your_own_text2sql.Security.Cost.{cost_runs}
use build_your_own_text2sql.Sql.Normalizer.{enforce_limit, normalize_sql}
use build_your_own_text2sql.Execution.{result_of}
use build_your_own_text2sql.Application.Gate.{Secured, secure_candidate, gate_runs}
use build_your_own_text2sql.Application.Gate.Passed.{IsPassed, secure_candidate-IsPassed}
use build_your_own_text2sql.Application.Generation.{
  GenerationRequest, GenerationResponse, Reply, answered, generate_with_repair,
}
use build_your_own_text2sql.Application.Generation.Bounded.{
  IsEnd, provider_calls, generate_with_repair-IsEnd,
}
use build_your_own_text2sql.Application.Process.{Collaborators, process}
use build_your_own_text2sql.Application.Process.Guarded.{IsSafe, process-IsSafe}
use build_your_own_text2sql.Examples.Sample.{
  platform, shop, viewer, names_sql, secrets_sql, renamed_sql,
}

names-ok : (secure_candidate platform SqlDialect.sqlite shop viewer 50 names_sql).ok ≡ true
unfolding gate_runs validator_runs policy_runs rewriter_runs cost_runs enforce_limit normalize_sql
names-ok = refl

-- the candidate passes with the tenant predicate and the limit added
names-final_sql :
    (secure_candidate platform SqlDialect.sqlite shop viewer 50 names_sql).final_sql
    ≡ some "SELECT c.name FROM customers AS c WHERE c.tenant_id = 42 LIMIT 50"
unfolding gate_runs validator_runs policy_runs rewriter_runs cost_runs enforce_limit normalize_sql
names-final_sql = refl

-- a secret column is refused
secrets-refused :
    (secure_candidate platform SqlDialect.sqlite shop viewer 50 secrets_sql).ok ≡ false
unfolding gate_runs validator_runs policy_runs rewriter_runs cost_runs enforce_limit normalize_sql
secrets-refused = refl

-- and let through when it is renamed to itself
renamed-ok : (secure_candidate platform SqlDialect.sqlite shop viewer 50 renamed_sql).ok ≡ true
unfolding gate_runs validator_runs policy_runs rewriter_runs cost_runs enforce_limit normalize_sql
renamed-ok = refl

secure_candidate-IsPassed_example :
    IsPassed platform SqlDialect.sqlite shop viewer 50 names_sql
      (secure_candidate platform SqlDialect.sqlite shop viewer 50 names_sql)
secure_candidate-IsPassed_example =
    secure_candidate-IsPassed platform SqlDialect.sqlite shop viewer 50 names_sql names-ok

abbrev answer : String → GenerationResponse
answer sql = record {
  sql = sql;
  dialect = SqlDialect.sqlite;
  referenced_tables = [];
  referenced_columns = [];
  needs_clarification = false;
  clarification = none;
  explanation = "";
  assumptions = [];
  confidence = 80;
  prompt_version = "p";
  provider = "fake";
  model = "m";
  usage = record { prompt_tokens = 1; completion_tokens = 1 };
}

-- a syntax error first, then a good statement
abbrev improving : ℕ → GenerationRequest → Reply
improving zero r = answered (answer "SELEC")
improving (suc n) r = answered (answer names_sql)

abbrev gate : String → Secured ℕ
gate = secure_candidate platform SqlDialect.sqlite shop viewer 50

abbrev first : GenerationRequest
first = record {
  question = "names";
  dialect = SqlDialect.sqlite;
  max_rows = 50;
  resolved_date = none;
  conversation = none;
  repair = none;
  model = "m";
}

generate_with_repair-IsEnd_example :
    IsEnd improving gate first 2 (generate_with_repair improving gate first 2 []).0
    × (provider_calls (generate_with_repair improving gate first 2 []).1
        ≤ provider_calls [] + suc 2)
generate_with_repair-IsEnd_example = generate_with_repair-IsEnd improving gate first 2 []

abbrev service : Collaborators ℕ ℕ
service = record {
  default_dialect = SqlDialect.sqlite;
  max_rows = 50;
  max_repair = 2;
  disclose = true;
  hex = "00ff";
  schema = shop;
  model = "m";
  marked = λ q. false;
  detect = λ q. none;
  retrieve = λ q s. [];
  resolve_date = λ q. none;
  provider = improving;
  secure = λ sql dialect schema auth rows. secure_candidate platform dialect schema auth rows sql;
  run_query = λ dialect sql rows.
      result_of (record { columns = []; rows = []; row_count = 0; truncated = false });
  explainer = λ q r assumptions confidence truncated. ("", []);
}

abbrev names_request : QueryRequest
names_request = record {
  question = "names";
  dialect = none;
  tenant_id = some "42";
  conversation = none;
  max_rows = some 10;
  dry_run = false;
  sql_only = false;
  explain = true;
  correlation_id = none;
}

process-IsSafe_example :
    IsSafe service names_request viewer true none (process service names_request viewer true none).1
process-IsSafe_example = process-IsSafe service names_request viewer true none
