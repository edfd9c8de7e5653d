-- ===== src/Application/Gate.antt =====
-- `_secure_candidate` of src/text_to_sql/application/orchestrator.py: every candidate, original or
-- repaired, passes through it.
pub mod Passed
use build_your_own_text2sql.Base.{
  ℕ, String, Bool, true, false, Option, none, some, List, [], ◌∷◌, if◌then◌else◌,
}
use build_your_own_text2sql.Domain.Enums.{SqlDialect, StatementType}
use build_your_own_text2sql.Domain.Models.{ValidationIssue, AuthContext}
use build_your_own_text2sql.Domain.Tables.{DatabaseSchema}
use build_your_own_text2sql.Sql.Parser.{error, done}
use build_your_own_text2sql.Sql.Validator.Findings.{ValidationOutcome}
use build_your_own_text2sql.Sql.Validator.Statement.{validate, validate_expression}
use build_your_own_text2sql.Sql.Normalizer.{normalize_sql, enforce_limit}
use build_your_own_text2sql.Security.Policy.{PolicyDecision, enforce}
use build_your_own_text2sql.Security.Rewriter.{rewrite}
use build_your_own_text2sql.Security.Cost.{CostReport, analyze}
use build_your_own_text2sql.Application.Platform.{Platform}

-- `_Secured`
pub record Secured (F : Type 0) : Type 0 where
  pub ok : Bool
  pub issues : List ValidationIssue
  pub final_sql : Option String
  pub statement_type : StatementType
  pub referenced_tables : List String
  pub referenced_columns : List String
  pub applied_rewrites : List String
  pub cost : Option (CostReport F)

-- `_Secured(ok=False, issues=…)`
unfoldable pub refused : {F : Type 0} → List ValidationIssue → Secured F
refused issues = record {
  ok = false;
  issues = issues;
  final_sql = none;
  statement_type = StatementType.other;
  referenced_tables = [];
  referenced_columns = [];
  applied_rewrites = [];
  cost = none;
}

-- `str(exc.details.get("reason", "SQL could not be parsed."))`
unfoldable pub parse_issue : Option String → ValidationIssue
parse_issue reason = record {
  code = "sql_parse_failed";
  message = elim reason [ none ↦ "SQL could not be parsed." | some r ↦ r ];
  location = none;
}

module _ (p : Platform) (dialect : SqlDialect) (schema : DatabaseSchema) (auth : AuthContext)
    (max_rows : ℕ) where
  open p use {
    sqlglot, floats, iteration, validator, security, medium_threshold, high_threshold, explain,
  }

  -- what the rejections of validation and policy report of the outcome
  refused_after : ValidationOutcome sqlglot.Expression → List ValidationIssue → Secured floats.Float
  refused_after o issues = record (refused issues) {
    statement_type = o.statement_type;
    referenced_tables = o.referenced_tables;
    referenced_columns = o.referenced_columns;
  }

  -- step 6, on the revalidated statement
  cost_step :
      ValidationOutcome sqlglot.Expression
      → List String
      → String
      → CostReport floats.Float
      → Secured floats.Float
  cost_step revalidation applied final_sql cost =
      if cost.allowed
      then record {
        ok = true;
        issues = [];
        final_sql = some final_sql;
        statement_type = revalidation.statement_type;
        referenced_tables = revalidation.referenced_tables;
        referenced_columns = revalidation.referenced_columns;
        applied_rewrites = applied;
        cost = some cost;
      }
      else record (refused cost.issues) { cost = some cost }

  -- step 5: the rewritten and limited statement is validated again
  revalidate_step :
      sqlglot.Expression → List String → ValidationOutcome sqlglot.Expression → Secured floats.Float
  revalidate_step final_expr applied revalidation =
      let final_sql = normalize_sql sqlglot final_expr dialect false in
      if revalidation.is_valid
      then cost_step revalidation applied final_sql (
          analyze floats security medium_threshold high_threshold sqlglot final_expr dialect
            (some (explain final_sql)))
      else refused revalidation.issues

  -- steps 3 and 4: the statement that is validated again
  unfoldable pub final_expression : sqlglot.Expression → sqlglot.Expression
  final_expression e =
      (enforce_limit sqlglot (rewrite sqlglot e schema auth.tenant_id).0 max_rows).expression

  rewrite_step : sqlglot.Expression → Secured floats.Float
  rewrite_step e =
      revalidate_step (final_expression e) (rewrite sqlglot e schema auth.tenant_id).1
        (validate_expression sqlglot iteration validator (final_expression e) schema)

  -- step 2
  policy_step :
      ValidationOutcome sqlglot.Expression
      → sqlglot.Expression
      → PolicyDecision
      → Secured floats.Float
  policy_step o e decision =
      if decision.allowed then rewrite_step e else refused_after o decision.issues

  validation_step :
      ValidationOutcome sqlglot.Expression → Option sqlglot.Expression → Secured floats.Float
  validation_step o none = refused_after o o.issues
  validation_step o (some e) =
      if o.is_valid
      then policy_step o e (enforce security o.referenced_tables o.referenced_columns schema auth)
      else refused_after o o.issues

  pub secure_candidate : String → Secured floats.Float
  secure_candidate sql = elim (validate sqlglot iteration validator sql dialect schema) [
    | error reason ↦ refused (parse_issue reason ∷ [])
    | done o ↦ validation_step o o.expression
  ]

-- Opens all that a run of the gate computes with, apart from its components.
unfoldable pub gate_runs : Unit {0}
unfolding secure_candidate validation_step policy_step rewrite_step revalidate_step cost_step
    refused_after refused final_expression
gate_runs = tt
