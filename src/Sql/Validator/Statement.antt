-- ===== src/Sql/Validator/Statement.antt =====
-- `validate` and `validate_expression` of src/text_to_sql/sql/validator.py.
pub mod Known
pub mod Verdict
pub mod Single
pub mod Listed
pub mod Hidden
use build_your_own_text2sql.Base.{
  String, Bool, true, not, ◌≡◌, refl, Option, none, some, List, [], ◌∷◌, arith, map, is_some,
}
use build_your_own_text2sql.Base.Lists.{any, find, length}
use build_your_own_text2sql.Base.Text.{◌+s◌, lower, sorted, dedupe, decimal}
use build_your_own_text2sql.Domain.Enums.{StatementType, SqlDialect, is_read_only, statement_value}
use build_your_own_text2sql.Domain.Tables.{DatabaseSchema}
use build_your_own_text2sql.Sqlglot.{SqlGlot, NodeClass}
use build_your_own_text2sql.Sql.Parser.{Outcome, error, done, parse_statements, classify_statement}
use build_your_own_text2sql.Sql.Validator.Config.{SqlValidator, forbidden_node_types}
use build_your_own_text2sql.Sql.Validator.Findings.{ValidationOutcome, add, report_if}
use build_your_own_text2sql.Sql.Validator.Comments.{has_comment_marker}
use build_your_own_text2sql.Sql.Validator.Functions.{check_functions}
use build_your_own_text2sql.Sql.Validator.Tables.{TableScan, alias_set, check_tables}
use build_your_own_text2sql.Sql.Validator.Columns.{Names, found_tables, check_columns}

is_some-find : {A : Type 0} (p : A → Bool) (xs : List A) → is_some (find p xs) ≡ any p xs
is_some-find p [] = refl
is_some-find p (x ∷ xs) = ground (arith, is_some-find p xs)

module _ (sg : SqlGlot) (iteration : List String → List String) (v : SqlValidator) where
  open sg use {
    Expression, Node, is_instance, walk, find_all, find_ancestor, alias, type_name, has_comments,
  }

  unfoldable pub is_forbidden : Node → Bool
  is_forbidden n = any (is_instance n) forbidden_node_types

  -- a star that no function encloses
  pub bare_star : Expression → Node → Bool
  bare_star e star = not (is_some (find_ancestor e star NodeClass.func))

  report_forbidden : Option Node → ValidationOutcome Expression → ValidationOutcome Expression
  report_forbidden none o = o
  report_forbidden (some n) o =
      add o "forbidden_statement"
        ("Prohibited operation '" +s lower (type_name n) +s "' found in the query.") none

  -- checks 1 to 4 of `validate_expression`
  pub check_structure : Expression → ValidationOutcome Expression → ValidationOutcome Expression
  check_structure e o =
      let type = classify_statement sg e in
      report_if (any (bare_star e) (find_all e NodeClass.star)) "select_star_forbidden"
        "SELECT * is not allowed; list explicit columns so sensitivity can be verified." none
        (report_if (any has_comments (walk e)) "comment_present" "SQL comments are not allowed."
          none
          (report_forbidden (find is_forbidden (walk e)) (
            report_if (not (is_read_only type)) "non_read_only_statement"
              ("Statement type '" +s statement_value type +s "' is not permitted (read-only only).")
              none (record o { statement_type = type }))))

  unfoldable pub virtual_aliases : Expression → List String
  unfolding alias_set
  virtual_aliases e =
      alias_set (alias_set [] (map alias (find_all e NodeClass.cte)))
        (map alias (find_all e NodeClass.subquery))

  unfoldable pub output_aliases : Expression → List String
  unfolding alias_set
  output_aliases e = alias_set [] (map alias (find_all e NodeClass.alias))

  pub scan_tables :
      Expression → DatabaseSchema → ValidationOutcome Expression → TableScan Expression
  scan_tables e schema o =
      check_tables sg v schema (virtual_aliases e) (find_all e NodeClass.table)
        (record { outcome = o; alias_to_real = []; real_tables = [] })

  -- what the loop over the columns reads, after the loop over the tables
  pub names_of : Expression → DatabaseSchema → TableScan Expression → Names
  names_of e schema s = record {
    virtual = virtual_aliases e;
    output = output_aliases e;
    alias_to_real = s.alias_to_real;
    infos = found_tables iteration schema s.real_tables;
  }

  check_tables_and_columns :
      Expression → DatabaseSchema → ValidationOutcome Expression → ValidationOutcome Expression
  check_tables_and_columns e schema o =
      let s = scan_tables e schema o in
      let o' = record (s.outcome) { referenced_tables = sorted (dedupe s.real_tables) } in
      let c =
        check_columns sg schema (names_of e schema s) (find_all e NodeClass.column)
          (record { outcome = o'; resolved = [] }) in
      record (c.outcome) { referenced_columns = sorted c.resolved }

  pub check_expression :
      Expression → DatabaseSchema → ValidationOutcome Expression → ValidationOutcome Expression
  check_expression e schema o =
      check_tables_and_columns e schema (check_functions sg v e (check_structure e o))

  -- `_new_outcome` of one statement or more
  pub new_outcome : Expression → ValidationOutcome Expression
  new_outcome e = record {
    is_valid = true;
    statement_type = classify_statement sg e;
    expression = some e;
    referenced_tables = [];
    referenced_columns = [];
    issues = [];
  }

  -- `validate_expression` with no outcome given
  pub validate_expression : Expression → DatabaseSchema → ValidationOutcome Expression
  validate_expression e schema = check_expression e schema (new_outcome e)

  -- `validate` after parsing; `parse_statements` never returns an empty list
  pub validate_statements :
      String → DatabaseSchema → List Expression → Outcome (ValidationOutcome Expression)
  validate_statements sql schema [] = done (
      add
        (record {
          is_valid = true;
          statement_type = StatementType.other;
          expression = none;
          referenced_tables = [];
          referenced_columns = [];
          issues = [];
        })
        "multiple_statements" "Exactly one statement is allowed; found 0." none)
  validate_statements sql schema (e ∷ []) = done (
      check_expression e schema (
        report_if (has_comment_marker sql) "comment_present" "SQL comments are not allowed." none
          (new_outcome e)))
  validate_statements sql schema (e ∷ f ∷ es) = done (
      add (new_outcome e) "multiple_statements"
        ("Exactly one statement is allowed; found " +s decimal (length (e ∷ f ∷ es)) +s ".") none)

  pub validate : String → SqlDialect → DatabaseSchema → Outcome (ValidationOutcome Expression)
  validate sql dialect schema = elim (parse_statements sg sql dialect) [
    | error reason ↦ error reason
    | done es ↦ validate_statements sql schema es
  ]

-- Opens all that a run of the validator computes with.
unfoldable pub validator_runs : Unit {0}
unfolding validate validate_statements validate_expression check_expression check_tables_and_columns
    check_structure report_forbidden is_forbidden bare_star scan_tables names_of new_outcome
    check_functions check_tables check_columns found_tables report_if add sorted dedupe decimal
    lower statement_value is_read_only classify_statement parse_statements has_comment_marker
    virtual_aliases output_aliases
validator_runs = tt
