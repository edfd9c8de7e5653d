-- ===== src/Examples/Statements.antt =====
-- The theorems on the validator and the normalizer, on the sample library.
use Prim.Native.Char.{char}
use build_your_own_text2sql.Base.{◌≤◌, ◌≡◌, refl, true, String, none, some, List, [], ◌∷◌, arith}
use build_your_own_text2sql.Domain.Enums.{SqlDialect}
use build_your_own_text2sql.Sql.Parser.{done, parse_statements}
use build_your_own_text2sql.Sql.Validator.Findings.{ValidationOutcome, add}
use build_your_own_text2sql.Sql.Validator.Statement.{
  validate, validate_expression, check_expression, validator_runs, new_outcome, output_aliases,
}
use build_your_own_text2sql.Base.Lists.{all}
use build_your_own_text2sql.Base.Text.{lower}
use build_your_own_text2sql.Security.Policy.{enforce, table_allowed}
use build_your_own_text2sql.Sql.Validator.Statement.Hidden.{enforce-hidden}
use build_your_own_text2sql.Sql.Validator.Comments.Found.{Piece, plain, literal}
use build_your_own_text2sql.Sql.Validator.Statement.Single.{IsSingle, validate-IsSingle}
use build_your_own_text2sql.Sql.Validator.Columns.{ColumnScan, Names}
use build_your_own_text2sql.Sql.Normalizer.{enforce_limit, is_query}
use build_your_own_text2sql.Sql.Normalizer.Bounded.{row_limit, LimitLaws, enforce_limit-row_limit}
use build_your_own_text2sql.Examples.Sample.{
  flat_library, renamed_query, policy_config, viewer, names_query, names_sql, plain_validator, shop,
  customers, orders, Flat,
}

abbrev as_given : List String → List String
as_given xs = xs

abbrev names_outcome : ValidationOutcome Flat
unfolding validator_runs
names_outcome = validate_expression flat_library as_given plain_validator names_query shop

names_outcome-validate :
    validate flat_library as_given plain_validator names_sql SqlDialect.sqlite shop
    ≡ done names_outcome
unfolding validator_runs names_outcome
names_outcome-validate = refl

names_outcome-is_valid : names_outcome.is_valid ≡ true
unfolding validator_runs names_outcome
names_outcome-is_valid = refl

validate-IsSingle_example :
    (es : List Flat) × (parse_statements flat_library names_sql SqlDialect.sqlite ≡ done es)
    × IsSingle flat_library as_given plain_validator names_sql shop es names_outcome
validate-IsSingle_example =
    validate-IsSingle flat_library as_given plain_validator names_sql SqlDialect.sqlite shop
      names_outcome names_outcome-validate names_outcome-is_valid

abbrev limit_laws : LimitLaws flat_library
unfolding row_limit
limit_laws = record { row_limit-with_limit = λ e n. refl }

enforce_limit-row_limit_example :
    (row_limit flat_library (enforce_limit flat_library names_query 50).expression
      ≡ some (enforce_limit flat_library names_query 50).effective_limit)
    × ((enforce_limit flat_library names_query 50).effective_limit ≤ 50)
unfolding is_query
enforce_limit-row_limit_example =
    enforce_limit-row_limit flat_library limit_laws names_query 50 refl (omega arith)

-- two tables under the same names in scope
abbrev both_names : Names
both_names = record {
  virtual = [];
  output = [];
  alias_to_real = ("c", "customers" ∷ []) ∷ [];
  infos = customers ∷ orders ∷ [];
}

abbrev empty_scan : ColumnScan Flat
unfolding validator_runs
empty_scan = record {
  outcome = new_outcome flat_library as_given plain_validator names_query;
  resolved = [];
}

enforce-hidden_example :
    ((validate_expression flat_library as_given plain_validator renamed_query
        shop).referenced_columns
      ≡ [])
    × ((enforce policy_config
          (validate_expression flat_library as_given plain_validator renamed_query
            shop).referenced_tables
          (validate_expression flat_library as_given plain_validator renamed_query
            shop).referenced_columns
          shop
          viewer).allowed
        ≡ all
            (table_allowed policy_config)
            (validate_expression flat_library as_given plain_validator renamed_query
              shop).referenced_tables)
unfolding output_aliases lower
enforce-hidden_example =
    enforce-hidden flat_library as_given plain_validator renamed_query shop policy_config viewer
      refl

-- a literal that holds a marker, and a marker behind it
abbrev hash_pieces : List Piece
hash_pieces = literal "-- no" ∷ plain (char 35 tt) ∷ []

-- what `validate` reports of a statement with a comment behind it
abbrev marked_outcome : ValidationOutcome Flat
unfolding validator_runs
marked_outcome = check_expression flat_library as_given plain_validator names_query shop (
    add (new_outcome flat_library as_given plain_validator names_query) "comment_present"
      "SQL comments are not allowed." none)
