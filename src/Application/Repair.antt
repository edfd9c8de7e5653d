-- ===== src/Application/Repair.antt =====
-- Repair planning: src/text_to_sql/application/repair.py.
pub mod Refused
use text.Mathlib.TextEquality.{eq_iff}
use build_your_own_text2sql.Base.{
  String, Bool, true, false, ◌≡◌, refl, List, [], ◌∷◌, map, arith, if◌then◌else◌,
}
use build_your_own_text2sql.Base.Lists.{filter}
use build_your_own_text2sql.Base.Text.{◌+s◌, contains, dedupe}
use build_your_own_text2sql.Domain.Models.{ValidationIssue, codes_of, meets}

abbrev pub repairable_codes : List String
repairable_codes =
    "sql_parse_failed" ∷ "unknown_table" ∷ "unknown_column" ∷ "select_star_forbidden"
    ∷ "denied_function" ∷ []

abbrev pub non_repairable_codes : List String
non_repairable_codes =
    "non_read_only_statement" ∷ "forbidden_statement" ∷ "multiple_statements" ∷ "comment_present"
    ∷ "system_catalog_access" ∷ "cross_database_access" ∷ "schema_not_allowed" ∷ "column_denied"
    ∷ "table_denied" ∷ "table_not_allowed" ∷ "cartesian_product" ∷ "too_many_joins"
    ∷ "subquery_too_deep" ∷ "too_many_columns" ∷ "estimated_cost_too_high" ∷ []

unfoldable pub is_repairable : List ValidationIssue → Bool
is_repairable [] = false
is_repairable (i ∷ is) =
    if meets (codes_of (i ∷ is)) non_repairable_codes
    then false
    else meets (codes_of (i ∷ is)) repairable_codes

feedback_lines : List ValidationIssue → List String
feedback_lines issues =
    map (λ i. i.code +s ": " +s i.message) (filter (λ i. contains repairable_codes i.code) issues)

unfoldable pub sanitized_feedback : List ValidationIssue → List String
unfolding feedback_lines dedupe
sanitized_feedback issues = dedupe (feedback_lines issues)

pub meets-contains :
    (codes other : List String) (c : String)
    → contains codes c ≡ true
    → contains other c ≡ true
    → meets codes other ≡ true
meets-contains [] other c h k = h
meets-contains (d ∷ ds) other c h k = ground (arith, eq_iff d c, meets-contains ds other c)

-- one hard code, whatever else was found
pub is_repairable-listed :
    (issues : List ValidationIssue) (c : String)
    → contains (codes_of issues) c ≡ true
    → contains non_repairable_codes c ≡ true
    → is_repairable issues ≡ false
unfolding is_repairable
is_repairable-listed [] c h k = refl
is_repairable-listed (i ∷ is) c h k =
    rw (meets-contains (codes_of (i ∷ is)) non_repairable_codes c h k) refl
