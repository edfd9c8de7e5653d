-- ===== src/Security/Cost.antt =====
-- Cost and complexity: src/text_to_sql/security/cost.py. Estimates are floats, taken abstractly, and
-- what EXPLAIN answers is a parameter.
pub mod Limits
use build_your_own_text2sql.Base.{
  ℕ, suc, ◌-◌, max, String, Bool, true, false, not, ◌&&◌, ◌||◌, Option, none, some, List, [], ◌∷◌,
  ◌++◌, ltb, leb, ◌==◌, if◌then◌else◌,
}
use build_your_own_text2sql.Base.Lists.{any, length}
use build_your_own_text2sql.Base.Text.{◌=s=◌, ◌+s◌, upper, has_substring, decimal}
use build_your_own_text2sql.Domain.Enums.{SqlDialect, is_postgres, RiskLevel, low, medium, high}
use build_your_own_text2sql.Domain.Models.{ValidationIssue}
use build_your_own_text2sql.Sqlglot.{SqlGlot, NodeClass}
use build_your_own_text2sql.Security.Policy.{SecurityPolicyConfig}

-- Python's floats, as far as the thresholds use them: `a >= b`, and `str(int(a))`.
pub record Floats : Type 1 where
  pub Float : Type 0
  pub at_least : Float → Float → Bool
  pub show_int : Float → String

-- What EXPLAIN yields: nothing (no connection, no row, no plan), the rows alone, or both numbers.
pub data PlanEstimate (F : Type 0) : Type 0 where
  unavailable : PlanEstimate F
  rows_only : F → PlanEstimate F
  rows_and_cost : F → F → PlanEstimate F

pub record CostReport (F : Type 0) : Type 0 where
  pub allowed : Bool
  pub risk_level : RiskLevel
  pub join_count : ℕ
  pub subquery_depth : ℕ
  pub selected_columns : ℕ
  pub estimated_rows : Option F
  pub estimated_cost : Option F
  pub issues : List ValidationIssue

module _ (sg : SqlGlot) where
  open sg use {
    Expression, Node, root, is_instance, find_all, parents, kind, side, has_on, has_using,
    count_expressions,
  }

  -- `len([a for a in ancestors if isinstance(a, Select)])`, the inner loop
  count_selects : List Node → ℕ
  count_selects [] = 0
  count_selects (a ∷ as') =
      if is_instance a NodeClass.select then suc (count_selects as') else count_selects as'

  deepest : Expression → ℕ → List Node → ℕ
  unfolding count_selects
  deepest e best [] = best
  deepest e best (n ∷ ns) = deepest e (max best (suc (count_selects (parents e n)))) ns

  -- `max_depth or 1`
  unfoldable pub max_select_depth : Expression → ℕ
  unfolding deepest
  max_select_depth e =
      let depth = deepest e 0 (find_all e NodeClass.select) in if depth == 0 then 1 else depth

  -- the root if it is a select, or else the first select found
  projected_of : List Node → ℕ
  projected_of [] = 0
  projected_of (s ∷ ss) = count_expressions s

  unfoldable pub projected_column_count : Expression → ℕ
  unfolding projected_of
  projected_column_count e =
      if is_instance (root e) NodeClass.select
      then count_expressions (root e)
      else projected_of (find_all e NodeClass.select)

  is_natural : Node → Bool
  unfolding upper has_substring
  is_natural j =
      has_substring "NATURAL" (upper (kind j)) || has_substring "NATURAL" (upper (side j))

  unfoldable pub is_cartesian : Node → Bool
  unfolding upper is_natural
  is_cartesian j =
      (upper (kind j) =s= "CROSS") || not (has_on j || has_using j) && not (is_natural j)

  unfoldable pub has_cartesian_product : Expression → Bool
  unfolding is_cartesian
  has_cartesian_product e = any is_cartesian (find_all e NodeClass.join)

module _ (fl : Floats) where
  open fl use {Float, at_least, show_int}

  -- `if test: report._reject(…)`
  reject_if : Bool → String → String → CostReport Float → CostReport Float
  reject_if test code message r =
      if test
      then record r {
        allowed = false;
        risk_level = high;
        issues = r.issues ++ record { code = code; message = message; location = none } ∷ [];
      }
      else r

  with_estimate : PlanEstimate Float → CostReport Float → CostReport Float
  with_estimate unavailable r = r
  with_estimate (rows_only rows) r = record r { estimated_rows = some rows }
  with_estimate (rows_and_cost rows cost) r = record r {
    estimated_rows = some rows;
    estimated_cost = some cost;
  }

  module _ (config : SecurityPolicyConfig) (medium_threshold high_threshold : Float) where
    classify_risk : CostReport Float → Option Float → RiskLevel
    classify_risk r (some rows) =
        if at_least rows high_threshold
        then high
        else if at_least rows medium_threshold
        then medium
        else low
    classify_risk r none =
        if leb (max 1 (config.max_joins - 1)) r.join_count
          || leb (max 1 (config.max_subquery_depth - 1)) r.subquery_depth
        then medium
        else low

    unfoldable pub too_many_rows : Option Float → Bool
    too_many_rows none = false
    too_many_rows (some rows) = at_least rows high_threshold

    rows_text : Option Float → String
    rows_text none = ""
    rows_text (some rows) = show_int rows

    -- the final classification of a report that is still allowed
    finish : CostReport Float → CostReport Float
    unfolding classify_risk reject_if too_many_rows rows_text
    finish r =
        if r.allowed
        then reject_if (too_many_rows r.estimated_rows) "estimated_cost_too_high"
            ("Estimated result size (~"
              +s rows_text r.estimated_rows
              +s " rows) exceeds the configured maximum.")
            (record r { risk_level = classify_risk r r.estimated_rows })
        else r

    module _ (sg : SqlGlot) where
      open sg use {Expression, find_all}

      start_report : Expression → CostReport Float
      unfolding max_select_depth projected_column_count
      start_report e = record {
        allowed = true;
        risk_level = low;
        join_count = length (find_all e NodeClass.join);
        subquery_depth = max_select_depth sg e;
        selected_columns = projected_column_count sg e;
        estimated_rows = none;
        estimated_cost = none;
        issues = [];
      }

      check_limits : Expression → CostReport Float → CostReport Float
      check_limits e r =
          reject_if (has_cartesian_product sg e) "cartesian_product"
            "Query contains a cross join / Cartesian product without a join condition."
            (reject_if (ltb config.max_selected_columns r.selected_columns) "too_many_columns"
              ("Query projects "
                +s decimal r.selected_columns
                +s " columns; limit is "
                +s decimal config.max_selected_columns
                +s ".")
              (reject_if (ltb config.max_subquery_depth r.subquery_depth) "subquery_too_deep"
                ("Subquery nesting depth "
                  +s decimal r.subquery_depth
                  +s " exceeds limit "
                  +s decimal config.max_subquery_depth
                  +s ".")
                (reject_if (ltb config.max_joins r.join_count) "too_many_joins"
                  ("Query has "
                    +s decimal r.join_count
                    +s " joins; limit is "
                    +s decimal config.max_joins
                    +s ".")
                  r)))

      -- `analyze`, with what EXPLAIN would answer for the text if there is an engine
      pub analyze : Expression → SqlDialect → Option (PlanEstimate Float) → CostReport Float
      analyze e dialect engine =
          let limited = check_limits e (start_report e) in
          finish (elim engine [
            | none ↦ limited
            | some plan ↦ if is_postgres dialect then with_estimate plan limited else limited
          ])

-- Opens all that a run of the analysis computes with.
unfoldable pub cost_runs : Unit {0}
unfolding analyze finish classify_risk too_many_rows check_limits start_report reject_if
    with_estimate has_cartesian_product is_cartesian is_natural projected_column_count projected_of
    max_select_depth deepest count_selects rows_text
cost_runs = tt
