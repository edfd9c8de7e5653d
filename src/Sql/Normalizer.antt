-- ===== src/Sql/Normalizer.antt =====
-- Normalization and the row limit: src/text_to_sql/sql/normalizer.py. `transpile_sql` only calls SQLGlot
-- and is not modelled.
pub mod Bounded
use build_your_own_text2sql.Base.{
  ℕ, ◌<◌, ◌≤◌, ◌≡◌, refl, String, Bool, true, false, ◌&&◌, ◌||◌, Option, none, some, ltb,
  if◌then◌else◌,
}
use build_your_own_text2sql.Domain.Enums.{SqlDialect}
use build_your_own_text2sql.Sqlglot.{SqlGlot, NodeClass}

pub record LimitOutcome (E : Type 0) : Type 0 where
  pub expression : E
  pub applied : Bool
  pub capped : Bool
  pub effective_limit : ℕ

-- `10**12`, the value of a limit that is no integer literal
abbrev pub unknown_limit : ℕ
unknown_limit = 1000000000000

module _ (sg : SqlGlot) where
  open sg use {
    Expression, Node, root, is_instance, limit_arg, inner_expression, is_int, int_value, copy,
    with_limit, render,
  }

  unfoldable pub normalize_sql : Expression → SqlDialect → Bool → String
  normalize_sql = render

  literal_value : Option Node → Option ℕ
  literal_value none = none
  literal_value (some inner) =
      if is_instance inner NodeClass.literal && is_int inner
      then some (int_value inner)
      else some unknown_limit

  -- `_limit_value`
  unfoldable pub limit_value : Option Node → Option ℕ
  unfolding literal_value
  limit_value none = none
  limit_value (some n) =
      literal_value (if is_instance n NodeClass.limit then inner_expression n else some n)

  unfoldable pub is_query : Expression → Bool
  is_query e =
      is_instance (root e) NodeClass.select
      || is_instance (root e) NodeClass.union
      || is_instance (root e) NodeClass.subquery
      || is_instance (root e) NodeClass.intersect
      || is_instance (root e) NodeClass.except

  with_max : Expression → ℕ → Option ℕ → LimitOutcome Expression
  with_max e max_rows none = record {
    expression = with_limit e max_rows;
    applied = true;
    capped = false;
    effective_limit = max_rows;
  }
  with_max e max_rows (some current) =
      if ltb max_rows current
      then record {
        expression = with_limit e max_rows;
        applied = false;
        capped = true;
        effective_limit = max_rows;
      }
      else record { expression = e; applied = false; capped = false; effective_limit = current }

  unfoldable pub enforce_limit : Expression → ℕ → LimitOutcome Expression
  unfolding is_query with_max limit_value
  enforce_limit e max_rows =
      let expr = copy e in
      if is_query expr
      then with_max expr max_rows (limit_value (limit_arg expr))
      else record { expression = expr; applied = false; capped = false; effective_limit = max_rows }
