-- ===== src/Security/Rewriter.antt =====
-- Tenant predicates: src/text_to_sql/security/rewriter.py. `isdigit` is exact on ASCII.
pub mod Scoped
use Prim.Native.Char.{Char, code}
use Prim.Native.String
use build_your_own_text2sql.Base.{
  String, Bool, true, false, not, ◌&&◌, ◌||◌, Option, none, some, List, [], ◌∷◌, leb, if◌then◌else◌,
}
use build_your_own_text2sql.Base.Text.{◌+s◌, is_empty}
use build_your_own_text2sql.Domain.Tables.{DatabaseSchema, TableInfo, table, truthy}
use build_your_own_text2sql.Sqlglot.{SqlGlot, NodeClass, Predicate, Literal}
use build_your_own_text2sql.Sql.Validator.Tables.{or_else}

all_digits : String → Bool
all_digits String.[] = true
all_digits (String.◌∷◌ c s) = leb 48 (code c) && leb (code c) 57 && all_digits s

unfoldable pub is_digit : String → Bool
unfolding all_digits
is_digit s = not (is_empty s) && all_digits s

-- `_build_predicate`
unfoldable pub build_predicate : String → String → String → Predicate
unfolding is_digit
build_predicate qualifier column tenant_id = record {
  qualifier = qualifier;
  column = column;
  value = if is_digit tenant_id then Literal.number tenant_id else Literal.text tenant_id;
}

-- `info.tenant_column`, where an empty name counts as none
unfoldable pub tenant_column_of : Option TableInfo → Option String
tenant_column_of none = none
tenant_column_of (some info) = if truthy info.tenant_column then info.tenant_column else none

module _ (sg : SqlGlot) where
  open sg use {Expression, Node, find_all, find_ancestor, name, alias, copy, append_where}

  -- (scope, table, tenant column)
  abbrev pub Target : Type 0
  Target = Node × Node × String

  pub target_of : Expression → DatabaseSchema → Node → Option Target
  target_of e schema t = elim (tenant_column_of (table schema (name t))) [
    | none ↦ none
    | some column ↦ elim (find_ancestor e t NodeClass.select) [
      | none ↦ none
      | some scope ↦ some (scope, t, column)
    ]
  ]

  pub targets : Expression → DatabaseSchema → List Node → List Target
  targets e schema [] = []
  targets e schema (t ∷ ts) = elim (target_of e schema t) [
    | none ↦ targets e schema ts
    | some target ↦ target ∷ targets e schema ts
  ]

  -- `table.alias or table.name`
  pub qualifier_of : Node → String
  qualifier_of t = or_else (alias t) (name t)

  pub apply_targets : Expression → String → List Target → Expression
  apply_targets e tenant_id [] = e
  apply_targets e tenant_id ((scope, t, column) ∷ rest) =
      apply_targets (append_where e scope (build_predicate (qualifier_of t) column tenant_id))
        tenant_id rest

  pub applied_texts : String → List Target → List String
  applied_texts tenant_id [] = []
  applied_texts tenant_id ((scope, t, column) ∷ rest) =
      (qualifier_of t +s "." +s column +s " = " +s tenant_id) ∷ applied_texts tenant_id rest

  -- `TenantRewriter.rewrite`
  pub rewrite : Expression → DatabaseSchema → String → Expression × List String
  rewrite expression schema tenant_id =
      let e = copy expression in
      let ts = targets e schema (find_all e NodeClass.table) in
      (apply_targets e tenant_id ts, applied_texts tenant_id ts)

-- Opens all that a run of the rewriter computes with.
unfoldable pub rewriter_runs : Unit {0}
unfolding rewrite targets target_of tenant_column_of apply_targets applied_texts qualifier_of
    or_else build_predicate table
rewriter_runs = tt
