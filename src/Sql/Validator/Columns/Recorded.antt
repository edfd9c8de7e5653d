-- ===== src/Sql/Validator/Columns/Recorded.antt =====
-- Which columns the loop records for the policy: src/text_to_sql/sql/validator.py.
use build_your_own_text2sql.Base.{String, true, false, ◌≡◌}
use build_your_own_text2sql.Base.Text.{◌=s=◌, contains, lower, is_empty}
use build_your_own_text2sql.Domain.Tables.{DatabaseSchema}
use build_your_own_text2sql.Sqlglot.{SqlGlot}
use build_your_own_text2sql.Sql.Validator.Columns.{ColumnScan, Names}

module _ (sg : SqlGlot) (schema : DatabaseSchema) (names : Names) where
  open sg use {Expression, Node, name}

  module _ (r : String) where
    Holds : ColumnScan Expression → Type 0
    Holds s = contains s.resolved r ≡ true

  -- A column with a qualifier that denotes tables of the catalog.
  pub record IsQualified (c : Node) : Type 0 where
    pub named : is_empty (name c) ≡ false
    pub not_star : (name c =s= "*") ≡ false
    pub has_qualifier : is_empty (lower (sg.table_of c)) ≡ false
    pub real : contains names.virtual (lower (sg.table_of c)) ≡ false
