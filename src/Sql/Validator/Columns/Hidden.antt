-- ===== src/Sql/Validator/Columns/Hidden.antt =====
-- References that the loop over the columns of src/text_to_sql/sql/validator.py takes for aliases of
-- the select list.
use build_your_own_text2sql.Base.{
  Bool, true, false, ◌&&◌, ◌≡◌, refl, ◌∙◌, ap, List, [], ◌∷◌, arith, and-eq-true, if◌then◌else◌,
  not,
}
use build_your_own_text2sql.Base.Lists.{all}
use build_your_own_text2sql.Base.Text.{contains, lower, is_empty}
use build_your_own_text2sql.Domain.Tables.{DatabaseSchema}
use build_your_own_text2sql.Sqlglot.{SqlGlot}
use build_your_own_text2sql.Sql.Validator.Columns.{
  ColumnScan, Names, unnamed, qualifier, check_column, check_columns,
}

-- the three tests on the way to an alias
skipped :
    {A : Type 0} (named has_qualifier aliased : Bool) (s q u : A)
    → has_qualifier ≡ false
    → aliased ≡ true
    → (if named then s else if has_qualifier then q else if aliased then s else u) ≡ s
skipped n h a s q u e f = ground arith

module _ (sg : SqlGlot) (schema : DatabaseSchema) (names : Names) where
  open sg use {Expression, Node, name}

  -- without a qualifier, and with the name of an output alias
  abbrev pub is_hidden : Node → Bool
  is_hidden c = is_empty (lower (sg.table_of c)) && contains names.output (lower (name c))

  check_column-hidden :
      (c : Node) (s : ColumnScan Expression)
      → is_hidden c ≡ true
      → check_column sg schema names c s ≡ s
  unfolding check_column qualifier
  check_column-hidden c s h =
      let (bare, aliased) =
        and-eq-true (is_empty (lower (sg.table_of c))) (contains names.output (lower (name c))) h in
      skipped (unnamed sg schema names c) _ _ s _ _ (ap not bare) aliased

  -- The loop leaves the scan as it was.
  pub check_columns-hidden :
      (cs : List Node) (s : ColumnScan Expression)
      → all is_hidden cs ≡ true
      → check_columns sg schema names cs s ≡ s
  unfolding check_columns
  check_columns-hidden [] s h = refl
  check_columns-hidden (c ∷ cs) s h =
      let (first, rest) = and-eq-true (is_hidden c) (all is_hidden cs) h in
      ap (check_columns sg schema names cs) (check_column-hidden c s first)
      ∙ check_columns-hidden cs s rest
