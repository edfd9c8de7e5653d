-- ===== src/Sql/Validator/Statement/Known.antt =====
-- The columns of a statement as `_check_tables_and_columns` of src/text_to_sql/sql/validator.py
-- checks them, described by the table references of the statement.
use build_your_own_text2sql.Base.{
  ap, ◌||◌, if◌then◌else◌, String, Bool, true, not, ◌&&◌, ◌≡◌, refl, List, [], ◌∷◌, arith, ◌∙◌,
}
use build_your_own_text2sql.Base.Lists.{all, any}
use build_your_own_text2sql.Base.Text.{◌=s=◌, contains, lower, is_empty}
use build_your_own_text2sql.Domain.Tables.{DatabaseSchema, TableInfo, has_column}
use build_your_own_text2sql.Sqlglot.{SqlGlot, NodeClass}
use build_your_own_text2sql.Sql.Validator.Config.{SqlValidator}
use build_your_own_text2sql.Sql.Validator.Findings.{ValidationOutcome}
use build_your_own_text2sql.Sql.Validator.Tables.{check_tables-SameNames}
use build_your_own_text2sql.Sql.Validator.Columns.{
  Names, is_nil, candidates, found_tables, column_ok,
}
use build_your_own_text2sql.Sql.Validator.Columns.Known.{owns, column_ok-parts}
use build_your_own_text2sql.Sql.Validator.Tables.Scope.{
  is_real, goes_by, real_names, any-check_tables, real_tables-check_tables,
}
use build_your_own_text2sql.Sql.Validator.Statement.{
  output_aliases, virtual_aliases, scan_tables, names_of, new_outcome,
}

module _ (sg : SqlGlot) (iteration : List String → List String) (v : SqlValidator) where
  open sg use {Expression, Node, find_all, name, table_of}

  -- the names in scope of a statement, as the loop over the tables finds them
  pub statement_names : Expression → DatabaseSchema → Names
  statement_names e schema =
      names_of sg iteration v e schema
        (scan_tables sg iteration v e schema (new_outcome sg iteration v e))

  -- they do not depend on the outcome
  pub statement_names_lem :
      (e : Expression) (schema : DatabaseSchema) (o : ValidationOutcome Expression)
      → names_of sg iteration v e schema (scan_tables sg iteration v e schema o)
        ≡ statement_names e schema
  unfolding statement_names names_of scan_tables
  statement_names_lem e schema o =
      let same =
        check_tables-SameNames sg v schema (virtual_aliases sg iteration v e)
          (find_all e NodeClass.table)
          (record { outcome = o; alias_to_real = []; real_tables = [] })
          (record { outcome = new_outcome sg iteration v e; alias_to_real = []; real_tables = [] })
          (record { aliases = refl; tables = refl }) in
      rw same.aliases (rw same.tables refl)

  -- A table reference of the statement that denotes a catalog table and goes by the qualifier, and
  -- whose name passes the test.
  has_reference : Expression → DatabaseSchema → String → (String → Bool) → Bool
  unfolding virtual_aliases
  has_reference e schema qualifier g =
      any
        (λ t.
          is_real sg v schema (virtual_aliases sg iteration v e) t
          && goes_by sg v schema t qualifier
          && g (name t))
        (find_all e NodeClass.table)

  -- the catalog tables of the statement, by bare name
  referenced : Expression → DatabaseSchema → List TableInfo
  unfolding virtual_aliases real_names
  referenced e schema =
      found_tables iteration schema
        (real_names sg v schema (virtual_aliases sg iteration v e) (find_all e NodeClass.table))

  -- A column is in order when it has no name or is a star; or its qualifier is the alias of a common
  -- table expression or a derived table, or goes with no catalog table of the statement, or with one
  -- that has the column; or it has no qualifier and is the alias of an output, or the statement has
  -- no catalog table, or one that has the column.
  pub is_known : Expression → DatabaseSchema → Node → Bool
  unfolding has_reference referenced owns virtual_aliases output_aliases
  is_known e schema c =
      is_empty (name c)
      || (name c =s= "*")
      || (if not (is_empty (lower (table_of c)))
          then contains (virtual_aliases sg iteration v e) (lower (table_of c))
            || not (has_reference e schema (lower (table_of c)) (λ t. true))
            || has_reference e schema (lower (table_of c)) (owns schema (name c))
          else contains (output_aliases sg iteration v e) (lower (name c))
            || is_nil (referenced e schema)
            || any (λ t. has_column t (name c)) (referenced e schema))

  has_reference-names :
      (e : Expression) (schema : DatabaseSchema) (q : String) (g : String → Bool)
      → any g (candidates (statement_names e schema) q) ≡ has_reference e schema q g
  unfolding statement_names names_of scan_tables candidates has_reference
  has_reference-names e schema q g =
      any-check_tables sg v schema g (virtual_aliases sg iteration v e) (find_all e NodeClass.table)
        _ q

  infos-names :
      (e : Expression) (schema : DatabaseSchema)
      → (statement_names e schema).infos ≡ referenced e schema
  unfolding statement_names names_of scan_tables referenced
  infos-names e schema = ap (found_tables iteration schema) (
      real_tables-check_tables sg v schema (virtual_aliases sg iteration v e)
        (find_all e NodeClass.table) _)

  column_ok-is_known :
      (e : Expression) (schema : DatabaseSchema) (c : Node)
      → column_ok sg schema (statement_names e schema) c ≡ is_known e schema c
  unfolding is_known statement_names names_of
  column_ok-is_known e schema c =
      column_ok-parts sg schema (statement_names e schema) c
      ∙ rw (has_reference-names e schema (lower (table_of c)) (λ t. true)) (
          rw (has_reference-names e schema (lower (table_of c)) (owns schema (name c)))
            (rw (infos-names e schema) refl))

  all-same : (p q : Node → Bool) (xs : List Node) → ((x : Node) → p x ≡ q x) → all p xs ≡ all q xs
  all-same p q [] h = refl
  all-same p q (x ∷ xs) h = ground (arith, h x, all-same p q xs h)

  pub columns-is_known :
      (e : Expression) (schema : DatabaseSchema)
      → all (column_ok sg schema (statement_names e schema)) (find_all e NodeClass.column)
        ≡ all (is_known e schema) (find_all e NodeClass.column)
  columns-is_known e schema =
      all-same (column_ok sg schema (statement_names e schema)) (is_known e schema)
        (find_all e NodeClass.column) (column_ok-is_known e schema)
