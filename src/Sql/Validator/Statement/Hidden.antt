-- ===== src/Sql/Validator/Statement/Hidden.antt =====
-- A statement whose columns all bear the name of an output alias: src/text_to_sql/sql/validator.py.
use build_your_own_text2sql.Base.{Bool, true, ◌&&◌, ◌≡◌, ◌∙◌, ap, String, List, [], arith}
use build_your_own_text2sql.Base.Lists.{all}
use build_your_own_text2sql.Base.Text.{contains, lower, is_empty, sorted}
use build_your_own_text2sql.Domain.Tables.{DatabaseSchema}
use build_your_own_text2sql.Domain.Models.{AuthContext}
use build_your_own_text2sql.Sqlglot.{SqlGlot, NodeClass}
use build_your_own_text2sql.Sql.Validator.Config.{SqlValidator}
use build_your_own_text2sql.Sql.Validator.Columns.Hidden.{check_columns-hidden}
use build_your_own_text2sql.Sql.Validator.Statement.{
  output_aliases, names_of, check_tables_and_columns, check_expression, validate_expression,
}
use build_your_own_text2sql.Security.Policy.{
  SecurityPolicyConfig, enforce, table_allowed, allowed-enforce,
}

and_true : (b : Bool) → (b && true) ≡ b
and_true b = ground arith

module _ (sg : SqlGlot) (iteration : List String → List String) (v : SqlValidator) where
  open sg use {Expression, find_all, name}

  referenced_columns-hidden :
      (e : Expression) (schema : DatabaseSchema)
      → all
          (λ c.
            is_empty (lower (sg.table_of c))
            && contains (output_aliases sg iteration v e) (lower (name c)))
          (find_all e NodeClass.column)
        ≡ true
      → (validate_expression sg iteration v e schema).referenced_columns ≡ []
  unfolding validate_expression check_expression check_tables_and_columns names_of sorted
  referenced_columns-hidden e schema h =
      ap (λ c. sorted c.resolved)
        (check_columns-hidden sg schema _ (find_all e NodeClass.column) _ h)

  -- When each column of a statement is without a qualifier and bears the name of an output alias, the
  -- validator reports no column at all, and the policy, whatever the caller's roles, decides on the
  -- tables alone.
  pub enforce-hidden :
      (e : Expression) (schema : DatabaseSchema) (config : SecurityPolicyConfig)
      (auth : AuthContext)
      → all
          (λ c.
            is_empty (lower (sg.table_of c))
            && contains (output_aliases sg iteration v e) (lower (name c)))
          (find_all e NodeClass.column)
        ≡ true
      → ((validate_expression sg iteration v e schema).referenced_columns ≡ [])
        × ((enforce config
              (validate_expression sg iteration v e schema).referenced_tables
              (validate_expression sg iteration v e schema).referenced_columns
              schema
              auth).allowed
            ≡ all
                (table_allowed config)
                (validate_expression sg iteration v e schema).referenced_tables)
  enforce-hidden e schema config auth h =
      let tables = (validate_expression sg iteration v e schema).referenced_tables in
      let none_left = referenced_columns-hidden e schema h in
      (
        none_left,
        ap (λ cs. (enforce config tables cs schema auth).allowed) none_left
            ∙ allowed-enforce config tables [] schema auth
            ∙ and_true (all (table_allowed config) tables),
      )
