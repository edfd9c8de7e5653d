-- ===== src/Sql/Validator/Statement/Verdict.antt =====
-- What `validate_expression` of src/text_to_sql/sql/validator.py accepts, apart from how it reports.
use build_your_own_text2sql.Base.{
  String, Bool, true, false, not, ◌&&◌, ◌≡◌, ◌↔◌, refl, Option, none, some, List, arith, ◌∙◌, sym,
  is_some,
}
use build_your_own_text2sql.Base.Lists.{all, any}
use build_your_own_text2sql.Domain.Enums.{is_read_only}
use build_your_own_text2sql.Domain.Tables.{DatabaseSchema}
use build_your_own_text2sql.Sqlglot.{SqlGlot, NodeClass}
use build_your_own_text2sql.Sql.Parser.{classify_statement}
use build_your_own_text2sql.Sql.Validator.Config.{SqlValidator}
use build_your_own_text2sql.Sql.Validator.Findings.{
  ValidationOutcome, is_valid-add, is_valid-report_if, IsClosed, report_if-keeps,
}
use build_your_own_text2sql.Sql.Validator.Functions.{
  functions_ok, is_valid-check_functions, check_functions-keeps,
}
use build_your_own_text2sql.Sql.Validator.Tables.{
  table_ok, is_valid-check_tables, check_tables-keeps,
}
use build_your_own_text2sql.Sql.Validator.Columns.{is_valid-check_columns, check_columns-keeps}
use build_your_own_text2sql.Sql.Validator.Statement.Known.{
  statement_names_lem, is_known, columns-is_known,
}
use build_your_own_text2sql.Sql.Validator.Statement.{
  is_some-find, is_forbidden, bare_star, report_forbidden, check_structure, virtual_aliases,
  scan_tables, names_of, check_tables_and_columns, check_expression, new_outcome,
  validate_expression,
}

regroup : (a b c d e : Bool) → (a && not (not b) && c && d && e) ≡ (a && (b && c && d && e))
regroup a b c d e = ground arith

all_seven :
    (a b c d f t k : Bool)
    → (a && not b && not c && not d && f && (t && k)) ≡ true
    → (a ≡ true) × (b ≡ false) × (c ≡ false) × (d ≡ false) × (f ≡ true) × (t ≡ true) × (k ≡ true)
all_seven a b c d f t k h = ground arith

four_and : (a b c d : Bool) → (a && b && c && d) ≡ true → (a ≡ true) × ((b && c && d) ≡ true)
four_and a b c d h = ground arith

and_assoc : (a b c : Bool) → (a && (b && c)) ≡ (a && b && c)
and_assoc a b c = ground arith

module _ (sg : SqlGlot) (iteration : List String → List String) (v : SqlValidator) where
  open sg use {Expression, Node, walk, find_all, has_comments, name, table_of}

  -- The conditions on an accepted statement.
  pub record IsAccepted (e : Expression) (schema : DatabaseSchema) : Type 0 where
    pub read_only : is_read_only (classify_statement sg e) ≡ true
    pub no_forbidden : any (is_forbidden sg iteration v) (walk e) ≡ false
    pub no_comments : any has_comments (walk e) ≡ false
    pub no_bare_star : any (bare_star sg iteration v e) (find_all e NodeClass.star) ≡ false
    pub functions : functions_ok sg v e ≡ true
    pub tables :
        all (table_ok sg v schema (virtual_aliases sg iteration v e)) (find_all e NodeClass.table)
        ≡ true
    pub columns : all (is_known sg iteration v e schema) (find_all e NodeClass.column) ≡ true

  is_valid-report_forbidden :
      (n : Option Node) (o : ValidationOutcome Expression)
      → (report_forbidden sg iteration v n o).is_valid ≡ (o.is_valid && not (is_some n))
  unfolding report_forbidden
  is_valid-report_forbidden none o = ground arith
  is_valid-report_forbidden (some n) o = rw is_valid-add (ground arith)

  structure_ok : Expression → Bool
  structure_ok e =
      is_read_only (classify_statement sg e)
      && not (any (is_forbidden sg iteration v) (walk e))
      && not (any has_comments (walk e))
      && not (any (bare_star sg iteration v e) (find_all e NodeClass.star))

  is_valid-check_structure :
      (e : Expression) (o : ValidationOutcome Expression)
      → (check_structure sg iteration v e o).is_valid ≡ (o.is_valid && structure_ok e)
  unfolding check_structure structure_ok
  is_valid-check_structure e o =
      simp (is_valid-report_if, is_valid-report_forbidden, is_some-find)
        (regroup o.is_valid (is_read_only (classify_statement sg e))
          (not (any (is_forbidden sg iteration v) (walk e))) (not (any has_comments (walk e)))
          (not (any (bare_star sg iteration v e) (find_all e NodeClass.star))))

  catalog_ok : Expression → DatabaseSchema → Bool
  catalog_ok e schema =
      all (table_ok sg v schema (virtual_aliases sg iteration v e)) (find_all e NodeClass.table)
      && all (is_known sg iteration v e schema) (find_all e NodeClass.column)

  is_valid-check_tables_and_columns :
      (e : Expression) (schema : DatabaseSchema) (o : ValidationOutcome Expression)
      → (check_tables_and_columns sg iteration v e schema o).is_valid
        ≡ (o.is_valid && catalog_ok e schema)
  unfolding check_tables_and_columns catalog_ok scan_tables
  is_valid-check_tables_and_columns e schema o =
      is_valid-check_columns sg schema
        (names_of sg iteration v e schema (scan_tables sg iteration v e schema o))
        (find_all e NodeClass.column) _
      ∙ rw (statement_names_lem sg iteration v e schema o) (
          rw (columns-is_known sg iteration v e schema) (
            rw
              (is_valid-check_tables sg v schema (virtual_aliases sg iteration v e)
                (find_all e NodeClass.table) _)
              (sym (
                and_assoc o.is_valid
                  (all (table_ok sg v schema (virtual_aliases sg iteration v e))
                    (find_all e NodeClass.table))
                  (all (is_known sg iteration v e schema) (find_all e NodeClass.column))))))

  is_valid-check_expression :
      (e : Expression) (schema : DatabaseSchema) (o : ValidationOutcome Expression)
      → (check_expression sg iteration v e schema o).is_valid
        ≡ (o.is_valid && structure_ok e && functions_ok sg v e && catalog_ok e schema)
  unfolding check_expression
  is_valid-check_expression e schema o =
      rw (is_valid-check_tables_and_columns e schema _)
        (rw (is_valid-check_functions sg v e _) (rw (is_valid-check_structure e o) refl))

  ok_iff :
      (e : Expression) (schema : DatabaseSchema)
      → ((structure_ok e && functions_ok sg v e && catalog_ok e schema) ≡ true)
        ↔ IsAccepted e schema
  unfolding structure_ok catalog_ok
  ok_iff e schema =
      let to =
        all_seven (is_read_only (classify_statement sg e))
          (any (is_forbidden sg iteration v) (walk e)) (any has_comments (walk e))
          (any (bare_star sg iteration v e) (find_all e NodeClass.star)) (functions_ok sg v e)
          (all (table_ok sg v schema (virtual_aliases sg iteration v e))
            (find_all e NodeClass.table))
          (all (is_known sg iteration v e schema) (find_all e NodeClass.column)) in
      (
        λ h.
            let (r, f, c, b, d, t, k) = to h in
            record {
              read_only = r;
              no_forbidden = f;
              no_comments = c;
              no_bare_star = b;
              functions = d;
              tables = t;
              columns = k;
            },
        λ h.
            rw
              (
                h.read_only, h.no_forbidden, h.no_comments, h.no_bare_star, h.functions, h.tables,
                h.columns,
              )
              refl,
      )

  -- A valid outcome comes of a valid one, and of an accepted statement.
  pub check_expression-IsAccepted :
      (e : Expression) (schema : DatabaseSchema) (o : ValidationOutcome Expression)
      → (check_expression sg iteration v e schema o).is_valid ≡ true
      → (o.is_valid ≡ true) × IsAccepted e schema
  check_expression-IsAccepted e schema o h =
      let (before, ok) =
        four_and o.is_valid (structure_ok e) (functions_ok sg v e) (catalog_ok e schema)
          (sym (is_valid-check_expression e schema o) ∙ h) in
      (before, (ok_iff e schema).0 ok)

  pub is_valid-validate_expression_iff :
      (e : Expression) (schema : DatabaseSchema)
      → ((validate_expression sg iteration v e schema).is_valid ≡ true) ↔ IsAccepted e schema
  unfolding validate_expression new_outcome
  is_valid-validate_expression_iff e schema =
      rw (is_valid-check_expression e schema (new_outcome sg iteration v e)) (ok_iff e schema)

  module _ (P : ValidationOutcome Expression → Type 0) (closed : IsClosed P) where
    report_forbidden-keeps :
        (n : Option Node) (o : ValidationOutcome Expression)
        → P o
        → P (report_forbidden sg iteration v n o)
    unfolding report_forbidden
    report_forbidden-keeps none o h = h
    report_forbidden-keeps (some n) o h = closed o _ _ _ h

    check_structure-keeps :
        (e : Expression) (o : ValidationOutcome Expression)
        → P (record o { statement_type = classify_statement sg e })
        → P (check_structure sg iteration v e o)
    unfolding check_structure
    check_structure-keeps e o h = report_if-keeps P closed _ _ _ _ _ (
        report_if-keeps P closed _ _ _ _ _
          (report_forbidden-keeps _ _ (report_if-keeps P closed _ _ _ _ _ h)))

    -- The steps after the first keep a predicate that does not depend on the tables and columns,
    -- which the last step writes.
    pub after_structure-keeps :
        ((o : ValidationOutcome Expression) (ts : List String)
          → P o
          → P (record o { referenced_tables = ts }))
        → ((o : ValidationOutcome Expression) (cs : List String)
            → P o
            → P (record o { referenced_columns = cs }))
        → (e : Expression) (schema : DatabaseSchema) (o : ValidationOutcome Expression)
        → P (check_structure sg iteration v e o)
        → P (check_expression sg iteration v e schema o)
    unfolding check_expression check_tables_and_columns scan_tables
    after_structure-keeps set_tables set_columns e schema o h = set_columns _ _ (
        check_columns-keeps sg schema _ P closed (find_all e NodeClass.column) _ (
          set_tables _ _ (
            check_tables-keeps sg v schema P closed (virtual_aliases sg iteration v e)
              (find_all e NodeClass.table) _ (check_functions-keeps sg v P closed e _ h))))

    pub check_expression-keeps :
        ((o : ValidationOutcome Expression) (ts : List String)
          → P o
          → P (record o { referenced_tables = ts }))
        → ((o : ValidationOutcome Expression) (cs : List String)
            → P o
            → P (record o { referenced_columns = cs }))
        → (e : Expression) (schema : DatabaseSchema) (o : ValidationOutcome Expression)
        → P (record o { statement_type = classify_statement sg e })
        → P (check_expression sg iteration v e schema o)
    check_expression-keeps set_tables set_columns e schema o h =
        after_structure-keeps set_tables set_columns e schema o (check_structure-keeps e o h)
