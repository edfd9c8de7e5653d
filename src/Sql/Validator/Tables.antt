-- ===== src/Sql/Validator/Tables.antt =====
-- The tables of a statement against the catalog: the first loop of `_check_tables_and_columns` of
-- src/text_to_sql/sql/validator.py.
pub mod Scope
use build_your_own_text2sql.Base.{
  String, Bool, true, false, not, ◌&&◌, ◌||◌, ◌≡◌, Option, none, some, List, [], ◌∷◌, ◌++◌, arith,
  Bool-cases, if-holds, inl, inr, if◌then◌else◌, is_some,
}
use build_your_own_text2sql.Base.Lists.{any, all}
use build_your_own_text2sql.Base.Text.{◌+s◌, contains, lower, starts_with, is_empty}
use build_your_own_text2sql.Base.Dict.{get, put, set_default}
use build_your_own_text2sql.Base.Dict
use build_your_own_text2sql.Domain.Tables.{DatabaseSchema, TableInfo, table, qualified_name}
use build_your_own_text2sql.Sqlglot.{SqlGlot}
use build_your_own_text2sql.Sql.Validator.Config.{
  SqlValidator, system_schemas, system_table_prefixes,
}
use build_your_own_text2sql.Sql.Validator.Findings.{
  ValidationOutcome, add, report_if, is_valid-add, is_valid-report_if, IsClosed, report_if-keeps,
}

-- the lower-cased aliases that are not empty, as a set
unfoldable pub alias_set : List String → List String → List String
unfolding lower Dict.add
alias_set acc [] = acc
alias_set acc (a ∷ as') = alias_set (if is_empty a then acc else Dict.add acc (lower a)) as'

-- `alias_to_real.setdefault(alias, set()).add(name)`
unfoldable pub add_alias :
    List (String × List String) → String → String → List (String × List String)
unfolding get put Dict.add
add_alias m alias name = elim (get m alias) [
  | none ↦ put m alias (name ∷ [])
  | some names ↦ put m alias (Dict.add names name)
]

-- The state of the loop over the tables.
pub record TableScan (E : Type 0) : Type 0 where
  pub outcome : ValidationOutcome E
  pub alias_to_real : List (String × List String)
  pub real_tables : List String

unfoldable pub or_else : String → String → String
or_else a b = if is_empty a then b else a

module _ (sg : SqlGlot) (v : SqlValidator) (schema : DatabaseSchema) where
  open sg use {Expression, Node, find_all, name, alias, db, catalog}

  system_schema : Node → Bool
  system_schema t = not (is_empty (db t)) && contains system_schemas (lower (db t))

  system_table : Node → Bool
  system_table t = any (λ p. starts_with (lower (name t)) p) system_table_prefixes

  cross_database : Node → Bool
  cross_database t = not (is_empty (catalog t)) && not v.allow_cross_db

  schema_refused : Node → Bool
  schema_refused t =
      not (elim v.allowed_schemas [ [] ↦ true | x ∷ xs ↦ false ])
      && not (is_empty (db t))
      && not (contains v.allowed_schemas (lower (db t)))
      && not (contains system_schemas (lower (db t)))

  -- the four reports that precede the look-up
  report_table : Node → ValidationOutcome Expression → ValidationOutcome Expression
  report_table t o =
      let qualified = db t +s "." +s name t in
      report_if (schema_refused t) "schema_not_allowed"
        ("Schema '" +s db t +s "' is not in the allowed set.") (some ("table: " +s qualified))
        (report_if (system_table t) "system_catalog_access"
          ("Access to system table '" +s name t +s "' is not allowed.") (some ("table: " +s name t))
          (report_if (system_schema t) "system_catalog_access"
            ("Access to system schema '" +s db t +s "' is not allowed.")
            (some ("table: " +s qualified))
            (report_if (cross_database t) "cross_database_access"
              ("Cross-database reference '" +s catalog t +s "." +s qualified +s "' is not allowed.")
              (some ("table: " +s name t)) o)))

  resolve_table : Node → Option TableInfo → TableScan Expression → TableScan Expression
  unfolding add_alias or_else
  resolve_table t none s = record s {
    outcome =
        add s.outcome "unknown_table" ("Unknown table '" +s name t +s "'.")
          (some ("table: " +s name t));
  }
  resolve_table t (some info) s = record s {
    alias_to_real =
        add_alias (add_alias s.alias_to_real (lower (or_else (alias t) (name t))) (name t))
          (lower (name t)) (name t);
    real_tables = s.real_tables ++ qualified_name info ∷ [];
  }

  pub skipped : List String → Node → Bool
  skipped virtual t = is_empty (name t) || contains virtual (lower (name t))

  -- the body of the loop
  check_table : List String → Node → TableScan Expression → TableScan Expression
  unfolding report_table resolve_table skipped system_schema system_table cross_database
      schema_refused
  check_table virtual t s =
      if skipped virtual t
      then s
      else resolve_table t (table schema (name t)) (record s { outcome = report_table t s.outcome })

  unfoldable pub check_tables :
      List String → List Node → TableScan Expression → TableScan Expression
  unfolding check_table
  check_tables virtual [] s = s
  check_tables virtual (t ∷ ts) s = check_tables virtual ts (check_table virtual t s)

  -- What the checks ask of one table reference, apart from the way they report it.
  unfoldable pub table_ok : List String → Node → Bool
  unfolding system_schema system_table cross_database schema_refused skipped
  table_ok virtual t =
      skipped virtual t
      || (not (cross_database t)
          && not (system_schema t)
          && not (system_table t)
          && not (schema_refused t)
          && is_some (table schema (name t)))

  is_valid-report_table :
      (t : Node) (o : ValidationOutcome Expression)
      → (report_table t o).is_valid ≡ (
          o.is_valid
          && not (cross_database t)
          && not (system_schema t)
          && not (system_table t)
          && not (schema_refused t))
  unfolding report_table
  is_valid-report_table t o = simp is_valid-report_if

  is_valid-resolve_table :
      (t : Node) (info : Option TableInfo) (s : TableScan Expression)
      → (resolve_table t info s).outcome.is_valid ≡ (s.outcome.is_valid && is_some info)
  unfolding resolve_table
  is_valid-resolve_table t none s = rw is_valid-add (ground arith)
  is_valid-resolve_table t (some info) s = ground arith

  is_valid-check_table :
      (virtual : List String) (t : Node) (s : TableScan Expression)
      → (check_table virtual t s).outcome.is_valid ≡ (s.outcome.is_valid && table_ok virtual t)
  unfolding check_table table_ok
  is_valid-check_table virtual t s = elim (Bool-cases (skipped virtual t)) [
    | inl skip ↦ rw skip (ground arith)
    | inr keep ↦ rw keep (simp (is_valid-resolve_table, is_valid-report_table) (ground arith))
  ]

  pub is_valid-check_tables :
      (virtual : List String) (ts : List Node) (s : TableScan Expression)
      → (check_tables virtual ts s).outcome.is_valid
        ≡ (s.outcome.is_valid && all (table_ok virtual) ts)
  unfolding check_tables
  is_valid-check_tables virtual [] s = ground arith
  is_valid-check_tables virtual (t ∷ ts) s =
      simp (is_valid-check_tables virtual ts, is_valid-check_table) (ground arith)

  module _ (P : ValidationOutcome Expression → Type 0) (closed : IsClosed P) where
    report_table-keeps : (t : Node) (o : ValidationOutcome Expression) → P o → P (report_table t o)
    unfolding report_table
    report_table-keeps t o h = report_if-keeps P closed _ _ _ _ _ (
        report_if-keeps P closed _ _ _ _ _
          (report_if-keeps P closed _ _ _ _ _ (report_if-keeps P closed _ _ _ _ o h)))

    resolve_table-keeps :
        (t : Node) (info : Option TableInfo) (s : TableScan Expression)
        → P s.outcome
        → P (resolve_table t info s).outcome
    unfolding resolve_table
    resolve_table-keeps t none s h = closed s.outcome _ _ _ h
    resolve_table-keeps t (some info) s h = h

    check_table-keeps :
        (virtual : List String) (t : Node) (s : TableScan Expression)
        → P s.outcome
        → P (check_table virtual t s).outcome
    unfolding check_table
    check_table-keeps virtual t s h =
        if-holds (λ (r : TableScan Expression). P r.outcome) (skipped virtual t) h
          (resolve_table-keeps t (table schema (name t)) _ (report_table-keeps t s.outcome h))

    pub check_tables-keeps :
        (virtual : List String) (ts : List Node) (s : TableScan Expression)
        → P s.outcome
        → P (check_tables virtual ts s).outcome
    unfolding check_tables
    check_tables-keeps virtual [] s h = h
    check_tables-keeps virtual (t ∷ ts) s h =
        check_tables-keeps virtual ts (check_table virtual t s) (check_table-keeps virtual t s h)

  -- The aliases and the tables found do not depend on the outcome.
  pub record SameNames (s r : TableScan Expression) : Type 0 where
    pub aliases : s.alias_to_real ≡ r.alias_to_real
    pub tables : s.real_tables ≡ r.real_tables

  resolve_table-SameNames :
      (t : Node) (info : Option TableInfo) (s r : TableScan Expression)
      → SameNames s r
      → SameNames (resolve_table t info s) (resolve_table t info r)
  unfolding resolve_table
  resolve_table-SameNames t none s r h = record { aliases = h.aliases; tables = h.tables }
  resolve_table-SameNames t (some info) s r h = record {
    aliases = rw h.aliases;
    tables = rw h.tables;
  }

  check_table-SameNames :
      (virtual : List String) (t : Node) (s r : TableScan Expression)
      → SameNames s r
      → SameNames (check_table virtual t s) (check_table virtual t r)
  unfolding check_table
  check_table-SameNames virtual t s r h = elim (Bool-cases (skipped virtual t)) [
    | inl skip ↦ rw skip h
    | inr keep ↦ rw keep (
        resolve_table-SameNames t (table schema (name t)) _ _
          (record { aliases = h.aliases; tables = h.tables }))
  ]

  pub check_tables-SameNames :
      (virtual : List String) (ts : List Node) (s r : TableScan Expression)
      → SameNames s r
      → SameNames (check_tables virtual ts s) (check_tables virtual ts r)
  unfolding check_tables
  check_tables-SameNames virtual [] s r h = h
  check_tables-SameNames virtual (t ∷ ts) s r h =
      check_tables-SameNames virtual ts _ _ (check_table-SameNames virtual t s r h)
