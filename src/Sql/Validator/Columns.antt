-- ===== src/Sql/Validator/Columns.antt =====
-- The columns of a statement against the catalog: the second loop of `_check_tables_and_columns` of
-- src/text_to_sql/sql/validator.py. `resolved` is the set of columns that the policy will see.
pub mod Recorded
pub mod Hidden
pub mod Known
use build_your_own_text2sql.Base.{
  String, Bool, true, false, not, ◌&&◌, ◌||◌, ◌≡◌, refl, Option, none, some, List, [], ◌∷◌, arith,
  Bool-cases, if-holds, inl, inr, if◌then◌else◌, map,
}
use build_your_own_text2sql.Base.Lists.{all, filter}
use build_your_own_text2sql.Base.Text.{
  ◌=s=◌, ◌+s◌, contains, lower, is_empty, sorted, join, after_last_dot, dedupe,
}
use build_your_own_text2sql.Base.Dict.{get}
use build_your_own_text2sql.Base.Dict
use build_your_own_text2sql.Domain.Tables.{DatabaseSchema, TableInfo, table, has_column}
use build_your_own_text2sql.Sqlglot.{SqlGlot}
use build_your_own_text2sql.Sql.Parser.{present}
use build_your_own_text2sql.Sql.Validator.Findings.{ValidationOutcome, add, is_valid-add, IsClosed}

-- The state of the loop over the columns.
pub record ColumnScan (E : Type 0) : Type 0 where
  pub outcome : ValidationOutcome E
  pub resolved : List String

-- What the loop reads: the aliases of common table expressions and derived tables, those of the
-- select list, the tables that an alias may denote, and the tables found.
pub record Names : Type 0 where
  pub virtual : List String
  pub output : List String
  pub alias_to_real : List (String × List String)
  pub infos : List TableInfo

-- `f"{info.name}.{col_name}"`
abbrev pub column_ref : String → TableInfo → String
column_ref col info = info.name +s "." +s col

-- `for info in owners: resolved.add(…)`
unfoldable pub record_owners : String → List TableInfo → List String → List String
unfolding Dict.add
record_owners col [] resolved = resolved
record_owners col (t ∷ ts) resolved = record_owners col ts (Dict.add resolved (column_ref col t))

abbrev pub is_nil {ℓ} : {A : Type ℓ} → List A → Bool
is_nil [] = true
is_nil (x ∷ xs) = false

-- `candidates = alias_to_real.get(qualifier)`, where an absent and an empty set are alike
unfoldable pub candidates : Names → String → List String
unfolding get
candidates names qualifier = elim (get names.alias_to_real qualifier) [ none ↦ [] | some ts ↦ ts ]

-- the tables named that define the column
unfoldable pub owners_among : DatabaseSchema → String → List String → List TableInfo
unfolding present has_column table
owners_among schema col ts = filter (λ t. has_column t col) (present (map (table schema) ts))

-- the first table of the list of texts, `sorted(candidates)[0]`
abbrev first_text : List String → String
first_text [] = ""
first_text (s ∷ ss) = s

-- the tables found, by bare name: `iteration` is the order in which Python walks the set
unfoldable pub found_tables :
    (List String → List String) → DatabaseSchema → List String → List TableInfo
unfolding present after_last_dot dedupe table
found_tables iteration schema real_tables =
    present (map (table schema) (iteration (dedupe (map after_last_dot real_tables))))

module _ (sg : SqlGlot) (schema : DatabaseSchema) (names : Names) where
  open sg use {Expression, Node, name, table_of}

  unknown_column : String → String → ColumnScan Expression → ColumnScan Expression
  unfolding add
  unknown_column message location s = record s {
    outcome = add s.outcome "unknown_column" message (some ("column: " +s location));
  }

  -- a qualifier that is no known alias is left alone
  check_qualified : String → List String → ColumnScan Expression → ColumnScan Expression
  unfolding unknown_column owners_among record_owners sorted join
  check_qualified col [] s = s
  check_qualified col (t ∷ ts) s =
      let cands = sorted (t ∷ ts) in
      let owners = owners_among schema col cands in
      if is_nil owners
      then unknown_column ("Unknown column '" +s col +s "' on table '" +s join "', '" cands +s "'.")
          (first_text cands +s "." +s col) s
      else record s { resolved = record_owners col owners s.resolved }

  -- the first of the owners alone is recorded
  check_unqualified : String → List TableInfo → ColumnScan Expression → ColumnScan Expression
  unfolding unknown_column Dict.add
  check_unqualified col [] s =
      if is_nil names.infos
      then s
      else unknown_column ("Unknown column '" +s col +s "' (not found on any referenced table).")
          col s
  check_unqualified col (t ∷ ts) s = record s { resolved = Dict.add s.resolved (column_ref col t) }

  unnamed : Node → Bool
  unnamed c = is_empty (name c) || (name c =s= "*")

  qualifier : Node → String
  unfolding lower
  qualifier c = lower (table_of c)

  -- the body of the loop
  pub check_column : Node → ColumnScan Expression → ColumnScan Expression
  unfolding check_qualified check_unqualified unnamed qualifier candidates has_column
  check_column c s =
      if unnamed c
      then s
      else if not (is_empty (qualifier c))
      then (if contains names.virtual (qualifier c)
          then s
          else check_qualified (name c) (candidates names (qualifier c)) s)
      else if contains names.output (lower (name c))
      then s
      else check_unqualified (name c) (filter (λ t. has_column t (name c)) names.infos) s

  unfoldable pub check_columns : List Node → ColumnScan Expression → ColumnScan Expression
  unfolding check_column
  check_columns [] s = s
  check_columns (c ∷ cs) s = check_columns cs (check_column c s)

  -- What the checks ask of one column reference: no name, a virtual qualifier, an unknown
  -- qualifier, a select-list alias, an owner among the candidates, or an owner among the tables.
  unfoldable pub column_ok : Node → Bool
  unfolding unnamed qualifier candidates owners_among sorted has_column
  column_ok c =
      unnamed c
      || (if not (is_empty (qualifier c))
          then contains names.virtual (qualifier c)
            || is_nil (candidates names (qualifier c))
            || not (is_nil (owners_among schema (name c) (sorted (candidates names (qualifier c)))))
          else contains names.output (lower (name c))
            || is_nil names.infos
            || not (is_nil (filter (λ t. has_column t (name c)) names.infos)))

  is_valid-check_qualified :
      (col : String) (ts : List String) (s : ColumnScan Expression)
      → (check_qualified col ts s).outcome.is_valid
        ≡ (s.outcome.is_valid && (is_nil ts || not (is_nil (owners_among schema col (sorted ts)))))
  unfolding check_qualified unknown_column
  is_valid-check_qualified col [] s = ground arith
  is_valid-check_qualified col (t ∷ ts) s =
      elim (Bool-cases (is_nil (owners_among schema col (sorted (t ∷ ts))))) [
        | inl lacking ↦ rw lacking (rw is_valid-add (ground arith))
        | inr owned ↦ rw owned (ground arith)
      ]

  is_valid-check_unqualified :
      (col : String) (owners : List TableInfo) (s : ColumnScan Expression)
      → (check_unqualified col owners s).outcome.is_valid
        ≡ (s.outcome.is_valid && (is_nil names.infos || not (is_nil owners)))
  unfolding check_unqualified unknown_column
  is_valid-check_unqualified col [] s = elim (Bool-cases (is_nil names.infos)) [
    | inl nothing ↦ rw nothing (ground arith)
    | inr some_table ↦ rw some_table (rw is_valid-add (ground arith))
  ]
  is_valid-check_unqualified col (t ∷ ts) s = ground arith

  is_valid-check_column :
      (c : Node) (s : ColumnScan Expression)
      → (check_column c s).outcome.is_valid ≡ (s.outcome.is_valid && column_ok c)
  unfolding check_column column_ok
  is_valid-check_column c s = ground (
    arith,
    is_valid-check_qualified (name c) (candidates names (qualifier c)) s,
    is_valid-check_unqualified (name c) (filter (λ t. has_column t (name c)) names.infos) s,
  )

  pub is_valid-check_columns :
      (cs : List Node) (s : ColumnScan Expression)
      → (check_columns cs s).outcome.is_valid ≡ (s.outcome.is_valid && all column_ok cs)
  unfolding check_columns
  is_valid-check_columns [] s = ground arith
  is_valid-check_columns (c ∷ cs) s =
      simp (is_valid-check_columns cs, is_valid-check_column) (ground arith)

  module _ (P : ValidationOutcome Expression → Type 0) (closed : IsClosed P) where
    check_qualified-keeps :
        (col : String) (ts : List String) (s : ColumnScan Expression)
        → P s.outcome
        → P (check_qualified col ts s).outcome
    unfolding check_qualified unknown_column
    check_qualified-keeps col [] s h = h
    check_qualified-keeps col (t ∷ ts) s h =
        if-holds (λ (r : ColumnScan Expression). P r.outcome)
          (is_nil (owners_among schema col (sorted (t ∷ ts)))) (closed s.outcome _ _ _ h) h

    check_unqualified-keeps :
        (col : String) (owners : List TableInfo) (s : ColumnScan Expression)
        → P s.outcome
        → P (check_unqualified col owners s).outcome
    unfolding check_unqualified unknown_column
    check_unqualified-keeps col [] s h =
        if-holds (λ (r : ColumnScan Expression). P r.outcome) (is_nil names.infos) h
          (closed s.outcome _ _ _ h)
    check_unqualified-keeps col (t ∷ ts) s h = h

    check_column-keeps :
        (c : Node) (s : ColumnScan Expression) → P s.outcome → P (check_column c s).outcome
    unfolding check_column
    check_column-keeps c s h =
        let Good = λ (r : ColumnScan Expression). P r.outcome in
        if-holds Good (unnamed c) h (
          if-holds Good (not (is_empty (qualifier c)))
            (if-holds Good (contains names.virtual (qualifier c)) h
              (check_qualified-keeps (name c) (candidates names (qualifier c)) s h))
            (if-holds Good (contains names.output (lower (name c))) h
              (check_unqualified-keeps (name c) _ s h)))

    pub check_columns-keeps :
        (cs : List Node) (s : ColumnScan Expression) → P s.outcome → P (check_columns cs s).outcome
    unfolding check_columns
    check_columns-keeps [] s h = h
    check_columns-keeps (c ∷ cs) s h =
        check_columns-keeps cs (check_column c s) (check_column-keeps c s h)
