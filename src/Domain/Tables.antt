-- ===== src/Domain/Tables.antt =====
-- The normalized schema: src/text_to_sql/domain/schema_models.py. The module is named for the tables
-- that it holds; `frozen` models are records.
use Prim.Native.Char.{code}
use build_your_own_text2sql.Base.{
  ℕ, String, Bool, true, ◌||◌, Option, none, some, List, [], ◌∷◌, map, ◌==◌, is_some, if◌then◌else◌,
}
use build_your_own_text2sql.Base.Lists.{find, filter}
use build_your_own_text2sql.Base.Text.{◌=s=◌, ◌+s◌, contains, lower, strip, strip_by}
use build_your_own_text2sql.Base.Dict.{get, put, set_default, add}
use build_your_own_text2sql.Domain.Enums.{SqlDialect, DataClassification}

-- `identifier.strip().strip('"').lower()`
unfoldable pub norm : String → String
unfolding lower strip strip_by
norm identifier = lower (strip_by (λ c. code c == b'"') (strip identifier))

pub record ForeignKeyRef : Type 0 where
  pub columns : List String
  pub referred_table : String
  pub referred_columns : List String
  pub referred_schema : Option String

pub record ColumnInfo : Type 0 where
  pub name : String
  pub data_type : String
  pub nullable : Bool
  pub is_primary_key : Bool
  pub comment : Option String
  pub classification : DataClassification
  pub sample_values : List String

unfoldable pub column_key : ColumnInfo → String
unfolding norm
column_key c = norm c.name

pub record TableInfo : Type 0 where
  pub name : String
  pub schema_name : Option String
  pub kind : String
  pub comment : Option String
  pub columns : List ColumnInfo
  pub primary_key : List String
  pub foreign_keys : List ForeignKeyRef
  pub unique_constraints : List (List String)
  pub indexes : List String
  pub row_estimate : Option ℕ
  pub tenant_column : Option String

-- `if x:` on an optional text: neither `None` nor empty
abbrev pub truthy : Option String → Bool
truthy none = Bool.false
truthy (some s) = if s =s= "" then Bool.false else true

unfoldable pub qualified_name : TableInfo → String
qualified_name t = elim t.schema_name [
  | none ↦ t.name
  | some s ↦ if s =s= "" then t.name else s +s "." +s t.name
]

unfoldable pub table_key : TableInfo → String
unfolding norm qualified_name
table_key t = norm (qualified_name t)

-- `TableInfo.column`: the first column with the same normalized name
unfoldable pub column : TableInfo → String → Option ColumnInfo
unfolding norm column_key
column t name = find (λ c. column_key c =s= norm name) t.columns

unfoldable pub has_column : TableInfo → String → Bool
unfolding column
has_column t name = is_some (column t name)

pub record DatabaseSchema : Type 0 where
  pub dialect : SqlDialect
  pub tables : List TableInfo
  pub version : String

-- `_index`: a table's key overwrites, its bare name does not
unfoldable pub index_from : List (String × TableInfo) → List TableInfo → List (String × TableInfo)
unfolding put set_default table_key norm
index_from idx [] = idx
index_from idx (t ∷ ts) = index_from (set_default (put idx (table_key t) t) (norm t.name) t) ts

unfoldable pub table_index : DatabaseSchema → List (String × TableInfo)
unfolding index_from
table_index s = index_from [] s.tables

-- `DatabaseSchema.table`
unfoldable pub table : DatabaseSchema → String → Option TableInfo
unfolding table_index get norm
table s name = get (table_index s) (norm name)

unfoldable pub has_table : DatabaseSchema → String → Bool
unfolding table
has_table s name = is_some (table s name)

unfoldable pub subset : DatabaseSchema → List String → DatabaseSchema
unfolding norm table_key
subset s names =
    let wanted = map norm names in
    record s {
      tables =
          filter (λ t. contains wanted (table_key t) || contains wanted (norm t.name)) s.tables;
    }

-- `graph[a].add(b)` on a `defaultdict(set)`
abbrev Graph : Type 0
Graph = List (String × List String)

unfoldable pub adjacent : List (String × List String) → String → List String
unfolding get
adjacent g a = elim (get g a) [ none ↦ [] | some bs ↦ bs ]

link : Graph → String → String → Graph
unfolding adjacent put add
link g a b = put g a (add (adjacent g a) b)

link_keys : List (String × TableInfo) → TableInfo → Graph → List ForeignKeyRef → Graph
unfolding link get norm table_key
link_keys idx t g [] = g
link_keys idx t g (fk ∷ fks) =
    link_keys idx t
      (elim (get idx (norm fk.referred_table)) [
        | none ↦ g
        | some referred ↦
            link (link g (table_key t) (table_key referred)) (table_key referred) (table_key t)
      ])
      fks

link_tables : List (String × TableInfo) → Graph → List TableInfo → Graph
unfolding link_keys
link_tables idx g [] = g
link_tables idx g (t ∷ ts) = link_tables idx (link_keys idx t g t.foreign_keys) ts

unfoldable pub join_graph : DatabaseSchema → List (String × List String)
unfolding link_tables table_index
join_graph s = link_tables (table_index s) [] s.tables
