-- ===== src/Examples/Sample.antt =====
-- A library of flat SELECT statements that stands in for SQLGlot, and a sample schema.
use build_your_own_text2sql.Base.{
  ℕ, String, Bool, true, false, Option, none, some, List, [], ◌∷◌, ◌++◌, map, leb, if◌then◌else◌,
}
use build_your_own_text2sql.Base.Lists.{filter}
use build_your_own_text2sql.Base.Text.{◌=s=◌, ◌+s◌, join, decimal}
use build_your_own_text2sql.Domain.Enums.{SqlDialect, DataClassification}
use build_your_own_text2sql.Domain.Models.{AuthContext}
use build_your_own_text2sql.Domain.Tables.{ColumnInfo, TableInfo, DatabaseSchema}
use build_your_own_text2sql.Sqlglot.{SqlGlot, NodeClass, failed, parsed, Predicate, Literal}
use build_your_own_text2sql.Sql.Validator.Config.{SqlValidator}
use build_your_own_text2sql.Security.Cost.{Floats, unavailable}
use build_your_own_text2sql.Security.Policy.{SecurityPolicyConfig}
use build_your_own_text2sql.Application.Platform.{Platform}

pub data FlatNode : Type 0 where
  select_node : FlatNode
  table_node column_node : String → String → FlatNode
  limit_node literal_node : ℕ → FlatNode
  alias_node : String → FlatNode

-- tables with their aliases, columns with their qualifiers, the aliases of the select list, the
-- conjuncts of each WHERE, the limit
pub record Flat : Type 0 where
  pub tables : List (String × String)
  pub columns : List (String × String)
  pub output : List String
  pub filters : List (FlatNode × Predicate)
  pub limit : Option ℕ

abbrev pub is_class : FlatNode → NodeClass → Bool
is_class select_node NodeClass.select = true
is_class (table_node n a) NodeClass.table = true
is_class (column_node n q) NodeClass.column = true
is_class (limit_node n) NodeClass.limit = true
is_class (literal_node n) NodeClass.literal = true
is_class (alias_node a) NodeClass.alias = true
is_class _ _ = false

abbrev pub flat_walk : Flat → List FlatNode
flat_walk e =
    select_node ∷ map (λ t. table_node t.0 t.1) e.tables
    ++ map (λ c. column_node c.0 c.1) e.columns
    ++ map alias_node e.output

abbrev flat_name : FlatNode → String
flat_name (table_node n a) = n
flat_name (column_node n q) = n
flat_name _ = ""

abbrev flat_alias : FlatNode → String
flat_alias (table_node n a) = a
flat_alias (alias_node a) = a
flat_alias _ = ""

abbrev flat_table_of : FlatNode → String
flat_table_of (column_node n q) = q
flat_table_of _ = ""

abbrev flat_int : FlatNode → ℕ
flat_int (literal_node n) = n
flat_int _ = 0

abbrev flat_inner : FlatNode → Option FlatNode
flat_inner (limit_node n) = some (literal_node n)
flat_inner _ = none

abbrev flat_is_int : FlatNode → Bool
flat_is_int (literal_node n) = true
flat_is_int _ = false

abbrev flat_limit : Option ℕ → Option FlatNode
flat_limit none = none
flat_limit (some n) = some (limit_node n)

abbrev flat_ancestor : FlatNode → NodeClass → Option FlatNode
flat_ancestor select_node c = none
flat_ancestor n NodeClass.select = some select_node
flat_ancestor n c = none

abbrev literal_text : Literal → String
literal_text (Literal.number s) = s
literal_text (Literal.text s) = "'" +s s +s "'"

abbrev flat_filters : List (FlatNode × Predicate) → String
flat_filters [] = ""
flat_filters ((n, p) ∷ ps) =
    " WHERE " +s p.qualifier +s "." +s p.column +s " = " +s literal_text p.value

abbrev limit_text : Option ℕ → String
limit_text none = ""
limit_text (some n) = " LIMIT " +s decimal n

abbrev pub names_query : Flat
names_query = record {
  tables = ("customers", "c") ∷ [];
  columns = ("name", "c") ∷ [];
  output = [];
  filters = [];
  limit = none;
}

abbrev pub secrets_query : Flat
secrets_query = record names_query { columns = ("password_hash", "c") ∷ [] }

-- `SELECT password_hash AS password_hash FROM customers AS c`
abbrev pub renamed_query : Flat
renamed_query = record names_query {
  columns = ("password_hash", "") ∷ [];
  output = "password_hash" ∷ [];
}

abbrev pub renamed_sql : String
renamed_sql = "SELECT password_hash AS password_hash FROM customers AS c"

abbrev pub names_sql : String
names_sql = "SELECT c.name FROM customers AS c"

-- SQLGlot drops a comment of the text
abbrev pub marked_sql : String
marked_sql = "SELECT c.name FROM customers AS c -- all of them"

abbrev pub secrets_sql : String
secrets_sql = "SELECT c.password_hash FROM customers AS c"

abbrev pub flat_library : SqlGlot
flat_library = record {
  Expression = Flat;
  Node = FlatNode;
  parse = λ sql dialect.
      if sql =s= names_sql
      then parsed (some names_query ∷ [])
      else if sql =s= secrets_sql
      then parsed (some secrets_query ∷ [])
      else if sql =s= marked_sql
      then parsed (some names_query ∷ [])
      else if sql =s= renamed_sql
      then parsed (some renamed_query ∷ [])
      else failed "unexpected token";
  root = λ e. select_node;
  is_instance = is_class;
  walk = flat_walk;
  find_all = λ e c. filter (λ n. is_class n c) (flat_walk e);
  find_ancestor = λ e n c. flat_ancestor n c;
  parents = λ e n. select_node ∷ [];
  name = flat_name;
  alias = flat_alias;
  db = λ n. "";
  catalog = λ n. "";
  table_of = flat_table_of;
  this_text = flat_name;
  sql_name = λ n. none;
  type_name = λ n. "Node";
  has_comments = λ n. false;
  kind = λ n. "";
  side = λ n. "";
  has_on = λ n. false;
  has_using = λ n. false;
  count_expressions = λ n. 1;
  limit_arg = λ e. flat_limit e.limit;
  inner_expression = flat_inner;
  is_int = flat_is_int;
  int_value = flat_int;
  copy = λ e. e;
  with_limit = λ e n. record e { limit = some n };
  append_where = λ e n p. record e { filters = e.filters ++ (n, p) ∷ [] };
  render = λ e dialect pretty.
      "SELECT "
      +s join ", " (map (λ c. c.1 +s "." +s c.0) e.columns)
      +s " FROM "
      +s join ", " (map (λ t. t.0 +s " AS " +s t.1) e.tables)
      +s flat_filters e.filters
      +s limit_text e.limit;
}

abbrev pub column_of : String → DataClassification → ColumnInfo
column_of name classification = record {
  name = name;
  data_type = "TEXT";
  nullable = false;
  is_primary_key = false;
  comment = none;
  classification = classification;
  sample_values = [];
}

abbrev pub table_of_columns : String → List ColumnInfo → TableInfo
table_of_columns name columns = record {
  name = name;
  schema_name = none;
  kind = "table";
  comment = none;
  columns = columns;
  primary_key = [];
  foreign_keys = [];
  unique_constraints = [];
  indexes = [];
  row_estimate = none;
  tenant_column = some "tenant_id";
}

abbrev pub customers : TableInfo
customers = table_of_columns "customers" (
    column_of "name" DataClassification.internal
    ∷ column_of "tenant_id" DataClassification.internal
    ∷ column_of "password_hash" DataClassification.auth_secret
    ∷ [])

abbrev pub orders : TableInfo
orders = table_of_columns "orders" (
    column_of "name" DataClassification.internal
    ∷ column_of "tenant_id" DataClassification.internal
    ∷ [])

abbrev pub shop : DatabaseSchema
shop = record { dialect = SqlDialect.sqlite; tables = customers ∷ orders ∷ []; version = "v1" }

abbrev pub viewer : AuthContext
viewer = record { user_id = "u1"; tenant_id = "42"; roles = "viewer" ∷ [] }

abbrev pub policy_config : SecurityPolicyConfig
policy_config = record {
  tenant_column = "tenant_id";
  max_rows = 100;
  max_joins = 4;
  max_subquery_depth = 3;
  max_selected_columns = 10;
  allowed_schemas = [];
  allowed_tables = none;
  denied_tables = "orders" ∷ [];
  function_denylist = [];
}

abbrev pub plain_validator : SqlValidator
plain_validator = record { denylist = "sleep" ∷ []; allow_cross_db = false; allowed_schemas = [] }

abbrev pub whole_numbers : Floats
whole_numbers = record { Float = ℕ; at_least = λ a b. leb b a; show_int = decimal }

abbrev pub platform : Platform
platform = record {
  sqlglot = flat_library;
  floats = whole_numbers;
  iteration = λ xs. xs;
  validator = plain_validator;
  security = policy_config;
  medium_threshold = 1000;
  high_threshold = 100000;
  explain = λ sql. unavailable;
}
