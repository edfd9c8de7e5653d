-- ===== src/Schema/Catalog.antt =====
-- The catalog: src/text_to_sql/schema/catalog.py. What the introspector reads of the database at the
-- moment of a call is an argument of that call.
pub mod Fresh
pub mod Enriched
use build_your_own_text2sql.Base.{
  ℕ, String, Bool, true, false, not, ◌&&◌, ◌||◌, Option, none, some, List, [], ◌∷◌, ◌++◌, map,
  if◌then◌else◌,
}
use build_your_own_text2sql.Base.Lists.{filter}
use build_your_own_text2sql.Base.Text.{◌=s=◌}
use build_your_own_text2sql.Domain.Enums.{
  SqlDialect, DataClassification, auth_secret, highly_restricted, classification_value,
  is_sensitive,
}
use build_your_own_text2sql.Domain.Tables.{
  ColumnInfo, TableInfo, DatabaseSchema, truthy, has_column, qualified_name,
}
use build_your_own_text2sql.Semantic.{
  SemanticLayer, ColumnAnnotation, TableAnnotation, column_annotation, table_annotation,
}
use build_your_own_text2sql.Schema.Cache.{
  SchemaCache, cache_get, cache_set, invalidate, current_version,
}

-- `a or b` on optional texts
abbrev pub or_text : Option String → Option String → Option String
or_text a b = if truthy a then a else b

unfoldable pub enrich_column : SemanticLayer → TableInfo → ColumnInfo → ColumnInfo
unfolding column_annotation
enrich_column s t c = elim (column_annotation s t.name c.name) [
  | none ↦ c
  | some ann ↦ record c {
    classification = ann.classification;
    comment = or_text ann.comment c.comment;
    sample_values = ann.sample_values;
  }
]

-- a tenant column of an annotation, where the table has that column
unfoldable pub existing_tenant : TableInfo → Option String → Option String
unfolding has_column
existing_tenant t none = none
existing_tenant t (some name) = if not (name =s= "") && has_column t name then some name else none

unfoldable pub assigned_tenant : TableInfo → Option TableAnnotation → Option String
unfolding existing_tenant
assigned_tenant t none = none
assigned_tenant t (some ann) = existing_tenant t ann.tenant_column

annotated_comment : Option TableAnnotation → Option String
annotated_comment none = none
annotated_comment (some ann) = ann.comment

unfoldable pub enrich_table : SemanticLayer → TableInfo → TableInfo
unfolding table_annotation enrich_column annotated_comment
enrich_table s t =
    let ann = table_annotation s t.name in
    record t {
      columns = map (enrich_column s t) t.columns;
      tenant_column = assigned_tenant t ann;
      comment = or_text (annotated_comment ann) t.comment;
    }

-- `_enrich`
unfoldable pub enrich : SemanticLayer → DatabaseSchema → DatabaseSchema
unfolding enrich_table enrich_column annotated_comment
enrich s raw = record raw { tables = map (enrich_table s) raw.tables }

-- The result of `get_schema`: the schema, the cache and the counters with their label.
pub record Served : Type 0 where
  pub schema : DatabaseSchema
  pub cache : SchemaCache
  pub counters : List (String × String)

-- `previous_version is not None and previous_version != enriched.version`
drift : Option String → String → List (String × String)
drift none version = []
drift (some previous) version = if previous =s= version then [] else ("schema_drift_total", "") ∷ []

-- a miss: introspection and enrichment, stored at the time `stored`
unfoldable pub reload : SemanticLayer → SchemaCache → ℕ → DatabaseSchema → Served
unfolding cache_set current_version drift
reload s c stored raw =
    let enriched = enrich s raw in
    record {
      schema = enriched;
      cache = cache_set c stored enriched;
      counters = ("schema_cache_total", "miss") ∷ drift (current_version c) enriched.version;
    }

-- what follows a look into the cache: a hit, or a miss
unfoldable pub serve :
    SemanticLayer → Option DatabaseSchema × SchemaCache → ℕ → DatabaseSchema → Served
serve s looked stored raw = elim looked.0 [
  | some cached ↦ record {
    schema = cached;
    cache = looked.1;
    counters = ("schema_cache_total", "hit") ∷ [];
  }
  | none ↦ reload s looked.1 stored raw
]

-- `get_schema()` at the time `now`
unfoldable pub get_schema : SemanticLayer → SchemaCache → ℕ → ℕ → DatabaseSchema → Served
unfolding cache_get
get_schema s c now stored raw = serve s (cache_get c now) stored raw

-- `refresh`: `get_schema(force_refresh=True)` on the emptied cache
unfoldable pub refresh : SemanticLayer → SchemaCache → ℕ → DatabaseSchema → Served
unfolding invalidate
refresh s c stored raw = reload s (invalidate c) stored raw

pub record SchemaColumnSummary : Type 0 where
  pub name : String
  pub data_type : String
  pub nullable : Bool
  pub is_primary_key : Bool
  pub classification : String
  pub sensitive : Bool

pub record SchemaTableSummary : Type 0 where
  pub name : String
  pub kind : String
  pub comment : Option String
  pub columns : List SchemaColumnSummary

pub record SchemaSummaryResponse : Type 0 where
  pub dialect : SqlDialect
  pub version : String
  pub tables : List SchemaTableSummary

unfoldable pub column_summary : ColumnInfo → SchemaColumnSummary
unfolding classification_value is_sensitive
column_summary c = record {
  name = c.name;
  data_type = c.data_type;
  nullable = c.nullable;
  is_primary_key = c.is_primary_key;
  classification = classification_value c.classification;
  sensitive = is_sensitive c.classification;
}

-- `_default_visibility`
abbrev pub default_visibility : String → String → DataClassification → Bool
default_visibility _ _ auth_secret = false
default_visibility _ _ highly_restricted = false
default_visibility _ _ _ = true

unfoldable pub table_summary :
    (String → String → DataClassification → Bool) → TableInfo → SchemaTableSummary
unfolding qualified_name
table_summary visible t = record {
  name = qualified_name t;
  kind = t.kind;
  comment = t.comment;
  columns = map column_summary (filter (λ c. visible t.name c.name c.classification) t.columns);
}

-- `summary`, with the default visibility when none is given
unfoldable pub summary :
    DatabaseSchema → Option (String → String → DataClassification → Bool) → SchemaSummaryResponse
summary schema visible =
    let view : String → String → DataClassification → Bool = elim visible [
      | none ↦ default_visibility
      | some v ↦ v
    ] in
    record {
      dialect = schema.dialect;
      version = schema.version;
      tables = map (table_summary view) schema.tables;
    }
