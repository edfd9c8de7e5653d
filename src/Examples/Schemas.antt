-- ===== src/Examples/Schemas.antt =====
-- The theorems on execution and on the catalog.
use build_your_own_text2sql.Base.{
  ℕ, ◌-◌, ◌≤◌, ◌≡◌, ◌⊎◌, refl, true, none, some, List, [], ◌∷◌, map, ltb, inl,
}
use build_your_own_text2sql.Base.Lists.{length, take, Member}
use build_your_own_text2sql.Domain.Enums.{DataClassification}
use build_your_own_text2sql.Domain.Tables.{ColumnInfo, TableInfo, DatabaseSchema, has_column}
use build_your_own_text2sql.Semantic.{SemanticLayer}
use build_your_own_text2sql.Execution.{DbValue, primitive, Driver, cursor, capped, to_jsonable}
use build_your_own_text2sql.Execution.Capped.{CursorLaws, capped-IsPrefix}
use build_your_own_text2sql.Schema.Cache.{SchemaCache}
use build_your_own_text2sql.Schema.Catalog.{
  SchemaColumnSummary, enrich, enrich_table, assigned_tenant, get_schema, refresh, summary,
  table_summary, column_summary, default_visibility,
}
use build_your_own_text2sql.Schema.Catalog.Fresh.{started, refreshed, get_schema-IsFresh}
use build_your_own_text2sql.Schema.Catalog.Enriched.{summary-IsVisible, enrich-tenant_column}
use build_your_own_text2sql.Examples.Sample.{column_of, shop, customers}

abbrev number_driver : Driver ℕ ℕ
number_driver = record {
  Cursor = List (List (DbValue ℕ ℕ));
  as_float = λ d. d;
  as_text = λ s. 0;
  run = λ statements. cursor ((primitive 1 ∷ []) ∷ (primitive 2 ∷ []) ∷ (primitive 3 ∷ []) ∷ []);
  keys = λ c. "n" ∷ [];
  fetchmany = λ c n. take n c;
}

abbrev number_laws : CursorLaws number_driver
number_laws = record { pending = λ c. c; fetches = λ c n. refl }

abbrev three_rows : List (List (DbValue ℕ ℕ))
three_rows = (primitive 1 ∷ []) ∷ (primitive 2 ∷ []) ∷ (primitive 3 ∷ []) ∷ []

capped-IsPrefix_example :
    ((capped number_driver three_rows 2).rows
      ≡ map (map (to_jsonable number_driver)) (take 2 three_rows))
    × ((capped number_driver three_rows 2).row_count
        ≡ length (capped number_driver three_rows 2).rows)
    × ((capped number_driver three_rows 2).row_count ≤ 2)
    × ((capped number_driver three_rows 2).truncated ≡ ltb 2 (length three_rows))
capped-IsPrefix_example = capped-IsPrefix number_driver number_laws three_rows 2

abbrev layer : SemanticLayer
layer = record {
  terms = [];
  metrics = [];
  column_annotations =
      record {
        table = "customers";
        column = "name";
        classification = DataClassification.pii;
        comment = none;
        sample_values = [];
      }
      ∷ [];
  table_annotations =
      record { table = "Customers"; comment = none; tenant_column = some "tenant_id"; aliases = [] }
      ∷ [];
  default_date_fields = [];
}

abbrev empty_cache : SchemaCache
empty_cache = record { ttl = 300; entry = none }

abbrev next_shop : DatabaseSchema
next_shop = record shop { version = "v2" }

get_schema-IsFresh_example :
    ((get_schema layer (refresh layer empty_cache 5 shop).cache 100 101 next_shop).schema
      ≡ enrich layer next_shop)
    ⊎ ((t : ℕ) × (r : DatabaseSchema) × Member {A = ℕ × DatabaseSchema} (t, r) ((5, shop) ∷ [])
        × ((get_schema layer (refresh layer empty_cache 5 shop).cache 100 101 next_shop).schema
            ≡ enrich layer r)
        × ((empty_cache.ttl ≡ 0) ⊎ (100 - t ≤ 300)))
get_schema-IsFresh_example =
    get_schema-IsFresh layer 300 ((5, shop) ∷ []) (refresh layer empty_cache 5 shop).cache 100 101
      next_shop (refreshed started 5 shop)

abbrev name_summary : SchemaColumnSummary
name_summary = column_summary (column_of "name" DataClassification.internal)

summary-IsVisible_example :
    (t : TableInfo) × (c : ColumnInfo) × Member t shop.tables
    × Member c t.columns
    × (table_summary default_visibility customers ≡ table_summary default_visibility t)
    × (name_summary ≡ column_summary c)
    × (default_visibility t.name c.name c.classification ≡ true)
unfolding summary table_summary
summary-IsVisible_example =
    summary-IsVisible shop default_visibility (table_summary default_visibility customers)
      name_summary (inl refl) (inl refl)

enrich-tenant_column_example : has_column (enrich_table layer customers) "tenant_id" ≡ true
unfolding enrich enrich_table assigned_tenant
enrich-tenant_column_example =
    enrich-tenant_column layer shop (enrich_table layer customers) "tenant_id" (inl refl) refl
