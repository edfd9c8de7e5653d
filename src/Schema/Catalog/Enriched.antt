-- ===== src/Schema/Catalog/Enriched.antt =====
-- What enrichment and summaries keep: `_enrich` and `summary` of src/text_to_sql/schema/catalog.py.
use build_your_own_text2sql.Base.{
  ◌≡◌, refl, sym, ap, ◌∙◌, inl, inr, String, Bool, true, false, not, ◌&&◌, Option, none, some, List,
  [], ◌∷◌, map, and-eq-true, Bool-cases, Option-cases, is_some, if◌then◌else◌,
}
use mathlib.Core.Path.{subst}
use build_your_own_text2sql.Base.Lists.{Member, filter, find}
use build_your_own_text2sql.Base.Text.{◌=s=◌}
use build_your_own_text2sql.Domain.Enums.{DataClassification}
use build_your_own_text2sql.Domain.Tables.{
  ColumnInfo, TableInfo, DatabaseSchema, norm, column_key, column, has_column,
}
use build_your_own_text2sql.Semantic.{
  SemanticLayer, TableAnnotation, column_annotation, table_annotation,
}
use build_your_own_text2sql.Schema.Catalog.{
  SchemaColumnSummary, SchemaTableSummary, enrich_column, enrich_table, enrich, existing_tenant,
  assigned_tenant, column_summary, table_summary, summary,
}

-- a member of a filtered list satisfies the test
Member-filter :
    {A : Type 0} (p : A → Bool) (xs : List A) (x : A)
    → Member x (filter p xs)
    → Member x xs × (p x ≡ true)
Member-filter p [] x m = absurd m
Member-filter p (y ∷ ys) x m = elim (Bool-cases (p y)) [
  | inl keep ↦ elim (subst (λ b. Member x (if b then y ∷ filter p ys else filter p ys)) keep m) [
    | inl e ↦ (inl e, ap p e ∙ keep)
    | inr k ↦ (inr (Member-filter p ys x k).0, (Member-filter p ys x k).1)
  ]
  | inr skip ↦
      let k = subst (λ b. Member x (if b then y ∷ filter p ys else filter p ys)) skip m in
      (inr (Member-filter p ys x k).0, (Member-filter p ys x k).1)
]

-- a member of a mapped list is the image of a member
map-Member :
    {A B : Type 0} (f : A → B) (xs : List A) (y : B)
    → Member y (map f xs)
    → (x : A) × Member x xs × (y ≡ f x)
map-Member f [] y m = absurd m
map-Member f (x ∷ xs) y (inl e) = (x, inl refl, e)
map-Member f (x ∷ xs) y (inr m) = let (a, k, e) = map-Member f xs y m in (a, inr k, e)

-- Every column that a summary shows is a column of the schema, in the table it is shown under, and
-- the visibility that the caller gave permits it.
pub summary-IsVisible :
    (schema : DatabaseSchema) (view : String → String → DataClassification → Bool)
    (t : SchemaTableSummary) (c : SchemaColumnSummary)
    → Member t (summary schema (some view)).tables
    → Member c t.columns
    → (table : TableInfo) × (column : ColumnInfo) × Member table schema.tables
      × Member column table.columns
      × (t ≡ table_summary view table)
      × (c ≡ column_summary column)
      × (view table.name column.name column.classification ≡ true)
unfolding summary table_summary
summary-IsVisible schema view t c m n =
    let (table, in_schema, is_table) = map-Member (table_summary view) schema.tables t m in
    let shown = subst (λ u. Member c u.columns) is_table n in
    let (column, kept, is_column) =
      map-Member column_summary
        (filter (λ d. view table.name d.name d.classification) table.columns) c shown in
    let (in_table, seen) =
      Member-filter (λ d. view table.name d.name d.classification) table.columns column kept in
    (table, column, in_schema, in_table, is_table, is_column, seen)

enrich_column-name :
    (s : SemanticLayer) (t : TableInfo) (c : ColumnInfo) → (enrich_column s t c).name ≡ c.name
unfolding enrich_column
enrich_column-name s t c = elim (Option-cases (column_annotation s t.name c.name)) [
  | inl e ↦ rw (e, enrich_column) refl
  | inr (ann, e) ↦ rw (e, enrich_column) refl
]

is_some_if :
    {A : Type 0} (b : Bool) (x y : A) (o p : Option A)
    → is_some o ≡ is_some p
    → is_some (if b then some x else o) ≡ is_some (if b then some y else p)
is_some_if true x y o p e = refl
is_some_if false x y o p e = e

-- enrichment keeps the names, so a search by name finds as before
enriched-find :
    (s : SemanticLayer) (t : TableInfo) (key : String) (cs : List ColumnInfo)
    → is_some (find (λ c. norm c.name =s= key) (map (enrich_column s t) cs))
      ≡ is_some (find (λ c. norm c.name =s= key) cs)
enriched-find s t key [] = refl
enriched-find s t key (c ∷ cs) =
    ap
      (λ n. is_some (
        if norm n =s= key
        then some (enrich_column s t c)
        else find (λ d. norm d.name =s= key) (map (enrich_column s t) cs)))
      (enrich_column-name s t c)
    ∙ is_some_if (norm c.name =s= key) _ _ _ _ (enriched-find s t key cs)

if_some :
    {A : Type 0} (b : Bool) (x y : A) → (if b then some x else none) ≡ some y → (b ≡ true) × (x ≡ y)
if_some true x y e = (refl, cc)
if_some false x y e = cc

existing_tenant-has_column :
    (t : TableInfo) (o : Option String) (name : String)
    → existing_tenant t o ≡ some name
    → has_column t name ≡ true
unfolding existing_tenant
existing_tenant-has_column t none name e = cc
existing_tenant-has_column t (some given) name e =
    let (both, same) = if_some (not (given =s= "") && has_column t given) given name e in
    ap (has_column t) (sym same) ∙ (and-eq-true (not (given =s= "")) (has_column t given) both).1

assigned_tenant-has_column :
    (t : TableInfo) (ann : Option TableAnnotation) (name : String)
    → assigned_tenant t ann ≡ some name
    → has_column t name ≡ true
unfolding assigned_tenant
assigned_tenant-has_column t none name e = cc
assigned_tenant-has_column t (some ann) name e =
    existing_tenant-has_column t ann.tenant_column name e

-- A table of an enriched schema has a tenant column only if it has that column.
pub enrich-tenant_column :
    (s : SemanticLayer) (raw : DatabaseSchema) (t : TableInfo) (name : String)
    → Member t (enrich s raw).tables
    → t.tenant_column ≡ some name
    → has_column t name ≡ true
unfolding enrich enrich_table has_column column column_key
enrich-tenant_column s raw t name m e =
    let (u, in_raw, is_enriched) = map-Member (enrich_table s) raw.tables t m in
    let assigned = ap (λ v. v.tenant_column) (sym is_enriched) ∙ e in
    ap (λ v. has_column v name) is_enriched
    ∙ enriched-find s u (norm name) u.columns
    ∙ assigned_tenant-has_column u (table_annotation s u.name) name assigned
