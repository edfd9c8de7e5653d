-- ===== src/Schema/Catalog/Fresh.antt =====
-- What the catalog serves over a run of calls: `get_schema` and `refresh` of
-- src/text_to_sql/schema/catalog.py on the cache of src/text_to_sql/schema/cache.py.
use build_your_own_text2sql.Base.{
  ℕ, ◌-◌, ◌≤◌, ◌≡◌, refl, sym, ap, ◌∙◌, ◌⊎◌, inl, inr, Bool, false, Option, none, some, List, [],
  ◌∷◌, arith, Bool-cases, if◌then◌else◌,
}
use mathlib.Core.Path.{subst}
use build_your_own_text2sql.Base.Lists.{Member}
use build_your_own_text2sql.Domain.Tables.{DatabaseSchema}
use build_your_own_text2sql.Semantic.{SemanticLayer}
use build_your_own_text2sql.Schema.Cache.{
  Entry, SchemaCache, expired, cache_get, cache_set, invalidate,
}
use build_your_own_text2sql.Schema.Catalog.{enrich, reload, serve, get_schema, refresh}

-- the entry is kept only within its lifetime
not_expired :
    (ttl now : ℕ) (e : Entry)
    → expired ttl now e ≡ false
    → (ttl ≡ 0) ⊎ (now - e.stored_monotonic ≤ ttl)
not_expired ttl now e h = ground arith

-- a look into the cache: nothing, and an empty slot, or the live entry, and the cache as it was
cache_get-cases :
    (ttl now : ℕ) (o : Option Entry)
    → (cache_get (record { ttl = ttl; entry = o }) now ≡ (none, record { ttl = ttl; entry = none }))
      ⊎ ((e : Entry) × (o ≡ some e)
          × (expired ttl now e ≡ false)
          × (cache_get (record { ttl = ttl; entry = o }) now
              ≡ (some e.schema, record { ttl = ttl; entry = o })))
unfolding cache_get
cache_get-cases ttl now none = inl refl
cache_get-cases ttl now (some e) =
    let look : Bool → Option DatabaseSchema × SchemaCache = λ b.
      if b
      then (none, record { ttl = ttl; entry = none })
      else (some e.schema, record { ttl = ttl; entry = some e }) in
    elim (Bool-cases (expired ttl now e)) [
      | inl old ↦ inl (ap look old)
      | inr young ↦ inr (e, refl, young, ap look young)
    ]

-- what is served: the database as it is, stored in the slot, or the live entry
get_schema-cases :
    (s : SemanticLayer) (c : SchemaCache) (now stored : ℕ) (raw : DatabaseSchema)
    → (get_schema s c now stored raw ≡ reload s (record { ttl = c.ttl; entry = none }) stored raw)
      ⊎ ((e : Entry) × (c.entry ≡ some e)
          × (expired c.ttl now e ≡ false)
          × ((get_schema s c now stored raw).schema ≡ e.schema)
          × ((get_schema s c now stored raw).cache ≡ c))
unfolding get_schema serve
get_schema-cases s c now stored raw = elim (cache_get-cases c.ttl now c.entry) [
  | inl missed ↦ inl (ap (λ l. serve s l stored raw) missed)
  | inr (e, q, young, hit) ↦ inr (
    e,
    q,
    young,
    ap (λ l. (serve s l stored raw).schema) hit,
    ap (λ l. (serve s l stored raw).cache) hit,
  )
]

module _ (s : SemanticLayer) (ttl : ℕ) where
  -- The caches of a run, with the introspections so far and the times they were stored at. A call
  -- brings what the introspector would read at that moment, whether or not it is read.
  pub data Reachable : List (ℕ × DatabaseSchema) → SchemaCache → Type 0 where
    started : Reachable [] (record { ttl = ttl; entry = none })
    got :
        {h : List (ℕ × DatabaseSchema)} {c : SchemaCache}
        → Reachable h c
        → (now stored : ℕ) (raw : DatabaseSchema)
        → Reachable ((stored, raw) ∷ h) (get_schema s c now stored raw).cache
    refreshed :
        {h : List (ℕ × DatabaseSchema)} {c : SchemaCache}
        → Reachable h c
        → (stored : ℕ) (raw : DatabaseSchema)
        → Reachable ((stored, raw) ∷ h) (refresh s c stored raw).cache
    invalidated :
        {h : List (ℕ × DatabaseSchema)} {c : SchemaCache}
        → Reachable h c
        → Reachable h (invalidate c)

  -- A slot that is empty or holds the enrichment of a known introspection, with its time.
  abbrev IsKnown : List (ℕ × DatabaseSchema) → Option Entry → Type 0
  IsKnown h none = Unit
  IsKnown h (some e) =
      (r : DatabaseSchema) × Member (e.stored_monotonic, r) h × (e.schema ≡ enrich s r)

  IsKnown-weaken :
      (x : ℕ × DatabaseSchema) (h : List (ℕ × DatabaseSchema)) (o : Option Entry)
      → IsKnown h o
      → IsKnown (x ∷ h) o
  IsKnown-weaken x h none k = tt
  IsKnown-weaken x h (some e) (r, m, q) = (r, inr m, q)

  known_entry :
      (h : List (ℕ × DatabaseSchema)) (o : Option Entry) (e : Entry)
      → IsKnown h o
      → o ≡ some e
      → (r : DatabaseSchema) × Member (e.stored_monotonic, r) h × (e.schema ≡ enrich s r)
  known_entry h o e k q = subst (IsKnown h) q k

  -- the invariant of a run
  Reachable-IsKnown :
      (h : List (ℕ × DatabaseSchema)) (c : SchemaCache)
      → Reachable h c
      → IsKnown h c.entry × (c.ttl ≡ ttl)
  unfolding refresh reload cache_set invalidate
  Reachable-IsKnown _ _ started = (tt, refl)
  Reachable-IsKnown _ _ (got {h = h} {c = c} r now stored raw) =
      let known = Reachable-IsKnown h c r in
      let Kept : SchemaCache → Type 0 = λ d. IsKnown ((stored, raw) ∷ h) d.entry × (d.ttl ≡ ttl) in
      elim (get_schema-cases s c now stored raw) [
        | inl missed ↦ subst Kept (ap (λ v. v.cache) (sym missed)) ((raw, inl refl, refl), known.1)
        | inr (e, q, young, same, kept) ↦
            subst Kept (sym kept) (IsKnown-weaken (stored, raw) h c.entry known.0, known.1)
      ]
  Reachable-IsKnown _ _ (refreshed {h = h} {c = c} r stored raw) =
      ((raw, inl refl, refl), (Reachable-IsKnown h c r).1)
  Reachable-IsKnown _ _ (invalidated {h = h} {c = c} r) = (tt, (Reachable-IsKnown h c r).1)

  -- A schema that `get_schema` serves in a run is the enrichment of what the database shows at that
  -- moment, or of an earlier introspection that was stored no longer ago than the cache's lifetime,
  -- when it has one.
  pub get_schema-IsFresh :
      (h : List (ℕ × DatabaseSchema)) (c : SchemaCache) (now stored : ℕ) (raw : DatabaseSchema)
      → Reachable h c
      → ((get_schema s c now stored raw).schema ≡ enrich s raw)
        ⊎ ((t : ℕ) × (r : DatabaseSchema) × Member (t, r) h
            × ((get_schema s c now stored raw).schema ≡ enrich s r)
            × ((ttl ≡ 0) ⊎ (now - t ≤ ttl)))
  unfolding reload
  get_schema-IsFresh h c now stored raw reach =
      let known = Reachable-IsKnown h c reach in
      elim (get_schema-cases s c now stored raw) [
        | inl missed ↦ inl (ap (λ v. v.schema) missed)
        | inr (e, q, young, same, kept) ↦
            let (r, m, from) = known_entry h c.entry e known.0 q in
            inr (
              e.stored_monotonic,
              r,
              m,
              same ∙ from,
              not_expired ttl now e (ap (λ t. expired t now e) (sym known.1) ∙ young),
            )
      ]
