-- ===== src/Schema/Cache.antt =====
-- The schema cache: src/text_to_sql/schema/cache.py. Each operation runs under one lock, so it is a
-- single step on the slot. The monotonic clock is read as a number of ticks, and `ttl` is in ticks.
use build_your_own_text2sql.Base.{
  ℕ, ◌-◌, Bool, ◌&&◌, String, Option, none, some, ltb, if◌then◌else◌,
}
use build_your_own_text2sql.Domain.Tables.{DatabaseSchema}

pub record Entry : Type 0 where
  pub schema : DatabaseSchema
  pub stored_monotonic : ℕ

-- `SchemaCache`: its lifetime of an entry, and its slot
pub record SchemaCache : Type 0 where
  pub ttl : ℕ
  pub entry : Option Entry

-- `self._ttl > 0 and (time.monotonic() - stored) > self._ttl`
abbrev pub expired : ℕ → ℕ → Entry → Bool
expired ttl now e = ltb 0 ttl && ltb ttl (now - e.stored_monotonic)

-- `get`: the schema, and the cache, which drops an expired entry
unfoldable pub cache_get : SchemaCache → ℕ → Option DatabaseSchema × SchemaCache
cache_get c now = elim c.entry [
  | none ↦ (none, c)
  | some e ↦ if expired c.ttl now e then (none, record c { entry = none }) else (some e.schema, c)
]

unfoldable pub cache_set : SchemaCache → ℕ → DatabaseSchema → SchemaCache
cache_set c now s = record c { entry = some (record { schema = s; stored_monotonic = now }) }

unfoldable pub invalidate : SchemaCache → SchemaCache
invalidate c = record c { entry = none }

unfoldable pub current_version : SchemaCache → Option String
current_version c = elim c.entry [ none ↦ none | some e ↦ some e.schema.version ]
