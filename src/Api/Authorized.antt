-- ===== src/Api/Authorized.antt =====
-- Who may refresh the schema through src/text_to_sql/api/routes.py.
use build_your_own_text2sql.Base.{
  ℕ, String, true, ◌&&◌, ◌≡◌, refl, ap, ◌⊎◌, inl, inr, if-split, some,
}
use build_your_own_text2sql.Common.Errors.{PublicError, to_public, http_status, raise_error}
use build_your_own_text2sql.Domain.Models.{AuthContext, is_admin}
use build_your_own_text2sql.Domain.Tables.{DatabaseSchema, truthy}
use build_your_own_text2sql.Semantic.{SemanticLayer}
use build_your_own_text2sql.Schema.Cache.{SchemaCache}
use build_your_own_text2sql.Schema.Catalog.{SchemaSummaryResponse, refresh, summary}
use build_your_own_text2sql.Api.{
  Headers, Guarded, denied, granted, get_auth_context, admin_or_denied, guarded_bind,
  missing_identity, context_of, require_admin, Http, body, problem, envelope, visible_to,
  summary_for, refresh_for, post_schema_refresh,
}

-- A dependency admits an administrator, or denies with the status 403.
Admits : Headers → Guarded AuthContext → Type 0
Admits h (granted auth) = (get_auth_context h ≡ granted auth) × (is_admin auth ≡ true)
Admits h (denied e) = http_status e.class ≡ 403

admin-Admits :
    (h : Headers) (auth : AuthContext)
    → get_auth_context h ≡ granted auth
    → Admits h (admin_or_denied auth)
unfolding Admits admin_or_denied raise_error http_status
admin-Admits h auth e =
    if-split (Admits h) (is_admin auth) _ _ (λ admin. (e, admin)) (λ other. refl)

-- without an identity the status is 403, too
Identified : Guarded AuthContext → Type 0
Identified (granted auth) = Unit
Identified (denied e) = http_status e.class ≡ 403

get_auth_context-Identified : (h : Headers) → Identified (get_auth_context h)
unfolding get_auth_context missing_identity raise_error http_status Identified
get_auth_context-Identified h =
    if-split Identified (truthy h.user_id && truthy h.tenant_id) (granted (context_of h))
      (denied missing_identity) (λ present. tt) (λ missing. refl)

bind-Admits :
    (h : Headers) (g : Guarded AuthContext)
    → get_auth_context h ≡ g
    → Identified g
    → Admits h (guarded_bind g admin_or_denied)
unfolding Admits Identified guarded_bind
bind-Admits h (granted auth) e i = admin-Admits h auth e
bind-Admits h (denied err) e i = i

require_admin-Admits : (h : Headers) → Admits h (require_admin h)
unfolding require_admin
require_admin-Admits h = bind-Admits h (get_auth_context h) refl (get_auth_context-Identified h)

module _ (semantic : SemanticLayer) (cache : SchemaCache) (correlation : String) (h : Headers)
    (stored : ℕ) (raw : DatabaseSchema) where
  -- Either the headers identify an administrator, who gets the refreshed schema with the columns that the
  -- column policy lets its roles see; or the response has the status 403 and the cache is left alone.
  unfoldable pub IsGuarded : Http SchemaSummaryResponse × SchemaCache → Type 0
  IsGuarded r =
      ((auth : AuthContext) × (get_auth_context h ≡ granted auth)
        × (is_admin auth ≡ true)
        × (r.0
            ≡ body 200
                (summary (refresh semantic cache stored raw).schema (some (visible_to auth)))))
      ⊎ ((p : PublicError) × (r.0 ≡ problem 403 p correlation) × (r.1 ≡ cache))

  refresh_for-IsGuarded :
      (g : Guarded AuthContext)
      → Admits h g
      → IsGuarded (refresh_for semantic cache correlation stored raw g)
  unfolding Admits IsGuarded refresh_for summary_for envelope
  refresh_for-IsGuarded (granted auth) (e, admin) = inl (auth, e, admin, refl)
  refresh_for-IsGuarded (denied err) e =
      inr (to_public err, ap (λ (n : ℕ). problem n (to_public err) correlation) e, refl)

  -- A request to refresh the schema either comes from an identified administrator, who gets the refreshed schema
  -- with the columns that the column policy lets its roles see; or it is answered with the status 403, and the
  -- cache is left alone.
  pub post_schema_refresh-IsGuarded :
      IsGuarded (post_schema_refresh semantic cache correlation h stored raw)
  unfolding post_schema_refresh
  post_schema_refresh-IsGuarded = refresh_for-IsGuarded (require_admin h) (require_admin-Admits h)
