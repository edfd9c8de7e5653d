-- ===== src/Api.antt =====
-- The HTTP interface: src/text_to_sql/api/dependencies.py, errors.py and routes.py. The web framework calls a handler
-- with the values of its dependencies; an engine error that a dependency or a handler raises becomes an envelope.
pub mod Authorized
use Prim.Native.Char.{code}
use Prim.Native.String
use build_your_own_text2sql.Base.{
  ℕ, String, Bool, true, false, not, ◌&&◌, Option, none, some, List, [], ◌∷◌, map, ◌==◌,
  if◌then◌else◌, or_default,
}
use build_your_own_text2sql.Base.Lists.{take, filter}
use build_your_own_text2sql.Base.Text.{is_empty, strip, reverse_text, join}
use build_your_own_text2sql.Domain.Enums.{
  DataClassification, ResponseStatus, clarification_required,
}
use build_your_own_text2sql.Domain.Models.{AuthContext, is_admin, QueryRequest, QueryResponse}
use build_your_own_text2sql.Domain.Tables.{DatabaseSchema, truthy}
use build_your_own_text2sql.Common.Errors.{
  EngineError, PublicError, make_error, raise_error, to_public, http_status, nothing, code_detail,
  field_errors, engine, invalid_request, authorization_denied,
}
use build_your_own_text2sql.Security.Classification.{can_view}
use build_your_own_text2sql.Semantic.{SemanticLayer}
use build_your_own_text2sql.Schema.Cache.{SchemaCache}
use build_your_own_text2sql.Schema.Catalog.{
  SchemaSummaryResponse, Served, get_schema, refresh, summary,
}
use build_your_own_text2sql.Application.Process.{Processed, error_raised, responded}

-- the headers X-User-Id, X-Tenant-Id and X-Roles
pub record Headers : Type 0 where
  pub user_id : Option String
  pub tenant_id : Option String
  pub roles : Option String

-- What a dependency gives: a value, or the error that it raises.
pub data Guarded (A : Type 0) : Type 0 where
  denied : EngineError → Guarded A
  granted : A → Guarded A

-- `s.split(",")`, the part that is read kept reversed
unfoldable pub split_commas : String → String → List String
unfolding reverse_text
split_commas acc String.[] = reverse_text acc "" ∷ []
split_commas acc (String.◌∷◌ c s) =
    let inside = split_commas (String.◌∷◌ c acc) s in
    let parted = reverse_text acc "" ∷ split_commas "" s in
    if code c == b',' then parted else inside

-- `tuple(r.strip() for r in … .split(",") if r.strip())`
unfoldable pub roles_of : String → List String
unfolding split_commas strip
roles_of header = filter (λ r. not (is_empty r)) (map strip (split_commas "" header))

unfoldable pub missing_identity : EngineError
unfolding raise_error
missing_identity =
    raise_error authorization_denied
      "Authentication context is required (X-User-Id and X-Tenant-Id headers)."
      (code_detail "missing_identity")

unfoldable pub context_of : Headers → AuthContext
unfolding roles_of
context_of h = record {
  user_id = or_default "" h.user_id;
  tenant_id = or_default "" h.tenant_id;
  roles = roles_of (or_default "" h.roles);
}

unfoldable pub get_auth_context : Headers → Guarded AuthContext
unfolding missing_identity context_of
get_auth_context h =
    if truthy h.user_id && truthy h.tenant_id
    then granted (context_of h)
    else denied missing_identity

unfoldable pub admin_or_denied : AuthContext → Guarded AuthContext
unfolding is_admin raise_error
admin_or_denied auth =
    if is_admin auth
    then granted auth
    else denied (
        raise_error authorization_denied "This operation requires the 'admin' role."
          (code_detail "admin_required"))

unfoldable pub guarded_bind : {A B : Type 0} → Guarded A → (A → Guarded B) → Guarded B
guarded_bind (denied e) f = denied e
guarded_bind (granted a) f = f a

unfoldable pub require_admin : Headers → Guarded AuthContext
unfolding guarded_bind admin_or_denied get_auth_context
require_admin h = guarded_bind (get_auth_context h) admin_or_denied

-- A response: a status with a body, or with an error's envelope and the correlation id.
pub data Http (A : Type 0) : Type 0 where
  body : ℕ → A → Http A
  problem : ℕ → PublicError → String → Http A

-- `_envelope`
unfoldable pub envelope : {A : Type 0} → EngineError → String → Http A
unfolding to_public http_status
envelope e correlation = problem (http_status e.class) (to_public e) correlation

-- the parts of an entry of `exc.errors()`
pub record FieldError : Type 0 where
  pub loc : List String
  pub msg : Option String

-- `_safe_validation_errors`
safe_validation_errors : List FieldError → List (String × String)
unfolding join
safe_validation_errors errors =
    map (λ (e : FieldError). (join "." e.loc, or_default "invalid" e.msg)) (take 20 errors)

-- `_validation_error`
unfoldable pub validation_problem : {A : Type 0} → List FieldError → String → Http A
unfolding safe_validation_errors envelope raise_error
validation_problem errors correlation =
    envelope
      (raise_error invalid_request "The request body failed validation."
        (field_errors (safe_validation_errors errors)))
      correlation

-- `_unhandled`, for any exception, of which only the log hears
unfoldable pub unhandled_problem : {A : Type 0} → String → Http A
unfolding envelope raise_error
unhandled_problem correlation =
    envelope (raise_error engine "An unexpected internal error occurred." nothing) correlation

-- `_apply_status_code`
unfoldable pub applied_status : ResponseStatus → ℕ
applied_status ResponseStatus.clarification_required = 409
applied_status _ = 200

-- a handler behind its dependency
unfoldable pub handled : {A B : Type 0} → String → Guarded A → (A → Http B) → Http B
unfolding envelope
handled correlation (denied e) f = envelope e correlation
handled correlation (granted a) f = f a

module _ {F V : Type 0} (orchestrate : QueryRequest → AuthContext → Bool → Processed F V) where
  -- the response to what `process` does; an assertion that fails is unhandled
  unfoldable pub response_to : String → Processed F V → Http (QueryResponse F V)
  unfolding applied_status envelope unhandled_problem
  response_to correlation (responded r) = body (applied_status r.status) r
  response_to correlation (error_raised e) = envelope e correlation
  response_to correlation _ = unhandled_problem correlation

  unfoldable pub post_query : String → Headers → QueryRequest → Http (QueryResponse F V)
  unfolding handled get_auth_context response_to
  post_query correlation h request =
      handled correlation (get_auth_context h)
        (λ auth. response_to correlation (orchestrate request auth true))

  unfoldable pub post_query_preview : String → Headers → QueryRequest → Http (QueryResponse F V)
  unfolding handled get_auth_context response_to
  post_query_preview correlation h request =
      handled correlation (get_auth_context h)
        (λ auth. response_to correlation (orchestrate request auth false))

-- the closure `visible`
unfoldable pub visible_to : AuthContext → String → String → DataClassification → Bool
unfolding can_view
visible_to auth table column classification = can_view classification auth.roles

module _ (semantic : SemanticLayer) (cache : SchemaCache) where
  unfoldable pub summary_for : Served → AuthContext → SchemaSummaryResponse
  unfolding summary visible_to
  summary_for served auth = summary served.schema (some (visible_to auth))

  -- the handler of GET /schema: its response, and the cache that it leaves
  unfoldable pub get_schema_route :
      String → Headers → ℕ → ℕ → DatabaseSchema → Http SchemaSummaryResponse × SchemaCache
  unfolding get_auth_context get_schema summary_for envelope
  get_schema_route correlation h now stored raw = elim (get_auth_context h) [
    | denied e ↦ (envelope e correlation, cache)
    | granted auth ↦
        let served = get_schema semantic cache now stored raw in
        (body 200 (summary_for served auth), served.cache)
  ]

  -- the handler of POST /schema/refresh, behind its dependency
  unfoldable pub refresh_for :
      String → ℕ → DatabaseSchema → Guarded AuthContext → Http SchemaSummaryResponse × SchemaCache
  unfolding refresh summary_for envelope
  refresh_for correlation stored raw (denied e) = (envelope e correlation, cache)
  refresh_for correlation stored raw (granted auth) =
      let served = refresh semantic cache stored raw in
      (body 200 (summary_for served auth), served.cache)

  unfoldable pub post_schema_refresh :
      String → Headers → ℕ → DatabaseSchema → Http SchemaSummaryResponse × SchemaCache
  unfolding require_admin refresh_for
  post_schema_refresh correlation h stored raw =
      refresh_for correlation stored raw (require_admin h)
