-- ===== src/Security/Policy.antt =====
-- Authorization of tables and columns: src/text_to_sql/security/policy.py, and the fields of
-- security/config.py that it reads.
use build_your_own_text2sql.Base.{
  ℕ, String, Bool, true, false, not, ◌&&◌, ◌≡◌, refl, Option, none, some, List, [], ◌∷◌, ◌++◌, map,
  arith, ◌∙◌, if◌then◌else◌,
}
use build_your_own_text2sql.Base.Lists.{all}
use build_your_own_text2sql.Base.Text.{◌+s◌, contains, lower, after_last_dot, before_dot, after_dot}
use build_your_own_text2sql.Domain.Enums.{classification_value}
use build_your_own_text2sql.Domain.Models.{ValidationIssue, AuthContext}
use build_your_own_text2sql.Domain.Tables.{DatabaseSchema, ColumnInfo, TableInfo, table, column}
use build_your_own_text2sql.Security.Classification.{can_view, deny_reason}

-- `SecurityPolicyConfig`: the lists of the policy and the limits of the cost analysis, apart from the
-- two thresholds on estimates, which are floats
pub record SecurityPolicyConfig : Type 0 where
  pub tenant_column : String
  pub max_rows : ℕ
  pub max_joins : ℕ
  pub max_subquery_depth : ℕ
  pub max_selected_columns : ℕ
  pub allowed_schemas : List String
  pub allowed_tables : Option (List String)
  pub denied_tables : List String
  pub function_denylist : List String

pub record PolicyDecision : Type 0 where
  pub allowed : Bool
  pub issues : List ValidationIssue

-- `if test: decision.deny(…)`
deny_if : Bool → String → String → String → PolicyDecision → PolicyDecision
deny_if test code message location d =
    if test
    then record {
      allowed = false;
      issues = d.issues ++ record { code = code; message = message; location = some location } ∷ [];
    }
    else d

allowed-deny_if :
    (b : Bool) (c m l : String) (d : PolicyDecision)
    → (deny_if b c m l d).allowed ≡ (d.allowed && not b)
unfolding deny_if
allowed-deny_if b c m l d = ground arith

module _ (config : SecurityPolicyConfig) where
  -- `qualified.split(".")[-1].lower()`
  unfoldable pub bare_name : String → String
  unfolding lower after_last_dot
  bare_name qualified = lower (after_last_dot qualified)

  table_denied : String → Bool
  table_denied bare = contains (map lower config.denied_tables) bare

  outside : Option (List String) → String → Bool
  outside none bare = false
  outside (some ts) bare = not (contains (map lower ts) bare)

  table_not_allowed : String → Bool
  unfolding outside
  table_not_allowed bare = outside config.allowed_tables bare

  enforce_table : String → PolicyDecision → PolicyDecision
  unfolding deny_if table_denied table_not_allowed
  enforce_table bare d =
      deny_if (table_not_allowed bare) "table_not_allowed"
        ("Table '" +s bare +s "' is not in the allowed set for this request.") ("table: " +s bare)
        (deny_if (table_denied bare) "table_denied"
          ("Access to table '" +s bare +s "' is denied by policy.") ("table: " +s bare) d)

  enforce_tables : List String → PolicyDecision → PolicyDecision
  unfolding enforce_table bare_name
  enforce_tables [] d = d
  enforce_tables (t ∷ ts) d = enforce_tables ts (enforce_table (bare_name t) d)

module _ (schema : DatabaseSchema) (auth : AuthContext) where
  column_in : Option TableInfo → String → Option ColumnInfo
  column_in none name = none
  column_in (some t) name = column t name

  -- the column that a reference `table.column` denotes, if the catalog has it
  unfoldable pub referenced_column : String → Option ColumnInfo
  unfolding column_in table column before_dot after_dot
  referenced_column ref = column_in (table schema (before_dot ref)) (after_dot ref)

  enforce_info : String → Option ColumnInfo → PolicyDecision → PolicyDecision
  unfolding deny_if
  enforce_info ref none d = d
  enforce_info ref (some c) d =
      let place = before_dot ref +s "." +s after_dot ref in
      deny_if (not (can_view c.classification auth.roles)) "column_denied"
        (deny_reason c.classification
          +s " (column '"
          +s place
          +s "', classification '"
          +s classification_value c.classification
          +s "').")
        ("column: " +s place) d

  enforce_columns : List String → PolicyDecision → PolicyDecision
  unfolding enforce_info
  enforce_columns [] d = d
  enforce_columns (r ∷ rs) d = enforce_columns rs (enforce_info r (referenced_column r) d)

  viewable : Option ColumnInfo → Bool
  viewable none = true
  viewable (some c) = can_view c.classification auth.roles

  -- The caller may view the column that the reference denotes.
  unfoldable pub column_allowed : String → Bool
  unfolding viewable
  column_allowed ref = viewable (referenced_column ref)

  allowed-enforce_info :
      (ref : String) (c : Option ColumnInfo) (d : PolicyDecision)
      → (enforce_info ref c d).allowed ≡ (d.allowed && viewable c)
  unfolding enforce_info viewable
  allowed-enforce_info ref none d = ground arith
  allowed-enforce_info ref (some c) d =
      allowed-deny_if (not (can_view c.classification auth.roles)) _ _ _ d ∙ ground arith

  allowed-enforce_columns :
      (rs : List String) (d : PolicyDecision)
      → (enforce_columns rs d).allowed ≡ (d.allowed && all column_allowed rs)
  unfolding enforce_columns column_allowed
  allowed-enforce_columns [] d = ground arith
  allowed-enforce_columns (r ∷ rs) d =
      allowed-enforce_columns rs _
      ∙ rw (allowed-enforce_info r (referenced_column r) d) (ground arith)

module _ (config : SecurityPolicyConfig) where
  -- The table, by its bare name, is not denied, and is in the allowed set where there is one.
  unfoldable pub table_allowed : String → Bool
  unfolding table_denied table_not_allowed bare_name
  table_allowed t =
      not (table_denied config (bare_name config t))
      && not (table_not_allowed config (bare_name config t))

  allowed-enforce_table :
      (t : String) (d : PolicyDecision)
      → (enforce_table config (bare_name config t) d).allowed ≡ (d.allowed && table_allowed t)
  unfolding enforce_table table_allowed
  allowed-enforce_table t d = simp allowed-deny_if (ground arith)

  allowed-enforce_tables :
      (ts : List String) (d : PolicyDecision)
      → (enforce_tables config ts d).allowed ≡ (d.allowed && all table_allowed ts)
  unfolding enforce_tables
  allowed-enforce_tables [] d = ground arith
  allowed-enforce_tables (t ∷ ts) d =
      allowed-enforce_tables ts _ ∙ rw (allowed-enforce_table t d) (ground arith)

  -- `PolicyEngine.enforce`
  pub enforce : List String → List String → DatabaseSchema → AuthContext → PolicyDecision
  enforce tables columns schema auth =
      enforce_columns schema auth columns
        (enforce_tables config tables (record { allowed = true; issues = [] }))

  -- The policy allows a statement exactly when it allows every table and every column.
  pub allowed-enforce :
      (tables columns : List String) (schema : DatabaseSchema) (auth : AuthContext)
      → (enforce tables columns schema auth).allowed
        ≡ (all table_allowed tables && all (column_allowed schema auth) columns)
  unfolding enforce
  allowed-enforce tables columns schema auth =
      allowed-enforce_columns schema auth columns _
      ∙ rw (allowed-enforce_tables tables (record { allowed = true; issues = [] })) refl

-- Opens all that a run of the policy computes with.
unfoldable pub policy_runs : Unit {0}
unfolding enforce enforce_columns enforce_info enforce_tables enforce_table table_denied
    table_not_allowed outside bare_name referenced_column column_in deny_if can_view
policy_runs = tt
