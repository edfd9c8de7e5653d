-- ===== src/Security/Classification.antt =====
-- Column sensitivity against roles: src/text_to_sql/security/classification.py.
use text.Mathlib.TextEquality.{eq_iff}
use build_your_own_text2sql.Base.{
  String, Bool, true, false, not, ◌&&◌, ◌||◌, ◌≡◌, refl, Option, none, some, List, [], ◌∷◌, map,
  arith, if◌then◌else◌,
}
use build_your_own_text2sql.Base.Text.{◌=s=◌, ◌+s◌, contains, lower}
use build_your_own_text2sql.Domain.Enums.{
  DataClassification, public, internal, confidential, pii, financial, auth_secret,
  highly_restricted, classification_value,
}
use build_your_own_text2sql.Domain.Models.{meets}

-- `_RULES`: the allowed roles and the grant
unfoldable pub rules : DataClassification → List String × Option String
rules public = ("*" ∷ [], none)
rules internal = ("*" ∷ [], none)
rules confidential = ("admin" ∷ "analyst" ∷ [], none)
rules financial = ("admin" ∷ "analyst" ∷ [], some "finance_read")
rules pii = ("admin" ∷ [], some "pii_read")
rules auth_secret = ([], none)
rules highly_restricted = ([], none)

-- the classes that nobody may select
unfoldable pub is_secret : DataClassification → Bool
is_secret auth_secret = true
is_secret highly_restricted = true
is_secret _ = false

holds_grant : Option String → List String → Bool
holds_grant none roles = false
holds_grant (some g) roles = not (g =s= "") && contains roles g

by_rules : List String × Option String → List String → Bool
unfolding holds_grant
by_rules (allowed, grant) roles =
    if contains allowed "*"
    then true
    else if meets roles allowed
    then true
    else holds_grant grant roles

-- on the lower-cased roles
view_with : DataClassification → List String → Bool
unfolding rules is_secret by_rules
view_with c roles = if contains roles "admin" then not (is_secret c) else by_rules (rules c) roles

-- `ColumnAccessPolicy.can_view`
unfoldable pub can_view : DataClassification → List String → Bool
unfolding view_with lower
can_view c roles = view_with c (map lower roles)

unfoldable pub deny_reason : DataClassification → String
unfolding is_secret classification_value
deny_reason c =
    if is_secret c
    then "Columns classified '" +s classification_value c +s "' can never be selected."
    else "Your role is not permitted to select '" +s classification_value c +s "' data."

-- The access rules as the module's documentation words them, on the lower-cased roles.
abbrev pub permitted : DataClassification → List String → Bool
permitted public roles = true
permitted internal roles = true
permitted confidential roles = contains roles "admin" || contains roles "analyst"
permitted financial roles =
    contains roles "admin" || contains roles "analyst" || contains roles "finance_read"
permitted pii roles = contains roles "admin" || contains roles "pii_read"
permitted auth_secret roles = false
permitted highly_restricted roles = false

meets-one : (roles : List String) (a : String) → meets roles (a ∷ []) ≡ contains roles a
meets-one [] a = refl
meets-one (r ∷ rs) a = ground (arith, meets-one rs a, eq_iff a r, eq_iff r a)

meets-two :
    (roles : List String) (a b : String)
    → meets roles (a ∷ b ∷ []) ≡ (contains roles a || contains roles b)
meets-two [] a b = refl
meets-two (r ∷ rs) a b =
    ground (arith, meets-two rs a b, eq_iff a r, eq_iff r a, eq_iff b r, eq_iff r b)

meets-none : (roles : List String) → meets roles [] ≡ false
meets-none [] = refl
meets-none (r ∷ rs) = meets-none rs

-- `can_view` follows the documented rules for every class and every set of roles.
pub can_view-permitted :
    (c : DataClassification) (roles : List String)
    → can_view c roles ≡ permitted c (map lower roles)
unfolding can_view
can_view-permitted public roles = ground arith
can_view-permitted internal roles = ground arith
can_view-permitted confidential roles =
    ground (arith, meets-two (map lower roles) "admin" "analyst")
can_view-permitted financial roles = ground (arith, meets-two (map lower roles) "admin" "analyst")
can_view-permitted pii roles = ground (arith, meets-one (map lower roles) "admin")
can_view-permitted auth_secret roles = ground (arith, meets-none (map lower roles))
can_view-permitted highly_restricted roles = ground (arith, meets-none (map lower roles))

-- A caller with more roles sees no less.
pub can_view_mono :
    (c : DataClassification) (roles more : List String)
    → ((r : String) → contains (map lower roles) r ≡ true → contains (map lower more) r ≡ true)
    → can_view c roles ≡ true
    → can_view c more ≡ true
can_view_mono c roles more sub h =
    rw (can_view-permitted c more) (permitted-mono c (rw (can_view-permitted c roles) at h))
  where
    permitted-mono :
        (d : DataClassification)
        → permitted d (map lower roles) ≡ true
        → permitted d (map lower more) ≡ true
    permitted-mono public k = refl
    permitted-mono internal k = refl
    permitted-mono confidential k = ground (arith, sub "admin", sub "analyst")
    permitted-mono financial k = ground (arith, sub "admin", sub "analyst", sub "finance_read")
    permitted-mono pii k = ground (arith, sub "admin", sub "pii_read")
    permitted-mono auth_secret k = k
    permitted-mono highly_restricted k = k
