-- ===== src/Sql/Validator/Tables/Scope.antt =====
-- Which tables a qualifier denotes, and which tables a statement names: what the first loop of
-- `_check_tables_and_columns` of src/text_to_sql/sql/validator.py leaves to the second.
use text.Mathlib.TextEquality.{eq_iff}
use mathlib.Core.List
use build_your_own_text2sql.Base.{
  String, Bool, true, false, not, ◌&&◌, ◌||◌, ◌≡◌, refl, ap, ◌∙◌, sym, Option, none, some, List, [],
  ◌∷◌, ◌++◌, arith, Bool-cases, Option-cases, inl, inr, if-push, if◌then◌else◌, is_some,
}
use build_your_own_text2sql.Base.Lists.{any, any-append}
use build_your_own_text2sql.Base.Text.{◌=s=◌, contains, lower, is_empty, sorted, insert_sorted}
use build_your_own_text2sql.Base.Dict.{get, get-put}
use build_your_own_text2sql.Base.Dict
use build_your_own_text2sql.Domain.Tables.{DatabaseSchema, TableInfo, table, qualified_name}
use build_your_own_text2sql.Sqlglot.{SqlGlot}
use build_your_own_text2sql.Sql.Validator.Config.{SqlValidator}
use build_your_own_text2sql.Sql.Validator.Tables.{
  TableScan, or_else, add_alias, skipped, resolve_table, check_table, check_tables,
}

any-contained :
    (g : String → Bool) (xs : List String) (x : String)
    → contains xs x ≡ true
    → g x ≡ true
    → any g xs ≡ true
any-contained g [] x h k = cc
any-contained g (y ∷ ys) x h k = elim (Bool-cases (y =s= x)) [
  | inl same ↦ let e = ap g ((eq_iff y x).0 same) in ground (arith, e, k)
  | inr other ↦ ground (arith, any-contained g ys x (ground (arith, h)) k)
]

any-add :
    (g : String → Bool) (xs : List String) (x : String) → any g (Dict.add xs x) ≡ (any g xs || g x)
unfolding Dict.add
any-add g xs x = elim (Bool-cases (contains xs x)) [
  | inl old ↦ rw old (elim (Bool-cases (g x)) [
    | inl good ↦ ground (arith, any-contained g xs x old good)
    | inr bad ↦ ground arith
  ])
  | inr new ↦ rw new (rw (any-append g xs (x ∷ [])) (ground arith))
]

any-insert :
    (g : String → Bool) (s : String) (xs : List String)
    → any g (insert_sorted s xs) ≡ (g s || any g xs)
unfolding insert_sorted
any-insert g s [] = refl
any-insert g s (x ∷ xs) = ground (arith, any-insert g s xs)

pub any-sorted : (g : String → Bool) (xs : List String) → any g (sorted xs) ≡ any g xs
unfolding sorted
any-sorted g [] = refl
any-sorted g (x ∷ xs) = rw (any-insert g x (sorted xs)) (rw (any-sorted g xs) refl)

-- the names under an alias
abbrev pub names_under : List (String × List String) → String → List String
names_under m q = elim (get m q) [ none ↦ [] | some ts ↦ ts ]

names_under-put :
    (m : List (String × List String)) (k q : String) (names : List String)
    → names_under (Dict.put m k names) q ≡ (if k =s= q then names else names_under m q)
names_under-put m k q names =
    rw (get-put m k q names, names_under)
      (if-push (λ (o : Option (List String)). elim o [ none ↦ [] | some ts ↦ ts ]) (k =s= q)
        (some names) (get m q))

-- what is under the alias after an addition: one name more
any-put :
    (g : String → Bool) (m : List (String × List String)) (k q name : String) (names : List String)
    → any g names ≡ (any g (names_under m k) || g name)
    → any g (names_under (Dict.put m k names) q) ≡ (any g (names_under m q) || (k =s= q && g name))
any-put g m k q name names more = rw (names_under-put m k q names) (elim (Bool-cases (k =s= q)) [
  | inl same ↦
      let there = ap (λ j. any g (names_under m j)) ((eq_iff k q).0 same) in
      rw same (more ∙ ap (λ b. b || g name) there)
  | inr other ↦ rw other (ground arith)
])

any-add_alias :
    (g : String → Bool) (m : List (String × List String)) (k name q : String)
    → any g (names_under (add_alias m k name) q) ≡ (any g (names_under m q) || (k =s= q && g name))
unfolding add_alias
any-add_alias g m k name q = elim (Option-cases (get m k)) [
  | inl absent ↦
      rw (absent, add_alias)
        (any-put g m k q name (name ∷ []) (rw (absent, names_under) (ground arith)))
  | inr (names, found) ↦
      rw (found, add_alias)
        (any-put g m k q name (Dict.add names name)
          (rw (found, names_under) (any-add g names name)))
]

or_assoc : (a b c : Bool) → ((a || b) || c) ≡ (a || (b || c))
or_assoc a b c = ground arith

either : (a b c d : Bool) → ((a || (b && d)) || (c && d)) ≡ (a || ((b || c) && d))
either a b c d = ground arith

module _ (sg : SqlGlot) (v : SqlValidator) (schema : DatabaseSchema) where
  open sg use {Expression, Node, name, alias}

  -- The table reference is one to the catalog, not to a common table expression or a derived table.
  unfoldable pub is_real : List String → Node → Bool
  is_real virtual t =
      not (is_empty (name t) || contains virtual (lower (name t)))
      && is_some (table schema (name t))

  -- A qualifier denotes the reference by its alias, or by its name where it has none, or by its name
  -- in any case.
  unfoldable pub goes_by : Node → String → Bool
  goes_by t qualifier =
      (lower (or_else (alias t) (name t)) =s= qualifier) || (lower (name t) =s= qualifier)

  -- the qualified name of the catalog table of a reference, if it has one
  real_name : List String → Node → Option TableInfo → List String
  real_name virtual t none = []
  real_name virtual t (some info) =
      if is_empty (name t) || contains virtual (lower (name t))
      then []
      else qualified_name info ∷ []

  -- the qualified names of the catalog tables among the references, in order
  unfoldable pub real_names : List String → List Node → List String
  unfolding real_name
  real_names virtual [] = []
  real_names virtual (t ∷ ts) = real_name virtual t (table schema (name t)) ++ real_names virtual ts

  any-resolve_table :
      (g : String → Bool) (t : Node) (info : Option TableInfo) (s : TableScan Expression)
      (q : String)
      → any g (names_under (resolve_table sg v schema t info s).alias_to_real q)
        ≡ (any g (names_under s.alias_to_real q) || (is_some info && goes_by t q && g (name t)))
  unfolding resolve_table goes_by
  any-resolve_table g t none s q = ground arith
  any-resolve_table g t (some info) s q =
      let first = lower (or_else (alias t) (name t)) in
      rw (any-add_alias g (add_alias s.alias_to_real first (name t)) (lower (name t)) (name t) q) (
        rw (any-add_alias g s.alias_to_real first (name t) q) (
          either (any g (names_under s.alias_to_real q)) (first =s= q) (lower (name t) =s= q)
            (g (name t))))

  any-check_table :
      (g : String → Bool) (virtual : List String) (t : Node) (s : TableScan Expression) (q : String)
      → any g (names_under (check_table sg v schema virtual t s).alias_to_real q) ≡ (
          any g (names_under s.alias_to_real q) || (is_real virtual t && goes_by t q && g (name t)))
  unfolding check_table skipped is_real
  any-check_table g virtual t s q = elim (Bool-cases (skipped sg v schema virtual t)) [
    | inl skip ↦ rw skip (ground arith)
    | inr keep ↦ rw keep (any-resolve_table g t (table schema (name t)) _ q)
  ]

  -- What is under a qualifier after the loop: the names of the references that it denotes.
  pub any-check_tables :
      (g : String → Bool) (virtual : List String) (ts : List Node) (s : TableScan Expression)
      (q : String)
      → any g (names_under (check_tables sg v schema virtual ts s).alias_to_real q) ≡ (
          any g (names_under s.alias_to_real q)
          || any (λ t. is_real virtual t && goes_by t q && g (name t)) ts)
  unfolding check_tables
  any-check_tables g virtual [] s q = ground arith
  any-check_tables g virtual (t ∷ ts) s q =
      any-check_tables g virtual ts (check_table sg v schema virtual t s) q
      ∙ ap (λ b. b || any (λ t. is_real virtual t && goes_by t q && g (name t)) ts)
          (any-check_table g virtual t s q)
      ∙ or_assoc (any g (names_under s.alias_to_real q))
          (is_real virtual t && goes_by t q && g (name t))
          (any (λ t. is_real virtual t && goes_by t q && g (name t)) ts)

  real_tables-resolve_table :
      (virtual : List String) (t : Node) (info : Option TableInfo) (s : TableScan Expression)
      → (is_empty (name t) || contains virtual (lower (name t))) ≡ false
      → (resolve_table sg v schema t info s).real_tables ≡ s.real_tables ++ real_name virtual t info
  unfolding resolve_table real_name
  real_tables-resolve_table virtual t none s keep = sym (List.append-nil s.real_tables)
  real_tables-resolve_table virtual t (some info) s keep = rw keep refl

  real_name-skipped :
      (virtual : List String) (t : Node) (info : Option TableInfo)
      → (is_empty (name t) || contains virtual (lower (name t))) ≡ true
      → real_name virtual t info ≡ []
  unfolding real_name
  real_name-skipped virtual t none skip = refl
  real_name-skipped virtual t (some info) skip = rw skip refl

  real_tables-check_table :
      (virtual : List String) (t : Node) (s : TableScan Expression)
      → (check_table sg v schema virtual t s).real_tables
        ≡ s.real_tables ++ real_name virtual t (table schema (name t))
  unfolding check_table skipped
  real_tables-check_table virtual t s = elim (Bool-cases (skipped sg v schema virtual t)) [
    | inl skip ↦ rw skip (
        rw (real_name-skipped virtual t (table schema (name t)) skip)
          (sym (List.append-nil s.real_tables)))
    | inr keep ↦ rw keep (real_tables-resolve_table virtual t (table schema (name t)) _ keep)
  ]

  -- The tables found are the catalog tables of the references.
  pub real_tables-check_tables :
      (virtual : List String) (ts : List Node) (s : TableScan Expression)
      → (check_tables sg v schema virtual ts s).real_tables ≡ s.real_tables ++ real_names virtual ts
  unfolding check_tables real_names
  real_tables-check_tables virtual [] s = sym (List.append-nil s.real_tables)
  real_tables-check_tables virtual (t ∷ ts) s =
      real_tables-check_tables virtual ts (check_table sg v schema virtual t s)
      ∙ ap (λ xs. xs ++ real_names virtual ts) (real_tables-check_table virtual t s)
      ∙ List.append_assoc s.real_tables (real_name virtual t (table schema (name t)))
          (real_names virtual ts)
