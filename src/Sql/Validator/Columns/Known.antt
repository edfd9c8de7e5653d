-- ===== src/Sql/Validator/Columns/Known.antt =====
-- What the second loop of `_check_tables_and_columns` of src/text_to_sql/sql/validator.py asks of a
-- column, in terms of the names that its qualifier stands for.
use build_your_own_text2sql.Base.{
  String, Bool, true, false, not, ◌||◌, ◌≡◌, refl, none, some, List, [], ◌∷◌, arith, Bool-cases,
  Option-cases, inl, inr, if◌then◌else◌,
}
use build_your_own_text2sql.Base.Lists.{any, filter}
use build_your_own_text2sql.Base.Text.{◌=s=◌, contains, lower, is_empty, sorted}
use build_your_own_text2sql.Domain.Tables.{DatabaseSchema, table, has_column}
use build_your_own_text2sql.Sqlglot.{SqlGlot}
use build_your_own_text2sql.Sql.Parser.{present}
use build_your_own_text2sql.Sql.Validator.Tables.Scope.{any-sorted}
use build_your_own_text2sql.Sql.Validator.Columns.{
  Names, is_nil, candidates, owners_among, unnamed, qualifier, column_ok,
}

-- The catalog has the table, and the table the column.
unfoldable pub owns : DatabaseSchema → String → String → Bool
owns schema col t = elim (table schema t) [ none ↦ false | some info ↦ has_column info col ]

is_nil-any : {A : Type 0} (xs : List A) → is_nil xs ≡ not (any (λ x. true) xs)
is_nil-any [] = refl
is_nil-any (x ∷ xs) = refl

not_nil-filter : {A : Type 0} (p : A → Bool) (xs : List A) → not (is_nil (filter p xs)) ≡ any p xs
not_nil-filter p [] = refl
not_nil-filter p (x ∷ xs) = elim (Bool-cases (p x)) [
  | inl good ↦ rw good refl
  | inr bad ↦ rw bad (not_nil-filter p xs)
]

not_nil-owners :
    (schema : DatabaseSchema) (col : String) (ts : List String)
    → not (is_nil (owners_among schema col ts)) ≡ any (owns schema col) ts
unfolding owners_among present owns
not_nil-owners schema col [] = refl
not_nil-owners schema col (t ∷ ts) = elim (Option-cases (table schema t)) [
  | inl absent ↦ rw (absent, owns) (not_nil-owners schema col ts)
  | inr (info, found) ↦
      rw (found, owns)
        (elim (Bool-cases (has_column info col)) [
          | inl good ↦ rw good refl
          | inr bad ↦ rw bad (not_nil-owners schema col ts)
        ])
]

module _ (sg : SqlGlot) (schema : DatabaseSchema) (names : Names) where
  open sg use {Node, name, table_of}

  -- A column is in order when it has no name or is a star; when it has a qualifier that is virtual,
  -- stands for no name, or for a table that owns it; and when it has none and is the alias of an
  -- output, when no table was found, or when one that was found has it.
  pub column_ok-parts :
      (c : Node)
      → column_ok sg schema names c ≡ (
          is_empty (name c)
          || (name c =s= "*")
          || (if not (is_empty (lower (table_of c)))
              then contains names.virtual (lower (table_of c))
                || not (any (λ x. true) (candidates names (lower (table_of c))))
                || any (owns schema (name c)) (candidates names (lower (table_of c)))
              else contains names.output (lower (name c))
                || is_nil names.infos
                || any (λ t. has_column t (name c)) names.infos))
  unfolding column_ok unnamed qualifier
  column_ok-parts c =
      let q = lower (table_of c) in
      let named = candidates names q in
      ground (
        arith,
        is_nil-any named,
        not_nil-owners schema (name c) (sorted named),
        any-sorted (owns schema (name c)) named,
        not_nil-filter (λ t. has_column t (name c)) names.infos,
      )
