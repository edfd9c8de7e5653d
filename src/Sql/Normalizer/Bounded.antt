-- ===== src/Sql/Normalizer/Bounded.antt =====
-- The limit that `enforce_limit` of src/text_to_sql/sql/normalizer.py leaves on a query.
use build_your_own_text2sql.Base.{
  ℕ, ◌<◌, ◌≤◌, ◌≡◌, refl, true, ◌&&◌, Option, none, some, ltb, arith, if◌then◌else◌, Bool-cases,
  inl, inr, Option-cases,
}
use build_your_own_text2sql.Sqlglot.{SqlGlot, NodeClass}
use build_your_own_text2sql.Sql.Normalizer.{
  unknown_limit, literal_value, limit_value, is_query, with_max, enforce_limit,
}

module _ (sg : SqlGlot) where
  open sg use {
    Expression, Node, is_instance, limit_arg, inner_expression, is_int, int_value, copy, with_limit,
  }

  literal_int : Option Node → Option ℕ
  literal_int none = none
  literal_int (some n) =
      if is_instance n NodeClass.literal && is_int n then some (int_value n) else none

  -- The integer literal of a statement's own LIMIT, if it has one.
  unfoldable pub row_limit : Expression → Option ℕ
  unfolding literal_int
  row_limit e = elim (limit_arg e) [
    | none ↦ none
    | some n ↦ literal_int (if is_instance n NodeClass.limit then inner_expression n else some n)
  ]

  -- What SQLGlot documents of `limit(n)`: the copy has the literal `n` as its limit.
  pub record LimitLaws : Type 0 where
    pub row_limit-with_limit : (e : Expression) (n : ℕ) → row_limit (with_limit e n) ≡ some n

  row_limit_of_literal_value :
      (o : Option Node) (k : ℕ)
      → k < unknown_limit
      → literal_value sg o ≡ some k
      → literal_int o ≡ some k
  unfolding literal_value literal_int
  row_limit_of_literal_value none k lt h = cc
  row_limit_of_literal_value (some n) k lt h = ground arith

  row_limit_of_limit_value :
      (e : Expression) (k : ℕ)
      → k < unknown_limit
      → limit_value sg (limit_arg e) ≡ some k
      → row_limit e ≡ some k
  unfolding limit_value row_limit
  row_limit_of_limit_value e k lt h = elim (Option-cases (limit_arg e)) [
    | inl absent ↦ cc (rw (absent, limit_value) at h)
    | inr (n, found) ↦
        rw (found, row_limit)
          (row_limit_of_literal_value
            (if is_instance n NodeClass.limit then inner_expression n else some n) k lt
            (rw (found, limit_value) at h))
  ]

  module _ (laws : LimitLaws) where
    with_max-row_limit :
        (e : Expression) (max_rows : ℕ) (current : Option ℕ)
        → max_rows < unknown_limit
        → limit_value sg (limit_arg e) ≡ current
        → (row_limit (with_max sg e max_rows current).expression
            ≡ some (with_max sg e max_rows current).effective_limit)
          × ((with_max sg e max_rows current).effective_limit ≤ max_rows)
    unfolding with_max
    with_max-row_limit e max_rows none lt h = (laws.row_limit-with_limit e max_rows, omega arith)
    with_max-row_limit e max_rows (some k) lt h = elim (Bool-cases (ltb max_rows k)) [
      | inl over ↦ rw over (laws.row_limit-with_limit e max_rows, omega arith)
      | inr within ↦ rw within (row_limit_of_limit_value e k (ground arith) h, ground arith)
    ]

    -- A query leaves `enforce_limit` with a literal limit of its own, the effective one, and that is
    -- at most `max_rows`, when `max_rows` is below the value that stands for a limit that is no
    -- integer literal.
    pub enforce_limit-row_limit :
        (e : Expression) (max_rows : ℕ)
        → is_query sg (copy e) ≡ true
        → max_rows < unknown_limit
        → (row_limit (enforce_limit sg e max_rows).expression
            ≡ some (enforce_limit sg e max_rows).effective_limit)
          × ((enforce_limit sg e max_rows).effective_limit ≤ max_rows)
    unfolding enforce_limit
    enforce_limit-row_limit e max_rows q lt =
        rw q (with_max-row_limit (copy e) max_rows (limit_value sg (limit_arg (copy e))) lt refl)
