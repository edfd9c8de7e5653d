-- ===== src/Application/Explainer/InRange.antt =====
-- The explainer of src/text_to_sql/application/explainer.py reads no index out of range.
use build_your_own_text2sql.Base.{
  ℕ, zero, suc, ◌≤◌, ◌<◌, String, Bool, ◌&&◌, ◌≡◌, refl, arith, Option, none, some, List, [], ◌∷◌,
  leb, ◌==◌, if-split, ◌>>=◌,
}
use build_your_own_text2sql.Base.Lists.{length, take, All}
use build_your_own_text2sql.Execution.{ExecutionResult}
use build_your_own_text2sql.Application.Explainer.{
  at_index, pair_text, preview, scalar_facts, ranking_facts, facts, explain_result,
}

-- The result counts its rows, and each row has a value for each column.
pub record IsTable {P : Type 0} (r : ExecutionResult P) : Type 0 where
  pub counted : r.row_count ≡ length r.rows
  pub wide : All (λ (row : List (Option P)). length row ≡ length r.columns) r.rows

-- there is a value
IsPresent : {A : Type 0} → Option A → Type 0
IsPresent {A} o = (a : A) × (o ≡ some a)

present : {A : Type 0} (a : A) → IsPresent (some a)
unfolding IsPresent
present a = (a, refl)

bind-IsPresent :
    {A B : Type 0} (o : Option A) (f : A → Option B)
    → IsPresent o
    → ((a : A) → o ≡ some a → IsPresent (f a))
    → IsPresent (o >>= f)
unfolding IsPresent
bind-IsPresent none f (a, e) k = cc
bind-IsPresent (some b) f h k = k b refl

at_index-IsPresent : {A : Type 0} (xs : List A) (i : ℕ) → i < length xs → IsPresent (at_index xs i)
unfolding at_index IsPresent
at_index-IsPresent [] i h = absurd (omega arith)
at_index-IsPresent (x ∷ xs) zero h = (x, refl)
at_index-IsPresent (x ∷ xs) (suc i) h = at_index-IsPresent xs i (omega arith)

module _ {P : Type 0} where
  -- every row is as wide as asked
  abbrev Wide : ℕ → List (List (Option P)) → Type 0
  Wide n rows = All (λ (row : List (Option P)). length row ≡ n) rows

  Wide-take : (n k : ℕ) (rows : List (List (Option P))) → Wide n rows → Wide n (take k rows)
  Wide-take n zero rows h = tt
  Wide-take n (suc k) [] h = tt
  Wide-take n (suc k) (row ∷ rows) (h, hs) = (h, Wide-take n k rows hs)

  at_index-Wide :
      (n i : ℕ) (rows : List (List (Option P))) (row : List (Option P))
      → Wide n rows
      → at_index rows i ≡ some row
      → length row ≡ n
  unfolding at_index
  at_index-Wide n i [] row h e = cc
  at_index-Wide n zero (r ∷ rows) row (h, hs) e = ground arith
  at_index-Wide n (suc i) (r ∷ rows) row (h, hs) e = at_index-Wide n i rows row hs e

module _ {P : Type 0} (shown : P → String) where
  pair-IsPresent : (row : List (Option P)) → length row ≡ 2 → IsPresent (pair_text shown row)
  unfolding pair_text IsPresent
  pair-IsPresent [] h = absurd (omega arith)
  pair-IsPresent (a ∷ []) h = absurd (omega arith)
  pair-IsPresent (a ∷ b ∷ row) h = (_, refl)

  preview-IsPresent : (rows : List (List (Option P))) → Wide 2 rows → IsPresent (preview shown rows)
  unfolding preview
  preview-IsPresent [] h = present []
  preview-IsPresent (row ∷ rows) (h, hs) =
      bind-IsPresent (pair_text shown row) _ (pair-IsPresent row h) (λ text _.
        bind-IsPresent (preview shown rows) _ (preview-IsPresent rows hs) (λ texts _. present _))

  scalar-IsPresent :
      (r : ExecutionResult P)
      → IsTable r
      → 1 ≤ length r.rows
      → length r.columns ≡ 1
      → IsPresent (scalar_facts shown r)
  unfolding scalar_facts
  scalar-IsPresent r t h k =
      bind-IsPresent (at_index r.rows 0) _ (at_index-IsPresent r.rows 0 (omega arith)) (λ row e.
        bind-IsPresent (at_index row 0) _
          (at_index-IsPresent row 0
            (omega (arith, at_index-Wide (length r.columns) 0 r.rows row t.wide e)))
          (λ value _.
            bind-IsPresent (at_index r.columns 0) _ (at_index-IsPresent r.columns 0 (omega arith))
              (λ name _. present _)))

  ranking-IsPresent :
      (r : ExecutionResult P) → IsTable r → length r.columns ≡ 2 → IsPresent (ranking_facts shown r)
  unfolding ranking_facts
  ranking-IsPresent r t k =
      bind-IsPresent (at_index r.columns 0) _ (at_index-IsPresent r.columns 0 (omega arith))
        (λ label _.
          bind-IsPresent (at_index r.columns 1) _ (at_index-IsPresent r.columns 1 (omega arith))
            (λ value _.
              bind-IsPresent (preview shown (take 5 r.rows)) _
                (preview-IsPresent (take 5 r.rows) (Wide-take 2 5 r.rows (rw k at t.wide)))
                (λ texts _. present _)))

  facts-IsPresent : (r : ExecutionResult P) → IsTable r → IsPresent (facts shown r)
  unfolding facts
  facts-IsPresent r t =
      if-split IsPresent (r.row_count == 0) _ _ (λ _. present _)
        (λ some_rows.
          if-split IsPresent (r.row_count == 1 && length r.columns == 1) _ _
            (λ one. scalar-IsPresent r t (ground (arith, t.counted)) (ground arith))
            (λ _.
              if-split IsPresent (length r.columns == 2 && leb r.row_count 100) _ _
                (λ two. ranking-IsPresent r t (ground arith)) (λ _. present _)))

  -- A result that counts its rows, with a value for each column in each row, is explained: no index is out of
  -- range, however many rows and columns there are.
  pub explain_result_returns :
      (r : ExecutionResult P) (assumptions : List String) (confidence : ℕ) (truncated_note : Bool)
      → IsTable r
      → (e : String × List String) × (explain_result shown r assumptions confidence truncated_note
          ≡ some e)
  unfolding explain_result
  explain_result_returns r assumptions confidence truncated_note t =
      unfold IsPresent in
      bind-IsPresent (facts shown r) _ (facts-IsPresent r t) (λ text _. (_, refl))
