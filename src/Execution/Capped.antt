-- ===== src/Execution/Capped.antt =====
-- The row cap of `ReadOnlyExecutor.execute` of src/text_to_sql/execution/executor.py.
use build_your_own_text2sql.Base.{
  ℕ, zero, suc, ◌+◌, ◌≤◌, ◌≡◌, refl, ap, ◌∙◌, List, [], ◌∷◌, map, ltb, arith,
}
use build_your_own_text2sql.Base.Lists.{length, take, length-map, length-take}
use build_your_own_text2sql.Execution.{DbValue, Driver, capped, to_jsonable}

take-take-suc {ℓ} : {A : Type ℓ} (n : ℕ) (xs : List A) → take n (take (suc n) xs) ≡ take n xs
take-take-suc zero xs = refl
take-take-suc (suc n) [] = refl
take-take-suc (suc n) (x ∷ xs) = ap (λ ys. x ∷ ys) (take-take-suc n xs)

take_suc-exceeds {ℓ} :
    {A : Type ℓ} (n : ℕ) (xs : List A) → ltb n (length (take (n + 1) xs)) ≡ ltb n (length xs)
take_suc-exceeds n xs = ground (arith, length-take (n + 1) xs)

-- The contract of `fetchmany(n)`: the next rows of the cursor, `n` at most.
pub record CursorLaws {P D : Type 0} (driver : Driver P D) : Type 0 where
  pub pending : driver.Cursor → List (List (DbValue P D))
  pub fetches : (c : driver.Cursor) (n : ℕ) → driver.fetchmany c n ≡ take n (pending c)

module _ {P D : Type 0} (driver : Driver P D) (laws : CursorLaws driver) where
  -- The result holds the first `max_rows` rows of the query, each value made JSON-safe; it counts
  -- them, there are at most `max_rows`, and it is flagged as truncated exactly when the query has
  -- more rows than that.
  pub capped-IsPrefix :
      (c : driver.Cursor) (max_rows : ℕ)
      → ((capped driver c max_rows).rows
          ≡ map (map (to_jsonable driver)) (take max_rows (laws.pending c)))
        × ((capped driver c max_rows).row_count ≡ length (capped driver c max_rows).rows)
        × ((capped driver c max_rows).row_count ≤ max_rows)
        × ((capped driver c max_rows).truncated ≡ ltb max_rows (length (laws.pending c)))
  unfolding capped
  capped-IsPrefix c max_rows =
      let next : max_rows + 1 ≡ suc max_rows = omega arith in
      let rows = take max_rows (driver.fetchmany c (max_rows + 1)) in
      (
        ap (map (map (to_jsonable driver))) (
            ap (take max_rows)
              (laws.fetches c (max_rows + 1) ∙ ap (λ n. take n (laws.pending c)) next)
            ∙ take-take-suc max_rows (laws.pending c)),
        refl,
        omega (
          arith,
          length-map (map (to_jsonable driver)) rows,
          length-take max_rows (driver.fetchmany c (max_rows + 1)),
        ),
        ap (λ xs. ltb max_rows (length xs)) (laws.fetches c (max_rows + 1))
            ∙ take_suc-exceeds max_rows (laws.pending c),
      )
