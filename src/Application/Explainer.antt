-- ===== src/Application/Explainer.antt =====
-- The explanations of src/text_to_sql/application/explainer.py. How a value is shown (grouping of digits,
-- redaction) is a parameter. `none` stands for an index that is out of range.
pub mod InRange
use build_your_own_text2sql.Base.{
  ℕ, zero, suc, ◌-◌, String, Bool, ◌&&◌, ◌||◌, Option, none, some, List, [], ◌∷◌, ◌++◌, map, leb,
  ltb, ◌==◌, if◌then◌else◌, ◌>>=◌,
}
use build_your_own_text2sql.Base.Lists.{length, take}
use build_your_own_text2sql.Base.Text.{◌+s◌, join, decimal}
use build_your_own_text2sql.Execution.{ExecutionResult}

abbrev pub nothing_found : String
nothing_found = "The query returned no matching rows."

-- `xs[i]`
unfoldable pub at_index {ℓ} : {A : Type ℓ} → List A → ℕ → Option A
at_index [] i = none
at_index (x ∷ xs) zero = some x
at_index (x ∷ xs) (suc i) = at_index xs i

module _ {P : Type 0} (shown : P → String) where
  -- `_fmt`
  unfoldable pub fmt : Option P → String
  fmt none = "NULL"
  fmt (some v) = shown v

  -- `f"{_fmt(row[0])}: {_fmt(row[1])}"`
  unfoldable pub pair_text : List (Option P) → Option String
  unfolding fmt
  pair_text (label ∷ value ∷ rest) = some (fmt label +s ": " +s fmt value)
  pair_text (label ∷ []) = none
  pair_text [] = none

  unfoldable pub preview : List (List (Option P)) → Option (List String)
  unfolding pair_text
  preview [] = some []
  preview (row ∷ rows) = do text ← pair_text row; texts ← preview rows; some (text ∷ texts)

  unfoldable pub scalar_facts : ExecutionResult P → Option String
  unfolding at_index fmt
  scalar_facts r = do
    row ← at_index r.rows 0
    value ← at_index row 0
    name ← at_index r.columns 0
    some ("The result is " +s name +s " = " +s fmt value +s ".")

  unfoldable pub ranking_facts : ExecutionResult P → Option String
  unfolding at_index preview join decimal
  ranking_facts r = do
    label ← at_index r.columns 0
    value ← at_index r.columns 1
    texts ← preview (take 5 r.rows)
    some (
        "Returned "
        +s decimal r.row_count
        +s " rows of "
        +s value
        +s " by "
        +s label
        +s ". Top: "
        +s join ", " texts
        +s (if leb r.row_count 5 then "" else " (and " +s decimal (r.row_count - 5) +s " more)")
        +s ".")

  -- `_facts`
  unfoldable pub facts : ExecutionResult P → Option String
  unfolding scalar_facts ranking_facts join decimal
  facts r =
      if r.row_count == 0
      then some nothing_found
      else if r.row_count == 1 && length r.columns == 1
      then scalar_facts r
      else if length r.columns == 2 && leb r.row_count 100
      then ranking_facts r
      else some (
          "Returned "
          +s decimal r.row_count
          +s " rows with columns: "
          +s join ", " r.columns
          +s ".")

  -- the assumptions, where there are any
  unfoldable pub with_assumptions : String → List String → String
  unfolding join
  with_assumptions facts_text [] = facts_text
  with_assumptions facts_text (a ∷ rest) =
      facts_text +s " " +s "Assumptions: " +s join "; " (a ∷ rest) +s "."

  unfoldable pub warnings_of : ExecutionResult P → ℕ → Bool → List String
  unfolding decimal
  warnings_of r confidence truncated_note =
      (if truncated_note || r.truncated
        then ("Results were truncated to "
            +s decimal r.row_count
            +s " rows; refine the question or add filters to see the full set.")
          ∷ []
        else [])
      ++ (if ltb confidence 50
          then "Low generation confidence — verify the SQL matches your intent." ∷ []
          else [])

  -- `explain`, with the confidence in hundredths
  unfoldable pub explain_result :
      ExecutionResult P → List String → ℕ → Bool → Option (String × List String)
  unfolding facts with_assumptions warnings_of
  explain_result r assumptions confidence truncated_note = do
    facts_text ← facts r
    some (with_assumptions facts_text assumptions, warnings_of r confidence truncated_note)
