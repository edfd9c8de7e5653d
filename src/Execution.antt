-- ===== src/Execution.antt =====
-- Read-only execution: src/text_to_sql/execution/executor.py. The database is a parameter: what it
-- answers to the statements of a session, and what a cursor yields. Durations are not modelled.
pub mod Capped
use build_your_own_text2sql.Base.{
  ◌≡◌, refl, true, ℕ, suc, ◌+◌, String, Bool, true, false, ◌||◌, Option, none, some, List, [], ◌∷◌,
  ◌++◌, map, ltb, if◌then◌else◌,
}
use build_your_own_text2sql.Base.Lists.{length, take}
use build_your_own_text2sql.Base.Text.{◌+s◌, lower, has_substring, decimal}
use build_your_own_text2sql.Common.Errors.{
  EngineError, raise_error, execution_failure, reason_detail,
}
use build_your_own_text2sql.Domain.Enums.{SqlDialect, postgres, sqlite}

-- A value of the driver: `P` holds Python's bool, int, float and str, `D` its Decimal.
pub data DbValue (P D : Type 0) : Type 0 where
  null : DbValue P D
  primitive : P → DbValue P D
  decimal_value : D → DbValue P D
  temporal : String → DbValue P D
  binary : DbValue P D
  other_value : String → DbValue P D

pub record ExecutionResult (P : Type 0) : Type 0 where
  pub columns : List String
  pub rows : List (List (Option P))
  pub row_count : ℕ
  pub truncated : Bool

-- What a session answers: a driver error with its text, or a cursor.
pub data Answer (C : Type 0) : Type 0 where
  driver_error : String → Answer C
  cursor : C → Answer C

-- The driver: its values, its cursors, and what a session answers to its statements, in order.
pub record Driver (P D : Type 0) : Type 1 where
  pub Cursor : Type 0
  pub as_float : D → P
  pub as_text : String → P
  pub run : List String → Answer Cursor
  pub keys : Cursor → List String
  pub fetchmany : Cursor → ℕ → List (List (DbValue P D))

pub data Executed (P : Type 0) : Type 0 where
  failed_with : EngineError → Executed P
  result_of : ExecutionResult P → Executed P

-- `_classify_db_error`
unfoldable pub classify_db_error : String → String
unfolding lower has_substring
classify_db_error message =
    let text_lower = lower message in
    if has_substring "timeout" text_lower || has_substring "canceling statement" text_lower
    then "statement_timeout"
    else (if has_substring "permission" text_lower
          || (has_substring "read-only" text_lower || has_substring "readonly" text_lower)
        then "read_only_violation"
        else (if has_substring "syntax" text_lower then "syntax_error" else "database_error"))

classify_db_error_runs :
    classify_db_error "ERROR: canceling statement due to statement timeout" ≡ "statement_timeout"
unfolding classify_db_error
classify_db_error_runs = refl

-- `_apply_session_guards`: the statements before the query's
unfoldable pub session_guards : SqlDialect → ℕ → List String
unfolding decimal
session_guards postgres timeout_ms =
    "SET TRANSACTION READ ONLY" ∷ ("SET LOCAL statement_timeout = " +s decimal timeout_ms) ∷ []
session_guards sqlite timeout_ms = []

module _ {P D : Type 0} (driver : Driver P D) where
  open driver use {Cursor, as_float, as_text, run, keys, fetchmany}

  -- `_to_jsonable`, where `none` is JSON's null
  unfoldable pub to_jsonable : DbValue P D → Option P
  to_jsonable null = none
  to_jsonable (primitive v) = some v
  to_jsonable (decimal_value d) = some (as_float d)
  to_jsonable (temporal iso) = some (as_text iso)
  to_jsonable binary = some (as_text "«binary»")
  to_jsonable (other_value s) = some (as_text s)

  unfoldable pub capped : Cursor → ℕ → ExecutionResult P
  capped c max_rows =
      let fetched = fetchmany c (max_rows + 1) in
      let rows = map (map to_jsonable) (take max_rows fetched) in
      record {
        columns = keys c;
        rows = rows;
        row_count = length rows;
        truncated = ltb max_rows (length fetched);
      }

  unfoldable pub executed : ℕ → Answer Cursor → Executed P
  unfolding raise_error
  executed max_rows (driver_error message) = failed_with (
      raise_error execution_failure "The query could not be executed."
        (reason_detail (classify_db_error message)))
  executed max_rows (cursor c) = result_of (capped c max_rows)

  -- `ReadOnlyExecutor.execute`
  unfoldable pub execute_query : SqlDialect → ℕ → String → ℕ → Executed P
  execute_query dialect timeout_ms sql max_rows =
      executed max_rows (run (session_guards dialect timeout_ms ++ sql ∷ []))
