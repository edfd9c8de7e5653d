-- ===== src/Semantic/Dates.antt =====
-- Relative dates: src/text_to_sql/semantic/dates.py, with Python's calendar as far as it uses it. The
-- patterns' `\b`, `\s` and `\d` are exact on ASCII. A date outside the years 1 to 9999 raises, which is
-- `out_of_range`.
pub mod Phrases
pub mod Calendar
pub mod Ordered
use build_your_own_text2sql.Base.{
  ℕ, zero, suc, ◌+◌, ◌-◌, ◌*◌, ◌/◌, ◌%◌, String, Bool, Option, none, some, List, [], ◌∷◌, ltb,
  if◌then◌else◌, ◌||◌, ◌&&◌,
}
use build_your_own_text2sql.Base.Text.{◌+s◌, decimal, lower}
use build_your_own_text2sql.Semantic.Dates.Phrases.{has_phrase, find_days}
use build_your_own_text2sql.Semantic.Dates.Calendar.{
  Date, next_day, minus_days, weekday, previous_day, ordinal, is_leap, days_in_month,
}

-- `micros` is the time of the day in microseconds.
pub record Datetime : Type 0 where
  pub date : Date
  pub micros : ℕ

pub record ResolvedDateRange : Type 0 where
  pub start : Datetime
  pub end : Datetime
  pub description : String
  pub matched_phrase : String

pub data Resolution : Type 0 where
  unresolved out_of_range : Resolution
  resolved : ResolvedDateRange → Resolution

-- `datetime(year, month, day)`
abbrev pub midnight : Date → Datetime
midnight d = record { date = d; micros = 0 }

abbrev pub first_of : ℕ → ℕ → Datetime
first_of year month = midnight (record { year = year; month = month; day = 1 })

-- `_month_start`
abbrev pub month_start : Datetime → Datetime
month_start dt = first_of dt.date.year dt.date.month

-- `_add_month(year, month, -back)`
unfoldable pub add_month : ℕ → ℕ → ℕ → ℕ × ℕ
add_month year month back =
    let index = year * 12 + (month - 1) - back in (index / 12, index % 12 + 1)

-- `_quarter_of`
unfoldable pub quarter_of : ℕ → ℕ
quarter_of month = (month - 1) / 3

abbrev pub quarter_start : Datetime → Datetime
quarter_start now = first_of now.date.year (quarter_of now.date.month * 3 + 1)

abbrev pub month_before : ℕ → Datetime → Datetime
month_before back dt =
    first_of (add_month dt.date.year dt.date.month back).0
      (add_month dt.date.year dt.date.month back).1

abbrev pub range : Datetime → Datetime → String → String → ResolvedDateRange
range start end description phrase = record {
  start = start;
  end = end;
  description = description;
  matched_phrase = phrase;
}

abbrev pub days_before : ℕ → Datetime → Datetime
days_before n dt = record dt { date = minus_days n dt.date }

abbrev pub day_after : Datetime → Datetime
day_after dt = record dt { date = next_day dt.date }

-- the Monday of the week
abbrev pub week_start : Datetime → Datetime
week_start now = days_before (weekday now.date) (midnight now.date)

-- the phrases after "last N days", in the order of the tests, each with whether the text has it
unfoldable pub named_ranges : String → Datetime → List (Bool × ResolvedDateRange)
named_ranges text now =
    (
      has_phrase ("last" ∷ "quarter" ∷ []) text,
      range (month_before 3 (quarter_start now)) (quarter_start now)
          "the last completed calendar quarter" "last quarter",
    )
    ∷ (
      has_phrase ("this" ∷ "quarter" ∷ []) text,
      range (quarter_start now) now "the current quarter to date" "this quarter",
    )
    ∷ (
      has_phrase ("last" ∷ "month" ∷ []) text,
      range (month_before 1 now) (month_start now) "the last completed calendar month" "last month",
    )
    ∷ (
      has_phrase ("this" ∷ "month" ∷ []) text,
      range (month_start now) now "the current month to date" "this month",
    )
    ∷ (
      has_phrase ("last" ∷ "year" ∷ []) text,
      range (first_of (now.date.year - 1) 1) (first_of now.date.year 1) "the previous calendar year"
          "last year",
    )
    ∷ (
      has_phrase ("this" ∷ "year" ∷ []) text
          || has_phrase ("year" ∷ "to" ∷ "date" ∷ []) text
          || has_phrase ("ytd" ∷ []) text,
      range (first_of now.date.year 1) now "the current year to date" "this year",
    )
    ∷ (
      has_phrase ("last" ∷ "week" ∷ []) text,
      range (days_before 7 (week_start now)) (week_start now) "the last completed week" "last week",
    )
    ∷ (
      has_phrase ("yesterday" ∷ []) text,
      range (days_before 1 (midnight now.date)) (day_after (days_before 1 (midnight now.date)))
          "yesterday" "yesterday",
    )
    ∷ (
      has_phrase ("today" ∷ []) text,
      range (midnight now.date) (day_after (midnight now.date)) "today" "today",
    )
    ∷ []

in_range : Datetime → Bool
in_range dt = ltb 0 dt.date.year && ltb dt.date.year 10000

-- a range, unless one of its dates raises
unfoldable pub checked : ResolvedDateRange → Resolution
unfolding in_range
checked r = if in_range r.start && in_range r.end then resolved r else out_of_range

pub first_range : List (Bool × ResolvedDateRange) → Resolution
first_range [] = unresolved
first_range ((found, r) ∷ rest) = if found then checked r else first_range rest

pub days_range : Datetime → Option (ℕ × String) → Resolution → Resolution
days_range now none otherwise = otherwise
days_range now (some (days, phrase)) otherwise =
    checked (range (days_before days now) now ("the last " +s decimal days +s " days") phrase)

-- `resolve_relative_date`
pub resolve_relative_date : String → Datetime → Resolution
resolve_relative_date question now =
    days_range now (find_days (lower question)) (first_range (named_ranges (lower question) now))

-- Opens all that a resolution computes with.
unfoldable pub dates_runs : Unit {0}
unfolding resolve_relative_date days_range first_range checked in_range named_ranges add_month
    quarter_of minus_days previous_day next_day weekday ordinal is_leap days_in_month decimal lower
dates_runs = tt
