-- ===== src/Semantic/Dates/Calendar.antt =====
-- The calendar of Python's `datetime`, as src/text_to_sql/semantic/dates.py uses it.
pub mod Order
use build_your_own_text2sql.Base.{
  ℕ, zero, suc, ◌+◌, ◌-◌, ◌*◌, ◌/◌, ◌%◌, Bool, not, ◌&&◌, ◌||◌, ◌==◌, leb, ltb, if◌then◌else◌,
}

pub record Date : Type 0 where
  pub year : ℕ
  pub month : ℕ
  pub day : ℕ

unfoldable pub is_leap : ℕ → Bool
is_leap year = year % 4 == 0 && (not (year % 100 == 0) || year % 400 == 0)

-- `calendar.monthrange(year, month)[1]`
unfoldable pub days_in_month : ℕ → ℕ → ℕ
days_in_month year month =
    if month == 2
    then (if is_leap year then 29 else 28)
    else (if month == 4 || (month == 6 || (month == 9 || month == 11)) then 30 else 31)

unfoldable pub previous_day : Date → Date
previous_day d =
    if ltb 1 d.day
    then record d { day = d.day - 1 }
    else if ltb 1 d.month
    then record { year = d.year; month = d.month - 1; day = days_in_month d.year (d.month - 1) }
    else record { year = d.year - 1; month = 12; day = 31 }

unfoldable pub next_day : Date → Date
next_day d =
    if ltb d.day (days_in_month d.year d.month)
    then record d { day = d.day + 1 }
    else if ltb d.month 12
    then record { year = d.year; month = d.month + 1; day = 1 }
    else record { year = d.year + 1; month = 1; day = 1 }

-- `d - timedelta(days=n)`; the year 0 stands for a date that raises
unfoldable pub minus_days : ℕ → Date → Date
minus_days zero d = d
minus_days (suc n) d = minus_days n (previous_day d)

days_before_month : ℕ → ℕ → ℕ
days_before_month year zero = 0
days_before_month year (suc zero) = 0
days_before_month year (suc (suc m)) = days_before_month year (suc m) + days_in_month year (suc m)

-- `date.toordinal()`
unfoldable pub ordinal : Date → ℕ
unfolding days_before_month
ordinal d =
    (d.year - 1) * 365
    + (d.year - 1) / 4
    - (d.year - 1) / 100
    + (d.year - 1) / 400
    + days_before_month d.year d.month
    + d.day

-- `date.weekday()`: 0 is Monday
unfoldable pub weekday : Date → ℕ
weekday d = (ordinal d + 6) % 7
