-- ===== src/Examples/Calendar.antt =====
-- The theorems on relative dates.
use build_your_own_text2sql.Base.{◌≡◌, refl, arith}
use build_your_own_text2sql.Base.Text.{lower}
use build_your_own_text2sql.Semantic.Dates.Phrases.{phrases_runs}
use build_your_own_text2sql.Semantic.Dates.Calendar.Order.{IsDate}
use build_your_own_text2sql.Semantic.Dates.{
  Datetime, ResolvedDateRange, resolved, resolve_relative_date, dates_runs,
}
use build_your_own_text2sql.Semantic.Dates.Ordered.{
  IsBefore, resolve_relative_date-IsBefore, IsLastQuarter, resolve_relative_date-IsLastQuarter,
}

abbrev leap_day : Datetime
leap_day = record { date = record { year = 2024; month = 3; day = 1 }; micros = 3600 }

abbrev yesterday_range : ResolvedDateRange
yesterday_range = record {
  start = record { date = record { year = 2024; month = 2; day = 29 }; micros = 3600 };
  end = leap_day;
  description = "the last 1 days";
  matched_phrase = "past  1 day";
}

leap_day-IsDate : IsDate leap_day.date
leap_day-IsDate = record {
  month_from = omega arith;
  month_to = omega arith;
  day_from = omega arith;
  day_to = omega arith;
}

past_day : resolve_relative_date "Sales in the Past  1 day?" leap_day ≡ resolved yesterday_range
unfolding dates_runs phrases_runs
past_day = refl

resolve_relative_date-IsBefore_example : IsBefore yesterday_range.start yesterday_range.end
resolve_relative_date-IsBefore_example =
    resolve_relative_date-IsBefore "Sales in the Past  1 day?" leap_day yesterday_range
      leap_day-IsDate (omega arith) past_day

resolve_relative_date-IsLastQuarter_example :
    (r : ResolvedDateRange) × (resolve_relative_date "revenue last quarter" leap_day ≡ resolved r)
    × IsLastQuarter leap_day r
unfolding lower phrases_runs
resolve_relative_date-IsLastQuarter_example =
    resolve_relative_date-IsLastQuarter "revenue last quarter" leap_day refl refl leap_day-IsDate
      (omega arith) (omega arith)
