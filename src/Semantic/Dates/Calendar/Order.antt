-- ===== src/Semantic/Dates/Calendar/Order.antt =====
-- The order of dates under the steps of the calendar of src/text_to_sql/semantic/dates.py.
use build_your_own_text2sql.Base.{
  ℕ, zero, suc, ◌+◌, ◌*◌, ◌-◌, ◌≤◌, ◌<◌, arith, if-split, ltb, ltb→lt,
}
use build_your_own_text2sql.Semantic.Dates.Calendar.{
  Date, days_in_month, previous_day, next_day, minus_days,
}

-- a date's place in the order of dates
abbrev pub date_key : Date → ℕ
date_key d = (d.year * 12 + d.month) * 32 + d.day

pub record IsDate (d : Date) : Type 0 where
  pub month_from : 1 ≤ d.month
  pub month_to : d.month ≤ 12
  pub day_from : 1 ≤ d.day
  pub day_to : d.day ≤ 31

days_in_month-bounds :
    (year month : ℕ) → (1 ≤ days_in_month year month) × (days_in_month year month ≤ 31)
unfolding days_in_month
days_in_month-bounds year month = ground arith

previous_day-date_key :
    (d : Date)
    → IsDate d
    → 1 ≤ d.year
    → IsDate (previous_day d) × (date_key (previous_day d) < date_key d)
unfolding previous_day
previous_day-date_key d v y =
    let b = days_in_month-bounds d.year (d.month - 1) in
    if-split (λ (x : Date). IsDate x × (date_key x < date_key d)) (ltb 1 d.day) _ _
      (λ h.
        let lt = ltb→lt 1 d.day h in
        (
          record {
            month_from = v.month_from;
            month_to = v.month_to;
            day_from = omega arith;
            day_to = omega (arith, v.day_to);
          },
          omega arith,
        ))
      (λ h.
        if-split (λ (x : Date). IsDate x × (date_key x < date_key d)) (ltb 1 d.month) _ _
          (λ k.
            let lt = ltb→lt 1 d.month k in
            (
              record {
                month_from = omega arith;
                month_to = omega (arith, v.month_to);
                day_from = b.0;
                day_to = b.1;
              },
              omega (arith, v.day_from, b.1),
            ))
          (λ k. (
            record {
              month_from = omega arith;
              month_to = omega arith;
              day_from = omega arith;
              day_to = omega arith;
            },
            omega (arith, y, v.month_from, v.day_from),
          )))

previous_day-year : (d : Date) → (previous_day d).year ≤ d.year
unfolding previous_day
previous_day-year d = ground arith

pub minus_days-year : (n : ℕ) (d : Date) → (minus_days n d).year ≤ d.year
unfolding minus_days
minus_days-year zero d = omega arith
minus_days-year (suc n) d = omega (arith, minus_days-year n (previous_day d), previous_day-year d)

-- Going back in days, as long as the year 1 is not left, goes back in the order.
pub minus_days-date_key :
    (n : ℕ) (d : Date)
    → IsDate d
    → 1 ≤ (minus_days n d).year
    → IsDate (minus_days n d) × (date_key (minus_days n d) ≤ date_key d)
unfolding minus_days
minus_days-date_key zero d v y = (v, omega arith)
minus_days-date_key (suc n) d v y =
    let (w, lt) =
      previous_day-date_key d v
        (omega (arith, minus_days-year n (previous_day d), previous_day-year d)) in
    let (u, le) = minus_days-date_key n (previous_day d) w y in (u, omega (arith, lt, le))

pub next_day-date_key : (d : Date) → IsDate d → date_key d < date_key (next_day d)
unfolding next_day
next_day-date_key d v =
    if-split (λ (x : Date). date_key d < date_key x) (ltb d.day (days_in_month d.year d.month)) _ _
      (λ h. omega arith)
      (λ h.
        if-split (λ (x : Date). date_key d < date_key x) (ltb d.month 12) _ _
          (λ k. omega (arith, v.day_to)) (λ k. omega (arith, v.day_to, v.month_to)))
