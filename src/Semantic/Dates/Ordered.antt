-- ===== src/Semantic/Dates/Ordered.antt =====
-- The windows of src/text_to_sql/semantic/dates.py run forwards, and the completed periods are next to
-- the current one.
use mathlib.Core.Path.{subst}
use build_your_own_text2sql.Base.{
  ℕ, ◌+◌, ◌*◌, ◌%◌, ◌≤◌, ◌<◌, ◌≡◌, refl, true, sym, ap, ◌∙◌, ◌⊎◌, inl, inr, String, Bool, ◌&&◌,
  Option, none, some, List, [], ◌∷◌, arith, Bool-cases, and-eq-true, ltb, ltb→lt, if◌then◌else◌,
}
use build_your_own_text2sql.Base.Lists.{All}
use build_your_own_text2sql.Base.Text.{lower}
use build_your_own_text2sql.Semantic.Dates.Phrases.{find_days, has_phrase}
use build_your_own_text2sql.Semantic.Dates.Calendar.{minus_days, weekday}
use build_your_own_text2sql.Semantic.Dates.Calendar.Order.{
  date_key, IsDate, minus_days-year, minus_days-date_key, next_day-date_key,
}
use build_your_own_text2sql.Semantic.Dates.{
  Datetime, ResolvedDateRange, Resolution, unresolved, out_of_range, resolved, add_month,
  quarter_of, quarter_start, month_before, named_ranges, in_range, checked, first_range, days_range,
  resolve_relative_date, range,
}

-- the order of times
abbrev pub IsBefore : Datetime → Datetime → Type 0
IsBefore s e =
    (date_key s.date < date_key e.date)
    ⊎ ((date_key s.date ≡ date_key e.date) × (s.micros ≤ e.micros))

-- a range that runs forwards, if its start is in range
Forwards : ResolvedDateRange → Type 0
Forwards r = 0 < r.start.date.year → IsBefore r.start r.end

resolved-injective : (x y : ResolvedDateRange) → resolved x ≡ resolved y → x ≡ y
resolved-injective x y h = ap (λ r. elim r [ unresolved ↦ x | out_of_range ↦ x | resolved z ↦ z ]) h

checked-IsBefore :
    (x r : ResolvedDateRange) → Forwards x → checked x ≡ resolved r → IsBefore r.start r.end
unfolding checked in_range Forwards
checked-IsBefore x r f h = elim (Bool-cases (in_range x.start && in_range x.end)) [
  | inl good ↦
      let same =
        resolved-injective x r (sym (ap (λ b. if b then resolved x else out_of_range) good) ∙ h) in
      let both = and-eq-true (in_range x.start) (in_range x.end) good in
      let year = and-eq-true (ltb 0 x.start.date.year) (ltb x.start.date.year 10000) both.0 in
      subst (λ y. IsBefore y.start y.end) same (f (ltb→lt 0 x.start.date.year year.0))
  | inr bad ↦ absurd (cc (sym (ap (λ b. if b then resolved x else out_of_range) bad) ∙ h))
]

first_range-IsBefore :
    (ps : List (Bool × ResolvedDateRange)) (r : ResolvedDateRange)
    → All (λ p. Forwards p.1) ps
    → first_range ps ≡ resolved r
    → IsBefore r.start r.end
unfolding first_range
first_range-IsBefore [] r fs h = absurd (cc h)
first_range-IsBefore ((found, x) ∷ rest) r fs h = elim (Bool-cases found) [
  | inl yes_found ↦
      checked-IsBefore x r fs.0
        (sym (ap (λ b. if b then checked x else first_range rest) yes_found) ∙ h)
  | inr other ↦
      first_range-IsBefore rest r fs.1
        (sym (ap (λ b. if b then checked x else first_range rest) other) ∙ h)
]

-- at most the same date at the same time
IsBefore-or_same :
    (a b : Datetime) → date_key a.date ≤ date_key b.date → a.micros ≤ b.micros → IsBefore a b
IsBefore-or_same a b h k = ground (arith)

named_ranges-Forwards :
    (text : String) (now : Datetime)
    → IsDate now.date
    → 1 ≤ now.date.year
    → All (λ p. Forwards p.1) (named_ranges text now)
unfolding named_ranges Forwards add_month quarter_of
named_ranges-Forwards text now v y =
    let monday = minus_days (weekday now.date) now.date in
    (
      λ h. inl (omega arith),
      (
        λ h. IsBefore-or_same _ now (omega (arith, v.month_from, v.day_from)) (omega arith),
        (
          λ h. inl (omega (arith, v.month_from)),
          (
            λ h. IsBefore-or_same _ now (omega (arith, v.day_from)) (omega arith),
            (
              λ h. inl (omega arith),
              (
                λ h. IsBefore-or_same _ now (omega (arith, v.month_from, v.day_from)) (omega arith),
                (
                  λ h.
                      let w =
                        minus_days-date_key (weekday now.date) now.date v
                          (omega (arith, h, minus_days-year 7 monday)) in
                      IsBefore-or_same _ _ (minus_days-date_key 7 monday w.0 h).1 (omega arith),
                  (
                    λ h. inl (
                        next_day-date_key (minus_days 1 now.date)
                          (minus_days-date_key 1 now.date v h).0),
                    (λ h. inl (next_day-date_key now.date v), tt),
                  ),
                ),
              ),
            ),
          ),
        ),
      ),
    )

days_range-IsBefore :
    (now : Datetime) (found : Option (ℕ × String)) (otherwise : Resolution) (r : ResolvedDateRange)
    → IsDate now.date
    → (otherwise ≡ resolved r → IsBefore r.start r.end)
    → days_range now found otherwise ≡ resolved r
    → IsBefore r.start r.end
unfolding days_range Forwards
days_range-IsBefore now none otherwise r v rest h = rest h
days_range-IsBefore now (some (days, phrase)) otherwise r v rest h =
    checked-IsBefore _ r
      (λ y. IsBefore-or_same _ now (minus_days-date_key days now.date v y).1 (omega arith)) h

-- Whatever phrase a question holds, the window that it resolves to does not end before it starts, for
-- a present date of a year from 1 on.
pub resolve_relative_date-IsBefore :
    (question : String) (now : Datetime) (r : ResolvedDateRange)
    → IsDate now.date
    → 1 ≤ now.date.year
    → resolve_relative_date question now ≡ resolved r
    → IsBefore r.start r.end
unfolding resolve_relative_date
resolve_relative_date-IsBefore question now r v y h =
    days_range-IsBefore now (find_days (lower question)) _ r v
      (first_range-IsBefore (named_ranges (lower question) now) r
        (named_ranges-Forwards (lower question) now v y))
      h

-- The three months up to the quarter that a time is in, from midnight to midnight.
pub record IsLastQuarter (now : Datetime) (r : ResolvedDateRange) : Type 0 where
  pub three_months :
      r.start.date.year * 12 + r.start.date.month + 3 ≡ r.end.date.year * 12 + r.end.date.month
  pub quarter_from : r.start.date.month % 3 ≡ 1
  pub first_days : (r.start.date.day ≡ 1) × (r.end.date.day ≡ 1)
  pub midnights : (r.start.micros ≡ 0) × (r.end.micros ≡ 0)
  pub this_year : r.end.date.year ≡ now.date.year
  pub before_now : r.end.date.month ≤ now.date.month
  pub within_quarter : now.date.month < r.end.date.month + 3

-- A question with the phrase "last quarter", and no number of days before it in the order of the
-- tests, resolves, at a present date of a year from 2 to 9999, to the three months before the
-- current quarter: from midnight of the first of January, April, July or October to midnight of the
-- first day of the quarter that the present month is in.
pub resolve_relative_date-IsLastQuarter :
    (question : String) (now : Datetime)
    → find_days (lower question) ≡ none
    → has_phrase ("last" ∷ "quarter" ∷ []) (lower question) ≡ true
    → IsDate now.date
    → 2 ≤ now.date.year
    → now.date.year < 10000
    → (r : ResolvedDateRange) × (resolve_relative_date question now ≡ resolved r)
      × IsLastQuarter now r
unfolding resolve_relative_date days_range first_range named_ranges checked in_range add_month
    quarter_of
resolve_relative_date-IsLastQuarter question now no_days phrase v from to =
    let window : ResolvedDateRange =
      range (month_before 3 (quarter_start now)) (quarter_start now)
        "the last completed calendar quarter" "last quarter" in
    let starts : in_range window.start ≡ true = ground (arith, v.month_from, from, to) in
    let ends : in_range window.end ≡ true = ground (arith, from, to) in
    (
      window,
      rw no_days (rw phrase (rw starts (rw ends refl))),
      record {
        three_months = omega (arith, from, v.month_from);
        quarter_from = omega (arith, from, v.month_from, v.month_to);
        first_days = (refl, refl);
        midnights = (refl, refl);
        this_year = refl;
        before_now = omega (arith, v.month_from);
        within_quarter = omega (arith, v.month_from);
      },
    )
