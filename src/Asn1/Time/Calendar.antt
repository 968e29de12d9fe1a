-- ===== src/Asn1/Time/Calendar.antt =====
-- Timestamps and dates of src/asn1/asn1time.c.
use slim_data_crypt.Common.{
  ℕ, suc, ◌+◌, ◌-◌, ◌*◌, ◌/◌, ◌%◌, ◌≤◌, ◌<◌, ◌≡◌, refl, ap, Bool-cases, inl, inr, arith,
}
use slim_data_crypt.Asn1.Time.{
  Moment, is_leap_year, days_in_year, days_in_month, locate, timestamp_to_ymdhms,
}
use slim_data_crypt.Asn1.Time.Loops.{total-add, total-suc, total, locate-total, located, le-total}

-- The days of the months make up the year.
months_of_year : (y : ℕ) → total (days_in_month y) 1 12 ≡ days_in_year y
unfolding total days_in_month days_in_year
months_of_year y = elim (Bool-cases (is_leap_year y)) [ inl e ↦ rw e refl | inr e ↦ rw e refl ]

pub days_in_year_bounds : (y : ℕ) → (0 < days_in_year y) × (days_in_year y ≤ 366)
unfolding days_in_year
days_in_year_bounds y = ground arith

-- The days from 1970-01-01 to the first of January of a year.
abbrev pub days_to_year : ℕ → ℕ
days_to_year year = total days_in_year 1970 (year - 1970)

-- The number of a timestamp that a date stands for.
unfoldable pub timestamp_of : Moment → ℕ
timestamp_of m =
    (days_to_year m.year + total (days_in_month m.year) 1 (m.month - 1) + (m.day - 1)) * 86400
    + m.hour * 3600
    + m.minute * 60
    + m.second

-- A date of the calendar from 1970 on, and a time of day.
pub record IsDate (m : Moment) : Type 0 where
  pub from_epoch : 1970 ≤ m.year
  pub month_from : 1 ≤ m.month
  pub month_to : m.month ≤ 12
  pub day_from : 1 ≤ m.day
  pub day_to : m.day ≤ days_in_month m.year m.month
  pub hour_to : m.hour < 24
  pub minute_to : m.minute < 60
  pub second_to : m.second < 60

-- A day of the calendar is found by the two loops, and only by them.
record Found (days year month day : ℕ) : Type 0 where
  by_years :
      locate days_in_year (suc days) 1970 days
      ≡ (year, total (days_in_month year) 1 (month - 1) + day)
  by_months :
      locate (days_in_month year) 12 1 (total (days_in_month year) 1 (month - 1) + day)
      ≡ (month, day)

-- The days of the months before one, and its own, lie in the year.
pub month_in_year :
    (y m : ℕ) → m < 12 → total (days_in_month y) 1 m + days_in_month y (1 + m) ≤ days_in_year y
month_in_year y m h = omega (
  arith,
  months_of_year y,
  total-add (days_in_month y) (suc m) (11 - m) 1,
  total-suc (days_in_month y) m 1,
  ap (total (days_in_month y) 1) (let e : suc m + (11 - m) ≡ 12 = omega arith in e),
)

found :
    (years months day : ℕ)
    → months < 12
    → day < days_in_month (1970 + years) (1 + months)
    → Found
        (total days_in_year 1970 years + (total (days_in_month (1970 + years)) 1 months + day))
        (1970 + years)
        (1 + months)
        day
found years months day h l =
    let y = 1970 + years in
    let same : 1 + months - 1 ≡ months = omega arith in
    record {
      by_years = rw same (
          locate-total days_in_year years _ 1970 _
            (omega (arith, le-total days_in_year (λ j. (days_in_year_bounds j).0) years 1970))
            (omega (arith, month_in_year y months h)));
      by_months = rw same (locate-total (days_in_month y) months 12 1 day h l);
    }

-- What `timestamp_to_ymdhms` makes of a count of days and a time of day.
abbrev assemble : ℕ → ℕ → ℕ → ℕ → Moment
assemble days hour minute second =
    let in_year = locate days_in_year (suc days) 1970 days in
    let in_month = locate (days_in_month in_year.0) 12 1 in_year.1 in
    record {
      year = in_year.0;
      month = in_month.0;
      day = in_month.1 + 1;
      hour = hour;
      minute = minute;
      second = second;
    }

assemble-Found :
    {days year month day : ℕ} (hour minute second : ℕ)
    → Found days year month day
    → assemble days hour minute second ≡ record {
      year = year;
      month = month;
      day = day + 1;
      hour = hour;
      minute = minute;
      second = second;
    }
assemble-Found hour minute second f = rw (f.by_years, f.by_months)

-- The date of a timestamp, with the sum that it was found by.
record Dated (ts : ℕ) : Type 0 where
  years : ℕ
  months : ℕ
  day : ℕ
  twelve : months < 12
  in_month : day < days_in_month (1970 + years) (1 + months)
  adds_up :
      total days_in_year 1970 years + (total (days_in_month (1970 + years)) 1 months + day)
      ≡ ts / 60 / 60 / 24
  shape : timestamp_to_ymdhms ts ≡ record {
    year = 1970 + years;
    month = 1 + months;
    day = day + 1;
    hour = ts / 60 / 60 % 24;
    minute = ts / 60 % 60;
    second = ts % 60;
  }

dated : (ts : ℕ) → Dated ts
unfolding timestamp_to_ymdhms
dated ts =
    let days = ts / 60 / 60 / 24 in
    let in_range : days < total days_in_year 1970 (suc days) =
      omega (arith, le-total days_in_year (λ j. (days_in_year_bounds j).0) (suc days) 1970) in
    let by_year = located days_in_year (suc days) 1970 days in_range in
    let y = 1970 + by_year.steps in
    let by_month =
      located (days_in_month y) 12 1 by_year.rest
        (omega (arith, months_of_year y, by_year.within)) in
    let sum : total days_in_year 1970 by_year.steps
          + (total (days_in_month y) 1 by_month.steps + by_month.rest)
        ≡ days =
      omega (arith, by_year.adds_up, by_month.adds_up) in
    record {
      years = by_year.steps;
      months = by_month.steps;
      day = by_month.rest;
      twelve = by_month.few;
      in_month = by_month.within;
      adds_up = sum;
      shape = assemble-Found (ts / 60 / 60 % 24) (ts / 60 % 60) (ts % 60) (
          rw sum at
            (found by_year.steps by_month.steps by_month.rest by_month.few by_month.within));
    }

-- Every timestamp has a date of the calendar.
pub timestamp_to_ymdhms-IsDate : (ts : ℕ) → IsDate (timestamp_to_ymdhms ts)
timestamp_to_ymdhms-IsDate ts =
    let d = dated ts in
    rw d.shape (record {
      from_epoch = omega arith;
      month_from = omega arith;
      month_to = omega (arith, d.twelve);
      day_from = omega arith;
      day_to = omega (arith, d.in_month);
      hour_to = omega arith;
      minute_to = omega arith;
      second_to = omega arith;
    })

-- The sum that the date was found by, with years that do not end.
pub number_of_date : (ts : ℕ) → timestamp_of (timestamp_to_ymdhms ts) ≡ ts
unfolding timestamp_of
number_of_date ts =
    let d = dated ts in
    let year : 1970 + d.years - 1970 ≡ d.years = omega arith in
    let month : 1 + d.months - 1 ≡ d.months = omega arith in
    rw (d.shape, year, month) (omega (arith, d.adds_up))
