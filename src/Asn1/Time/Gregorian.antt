-- ===== src/Asn1/Time/Gregorian.antt =====
-- The calendar of src/asn1/asn1time.c against the Gregorian rule in closed form: sums of quotients,
-- with no table of months and no test for a leap year.
use slim_data_crypt.Common.{
  ℕ, zero, suc, ◌+◌, ◌-◌, ◌*◌, ◌/◌, ◌≤◌, ◌<◌, ◌≡◌, ◌⊎◌, inl, inr, refl, ap, ◌∙◌, Option, Bool-cases,
  ltb, if◌then◌else◌, arith,
}
use slim_data_crypt.Asn1.Time.{
  Moment, Clock, is_leap_year, days_in_year, days_in_month, is_valid, time_to_timestamp,
}
use slim_data_crypt.Asn1.Time.Loops.{total, total-suc}
use slim_data_crypt.Asn1.Time.Calendar.{timestamp_of, IsDate}
use slim_data_crypt.Asn1.Time.Cache.{
  IsCoherent, IsRecent, is_valid-IsDate, time_to_timestamp-timestamp_of,
}

-- How many years from 1 to `n` have a leap day.
unfoldable pub leap_days : ℕ → ℕ
leap_days n = n / 4 + n / 400 - n / 100

-- 1 in a leap year, else 0.
unfoldable pub leap_day : ℕ → ℕ
leap_day year = leap_days year - leap_days (year - 1)

-- The days of the year before its month `m`, from 1 to 13.
unfoldable pub days_before_month : ℕ → ℕ → ℕ
days_before_month year m =
    let even = (367 * m - 362) / 12 in if ltb 2 m then even - 2 + leap_day year else even

-- The seconds from 1970-01-01 00:00:00, before which 477 leap days lie.
unfoldable pub count : Moment → ℕ
count m =
    (365 * (m.year - 1970)
        + leap_days (m.year - 1)
        - 477
        + days_before_month m.year m.month
        + (m.day - 1))
      * 86400
    + m.hour * 3600
    + m.minute * 60
    + m.second

-- A date and a time of day from 1970 to 9999.
pub record IsGregorian (m : Moment) : Type 0 where
  pub from_epoch : 1970 ≤ m.year
  pub year_to : m.year ≤ 9999
  pub month_from : 1 ≤ m.month
  pub month_to : m.month ≤ 12
  pub day_from : 1 ≤ m.day
  pub day_to : days_before_month m.year m.month + m.day ≤ days_before_month m.year (m.month + 1)
  pub hour_to : m.hour < 24
  pub minute_to : m.minute < 60
  pub second_to : m.second < 60

leap_day_lem : (z : ℕ) → leap_days z + days_in_year (suc z) ≡ 365 + leap_days (suc z)
unfolding leap_days days_in_year is_leap_year
leap_day_lem z = ground arith

years_lem : (n : ℕ) → total days_in_year 1970 n + 477 ≡ 365 * n + leap_days (1969 + n)
unfolding total leap_days
years_lem zero = refl
years_lem (suc n) =
    let next : 1969 + suc n ≡ suc (1969 + n) = omega arith in
    omega (
      arith,
      total-suc days_in_year n 1970,
      years_lem n,
      leap_day_lem (1969 + n),
      ap leap_days next,
      ap days_in_year (let e : 1970 + n ≡ suc (1969 + n) = omega arith in e),
    )

leap_day_if : (y : ℕ) → 1 ≤ y → leap_day y ≡ (if is_leap_year y then 1 else 0)
unfolding leap_day days_in_year
leap_day_if zero h = absurd (omega arith)
leap_day_if (suc z) h = let e : suc z - 1 ≡ z = omega arith in rw e (ground (arith, leap_day_lem z))

months_lem : (y k : ℕ) → k ≤ 12 → 1 ≤ y → total (days_in_month y) 1 k ≡ days_before_month y (suc k)
unfolding total days_in_month days_before_month
months_lem y zero h l = ground (arith, leap_day_if y l)
months_lem y (suc zero) h l = ground (arith, leap_day_if y l)
months_lem y (suc (suc zero)) h l = ground (arith, leap_day_if y l)
months_lem y (suc (suc (suc zero))) h l = ground (arith, leap_day_if y l)
months_lem y (suc (suc (suc (suc zero)))) h l = ground (arith, leap_day_if y l)
months_lem y (suc (suc (suc (suc (suc zero))))) h l = ground (arith, leap_day_if y l)
months_lem y (suc (suc (suc (suc (suc (suc zero)))))) h l = ground (arith, leap_day_if y l)
months_lem y (suc (suc (suc (suc (suc (suc (suc zero))))))) h l = ground (arith, leap_day_if y l)
months_lem y (suc (suc (suc (suc (suc (suc (suc (suc zero)))))))) h l =
    ground (arith, leap_day_if y l)
months_lem y (suc (suc (suc (suc (suc (suc (suc (suc (suc zero))))))))) h l =
    ground (arith, leap_day_if y l)
months_lem y (suc (suc (suc (suc (suc (suc (suc (suc (suc (suc zero)))))))))) h l =
    ground (arith, leap_day_if y l)
months_lem y (suc (suc (suc (suc (suc (suc (suc (suc (suc (suc (suc zero))))))))))) h l =
    ground (arith, leap_day_if y l)
months_lem y (suc (suc (suc (suc (suc (suc (suc (suc (suc (suc (suc (suc zero)))))))))))) h l =
    ground (arith, leap_day_if y l)
months_lem y (suc (suc (suc (suc (suc (suc (suc (suc (suc (suc (suc (suc (suc k))))))))))))) h l =
    absurd (omega arith)

-- The months up to one, and it.
month_length :
    (y m : ℕ)
    → 1 ≤ y
    → 1 ≤ m
    → m ≤ 12
    → (total (days_in_month y) 1 (m - 1) ≡ days_before_month y m)
      × (days_before_month y m + days_in_month y m ≡ days_before_month y (m + 1))
month_length y m l a b =
    let place : suc (m - 1) ≡ m = omega arith in
    let before = months_lem y (m - 1) (omega arith) l ∙ ap (days_before_month y) place in
    (
      before,
      omega (
        arith,
        before,
        total-suc (days_in_month y) (m - 1) 1,
        months_lem y m b l,
        ap (total (days_in_month y) 1) place,
        ap (days_in_month y) (let e : 1 + (m - 1) ≡ m = omega arith in e),
        ap (days_before_month y) (let e : suc m ≡ m + 1 = omega arith in e),
      ),
    )

IsDate-IsGregorian : (m : Moment) → IsDate m → m.year ≤ 9999 → IsGregorian m
IsDate-IsGregorian m d h =
    let (before, own) =
      month_length m.year m.month (omega (arith, d.from_epoch)) d.month_from d.month_to in
    record {
      from_epoch = d.from_epoch;
      year_to = h;
      month_from = d.month_from;
      month_to = d.month_to;
      day_from = d.day_from;
      day_to = omega (arith, own, d.day_to);
      hour_to = d.hour_to;
      minute_to = d.minute_to;
      second_to = d.second_to;
    }

IsGregorian-IsDate : (m : Moment) → IsGregorian m → IsDate m
IsGregorian-IsDate m g =
    let (before, own) =
      month_length m.year m.month (omega (arith, g.from_epoch)) g.month_from g.month_to in
    record {
      from_epoch = g.from_epoch;
      month_from = g.month_from;
      month_to = g.month_to;
      day_from = g.day_from;
      day_to = omega (arith, own, g.day_to);
      hour_to = g.hour_to;
      minute_to = g.minute_to;
      second_to = g.second_to;
    }

timestamp_of-count : (m : Moment) → IsGregorian m → timestamp_of m ≡ count m
unfolding timestamp_of count
timestamp_of-count m g =
    let (before, own) =
      month_length m.year m.month (omega (arith, g.from_epoch)) g.month_from g.month_to in
    let place : 1969 + (m.year - 1970) ≡ m.year - 1 = omega (arith, g.from_epoch) in
    omega (arith, years_lem (m.year - 1970), ap leap_days place, before)

-- With a coherent cache, or with none and a current year from 2000 on, and a time of day that is
-- not negative: either the date and time are Gregorian, from 1970 to 9999, and
-- `sdc_asn1_time_to_timestamp` returns the seconds from 1970-01-01 by the closed form, or they are
-- not, and it returns 0.
pub time_to_timestamp-count :
    (now : Option ℕ) (m : Moment) (c : Clock)
    → IsCoherent c
    → IsRecent now c
    → (IsGregorian m × ((time_to_timestamp now m c).0 ≡ count m))
      ⊎ (¬ IsGregorian m × ((time_to_timestamp now m c).0 ≡ 0))
time_to_timestamp-count now m c k recent =
    let run = time_to_timestamp-timestamp_of now m c k recent in
    elim (Bool-cases (is_valid m)) [
      | inl e ↦
          let (d, h) = (is_valid-IsDate m).0 e in
          let g = IsDate-IsGregorian m d h in inl (g, (rw e at run) ∙ timestamp_of-count m g)
      | inr e ↦ inr (
        (λ g. let yes = (is_valid-IsDate m).1 (IsGregorian-IsDate m g, g.year_to) in cc),
        rw e at run,
      )
    ]
