-- ===== src/Asn1/Time.antt =====
-- src/asn1/asn1time.c: the calendar, and the cache of days before each year around the current
-- one. The static variables are the state `Clock`; what `time(NULL)` returns is an argument,
-- `none` for -1. Years are from 1970 on, so that they and the cache's start are no negative
-- numbers. Years that do not fit an `int`, from 2 ^ 31 on, where the C code is undefined, and
-- negative times of day, which the guards of `sdc_asn1_time_to_timestamp` let through, are outside
-- the model.
use slim_data_crypt.Common.{
  ℕ, zero, suc, ◌+◌, ◌-◌, ◌*◌, ◌/◌, ◌%◌, Bool, true, false, ◌&&◌, ◌||◌, not, List, [], ◌∷◌, Option,
  none, some, ltb, leb, ◌==◌, if◌then◌else◌, get_or, u64,
}
pub mod Loops
pub mod Calendar
pub mod Cache
pub mod Early
pub mod Gregorian
mod Tests

-- A date and a time of day.
pub record Moment : Type 0 where
  pub year : ℕ
  pub month : ℕ
  pub day : ℕ
  pub hour : ℕ
  pub minute : ℕ
  pub second : ℕ

unfoldable pub is_leap_year : ℕ → Bool
is_leap_year year = (year % 4 == 0 && not (year % 100 == 0)) || year % 400 == 0

unfoldable pub days_in_year : ℕ → ℕ
days_in_year year = if is_leap_year year then 366 else 365

abbrev pub month_lengths : List ℕ
month_lengths = 31 ∷ 28 ∷ 31 ∷ 30 ∷ 31 ∷ 30 ∷ 31 ∷ 31 ∷ 30 ∷ 31 ∷ 30 ∷ 31 ∷ []

unfoldable pub days_in_month : ℕ → ℕ → ℕ
days_in_month year month =
    if ltb month 1 || ltb 12 month
    then 0
    else (if month == 2 && is_leap_year year then 29 else get_or month_lengths (month - 1) 0)

-- The loops that look for a year and for a month: `while (t >= size(i)) { t -= size(i); i++; }`
-- within the given number of rounds.
unfoldable pub locate : (ℕ → ℕ) → ℕ → ℕ → ℕ → ℕ × ℕ
locate size zero i t = (i, t)
locate size (suc rounds) i t =
    let rest = locate size rounds (i + 1) (t - size i) in if ltb t (size i) then (i, t) else rest

-- The loops that add up: `for (; n > 0; n--, i++) days += size(i)`.
unfoldable pub add_up : (ℕ → ℕ) → ℕ → ℕ → ℕ → ℕ
add_up size zero i days = days
add_up size (suc n) i days = add_up size n (i + 1) (days + size i)

-- `timestamp_to_ymdhms`, for timestamps whose year fits an `int`: about 6.7e16 and more overflow it
-- in C. Each year takes days off, so one round for each day is enough.
unfoldable pub timestamp_to_ymdhms : ℕ → Moment
timestamp_to_ymdhms ts =
    let days = ts / 60 / 60 / 24 in
    let in_year = locate days_in_year (suc days) 1970 days in
    let in_month = locate (days_in_month in_year.0) 12 1 in_year.1 in
    record {
      year = in_year.0;
      month = in_month.0;
      day = in_month.1 + 1;
      hour = ts / 60 / 60 % 24;
      minute = ts / 60 % 60;
      second = ts % 60;
    }

-- The static variables.
pub record Clock : Type 0 where
  pub days_cache : List ℕ
  pub cache_start_year : ℕ
  pub cache_initialized : Bool
  pub user_timestamp : ℕ
  pub user_time_set : Bool

abbrev pub cache_range : ℕ
cache_range = 30

abbrev pub cache_elements : ℕ
cache_elements = cache_range * 2 + 1

unfoldable pub get_current_year : Option ℕ → Clock → ℕ
get_current_year now c =
    if c.user_time_set
    then (timestamp_to_ymdhms c.user_timestamp).year
    else (elim now [ none ↦ 0 | some t ↦ (timestamp_to_ymdhms t).year ])

-- The loop that fills the cache, from year `y` on, which `days` come before.
unfoldable pub fill_cache : ℕ → ℕ → ℕ → List ℕ
fill_cache zero y days = []
fill_cache (suc n) y days = days ∷ fill_cache n (y + 1) (days + days_in_year y)

-- What `init_cache` does to a clock with no cache. The loop up to the first year makes no round
-- for a year before 1970, as `-` stops at 0.
unfoldable pub build_cache : Option ℕ → Clock → Clock
build_cache now c =
    let seen = get_current_year now c in
    let start = (if seen == 0 then 1970 else seen) - cache_range in
    record c {
      cache_start_year = start;
      days_cache = fill_cache cache_elements start (add_up days_in_year (start - 1970) 1970 0);
      cache_initialized = true;
    }

unfoldable pub init_cache : Option ℕ → Clock → Clock
init_cache now c = if c.cache_initialized then c else build_cache now c

unfoldable pub days_before_year : Option ℕ → ℕ → Clock → ℕ × Clock
days_before_year now year c =
    let c' = init_cache now c in
    let offset = year - c'.cache_start_year in
    if leb c'.cache_start_year year && ltb offset cache_elements
    then (get_or c'.days_cache offset 0, c')
    else (add_up days_in_year (year - 1970) 1970 0, c')

-- The guards of `sdc_asn1_time_to_timestamp`, for a time of day that is not negative: `hour`, `min`
-- and `sec` are tested from above only.
unfoldable pub is_valid : Moment → Bool
is_valid m =
    leb 1970 m.year
    && leb m.year 9999
    && leb 1 m.month
    && leb m.month 12
    && leb 1 m.day
    && leb m.day 31
    && leb m.hour 23
    && leb m.minute 59
    && leb m.second 59
    && leb m.day (days_in_month m.year m.month)

-- Its sum, from the days before the year on.
unfoldable pub seconds_at : ℕ → Moment → ℕ
seconds_at before m =
    let days = add_up (days_in_month m.year) (m.month - 1) 1 before + (m.day - 1) in
    u64 (days * 86400 + m.hour * 3600 + m.minute * 60 + m.second)

-- `sdc_asn1_time_to_timestamp`, 0 where it refuses.
unfoldable pub time_to_timestamp : Option ℕ → Moment → Clock → ℕ × Clock
time_to_timestamp now m c =
    if is_valid m
    then (let (before, c') = days_before_year now m.year c in (seconds_at before m, c'))
    else (0, c)

-- `sdc_asn1_time_set_current`.
unfoldable pub set_current : ℕ → Clock → Clock
set_current timestamp c = record c {
  user_timestamp = timestamp;
  user_time_set = not (timestamp == 0);
  cache_initialized = false;
}

-- `sdc_asn1_time_cache_refresh`.
unfoldable pub cache_refresh : Clock → Clock
cache_refresh c = record c { cache_initialized = false }

-- `sdc_asn1_time_get_cache_range`.
unfoldable pub get_cache_range : Option ℕ → Clock → (ℕ × ℕ) × Clock
get_cache_range now c =
    let c' = init_cache now c in
    ((c'.cache_start_year, c'.cache_start_year + cache_elements - 1), c')

-- `sdc_asn1_time_now`; `none` is SDC_ERR_TIME_FAIL, for which it writes 0.
unfoldable pub time_now : Option ℕ → Clock → Option ℕ
time_now now c = if c.user_time_set then some c.user_timestamp else now
