-- ===== src/Asn1/Time/Tests.antt =====
-- Concrete dates, and the theorems on the calendar, the cache and UTCTime at concrete inputs.
use slim_data_crypt.Common.{
  ◌+◌, ◌-◌, ◌<◌, ◌≡◌, ◌⊎◌, refl, arith, true, false, [], none, if◌then◌else◌,
}
use slim_data_crypt.Asn1.Time.{
  Moment, Clock, timestamp_to_ymdhms, time_to_timestamp, is_valid, days_before_year,
  get_current_year, locate, is_leap_year, days_in_year, days_in_month,
}
use slim_data_crypt.Asn1.Time.Loops.{total}
use slim_data_crypt.Asn1.Time.Calendar.{timestamp_of, days_to_year}
use slim_data_crypt.Asn1.Time.Gregorian.{IsGregorian, count, time_to_timestamp-count}
use slim_data_crypt.Asn1.Time.Early.{days_before_year_early}
use slim_data_crypt.Asn1.Time.Cache.{
  IsCoherent, IsRecent, time_to_timestamp-timestamp_of, time_to_timestamp-IsCoherent,
}

-- 2000-02-29 12:34:56.
abbrev leap_moment : Moment
leap_moment = record { year = 2000; month = 2; day = 29; hour = 12; minute = 34; second = 56 }

leap_number : timestamp_of leap_moment ≡ 951827696
unfolding timestamp_of total days_in_year days_in_month is_leap_year
leap_number = refl

leap_date : timestamp_to_ymdhms 951827696 ≡ leap_moment
unfolding timestamp_to_ymdhms locate days_in_year days_in_month is_leap_year
leap_date = refl

-- A clock that was set to that time, with no cache.
abbrev leap_clock : Clock
leap_clock = record {
  days_cache = [];
  cache_start_year = 0;
  cache_initialized = false;
  user_timestamp = 951827696;
  user_time_set = true;
}

pub leap_clock-IsCoherent : IsCoherent leap_clock
leap_clock-IsCoherent = record { start = λ e. cc; entries = λ e. cc }

leap_clock-IsRecent : IsRecent none leap_clock
unfolding IsRecent get_current_year timestamp_to_ymdhms locate days_in_year days_in_month
    is_leap_year
leap_clock-IsRecent e = omega arith

time_to_timestamp-count_example :
    (IsGregorian leap_moment
      × ((time_to_timestamp none leap_moment leap_clock).0 ≡ count leap_moment))
    ⊎ (¬ IsGregorian leap_moment × ((time_to_timestamp none leap_moment leap_clock).0 ≡ 0))
time_to_timestamp-count_example =
    time_to_timestamp-count none leap_moment leap_clock leap_clock-IsCoherent leap_clock-IsRecent

time_to_timestamp-timestamp_of_example :
    (time_to_timestamp none leap_moment leap_clock).0
    ≡ (if is_valid leap_moment then timestamp_of leap_moment else 0)
time_to_timestamp-timestamp_of_example =
    time_to_timestamp-timestamp_of none leap_moment leap_clock leap_clock-IsCoherent
      leap_clock-IsRecent

time_to_timestamp-IsCoherent_example : IsCoherent (time_to_timestamp none leap_moment leap_clock).1
time_to_timestamp-IsCoherent_example =
    time_to_timestamp-IsCoherent none leap_moment leap_clock leap_clock-IsCoherent
      leap_clock-IsRecent

-- A clock that knows no time.
abbrev lost_clock : Clock
lost_clock = record leap_clock { user_time_set = false }

lost_clock_early : get_current_year none lost_clock < 2000
unfolding get_current_year
lost_clock_early = omega arith

days_before_year_early_example :
    let (days, c') = days_before_year none 1970 lost_clock in
    (c'.cache_start_year < 1970)
    × (days
        ≡ total days_in_year c'.cache_start_year (1970 - c'.cache_start_year) + days_to_year 1970)
days_before_year_early_example =
    days_before_year_early none 1970 lost_clock refl lost_clock_early (omega arith) (omega arith)
