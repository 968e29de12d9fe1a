-- ===== src/Asn1/RoundTrip/Times.antt =====
-- A timestamp through UTCTime, whose years have two digits: the writer of src/asn1/asn1write.c, then
-- the reader of src/asn1/asn1parse.c.
use slim_data_crypt.Common.{
  ℕ, ◌≤◌, ◌<◌, ◌≡◌, refl, ap, ◌∙◌, true, false, List, ◌++◌, arith, leb, ◌==◌, Option, All, IsByte,
  if◌then◌else◌, done, fail,
}
use slim_data_crypt.Common.{bad_format}
use slim_data_crypt.Asn1.Tag
use slim_data_crypt.Asn1.Der.{tlv, length-tlv_short}
use slim_data_crypt.Asn1.Time.{Moment, Clock, timestamp_to_ymdhms, time_to_timestamp, is_valid}
use slim_data_crypt.Asn1.Time.Calendar.{IsDate, timestamp_to_ymdhms-IsDate, number_of_date}
use slim_data_crypt.Asn1.Time.Cache.{
  IsCoherent, IsRecent, is_valid-IsDate, time_to_timestamp-timestamp_of,
}
use slim_data_crypt.Asn1.Writer.{Writer}
use slim_data_crypt.Asn1.Writer.Prepend.{IsReady, output}
use slim_data_crypt.Asn1.Writer.Times.{
  format_utctime, write_utctime, length-format_utctime, format_utctime-IsByte,
  write_utctime-Prepends,
}
use slim_data_crypt.Asn1.Reader.{Reader}
use slim_data_crypt.Asn1.Reader.View.{Holds}
use slim_data_crypt.Asn1.Reader.Times.{full_year, stamp, read_utctime}
use slim_data_crypt.Asn1.RoundTrip.{Written, Prepends-Written}
use slim_data_crypt.Asn1.RoundTrip.Values.{tlv-IsByte}
use slim_data_crypt.Asn1.RoundTrip.Dates.{seen_year, read_utc_moment-Reads}
use slim_data_crypt.Asn1.Time.Cache.{time_to_timestamp-IsCoherent}

-- The reader gets the timestamp, with the given clock, and stands behind it.
pub record ReadsTime (now : Option ℕ) (c : Clock) (r : Reader) (timestamp : ℕ) (rest : List ℕ)
    : Type 0 where
  pub last : Reader
  pub clock : Clock
  pub returns : read_utctime now (r, c) ≡ done timestamp (last, clock)
  pub coherent : IsCoherent clock
  pub holds : Holds last rest

-- The reader refuses the time.
pub record RefusesTime (now : Option ℕ) (c : Clock) (r : Reader) : Type 0 where
  pub last : Reader
  pub clock : Clock
  pub returns : read_utctime now (r, c) ≡ fail bad_format (last, clock)

stamped :
    (now : Option ℕ) (m : Moment) (r : Reader) (c : Clock) (timestamp : ℕ)
    → (time_to_timestamp now m c).0 ≡ timestamp
    → stamp now m (r, c) ≡ (
        if timestamp == 0
        then fail bad_format (r, (time_to_timestamp now m c).1)
        else done timestamp (r, (time_to_timestamp now m c).1))
unfolding stamp
stamped now m r c timestamp e =
    ap
      (λ t.
        if t == 0
        then fail bad_format (r, (time_to_timestamp now m c).1)
        else done t (r, (time_to_timestamp now m c).1))
      e

read_date :
    (now : Option ℕ) (c : Clock) (m : Moment) (rest : List ℕ) {r : Reader} (timestamp : ℕ)
    → IsCoherent c
    → IsRecent now c
    → IsDate m
    → Holds r (tlv Tag.utc_time (format_utctime m) ++ rest)
    → (time_to_timestamp now (record m { year = seen_year m.year }) c).0 ≡ timestamp
    → ¬ (timestamp ≡ 0)
    → ReadsTime now c r timestamp rest
unfolding read_utctime
read_date now c m rest timestamp k recent d holds value some_time =
    let got = read_utc_moment-Reads m rest d holds in
    let seen = record m { year = seen_year m.year } in
    let positive : (timestamp == 0) ≡ false = ground arith in
    record {
      last = got.last;
      clock = (time_to_timestamp now seen c).1;
      returns = rw got.returns (stamped now seen got.last c timestamp value ∙ rw positive refl);
      coherent = time_to_timestamp-IsCoherent now seen c k recent;
      holds = got.holds;
    }

seen_year_same : (year : ℕ) → 1970 ≤ year → year < 2050 → seen_year year ≡ year
unfolding full_year
seen_year_same year lo hi = ground arith

seen_year_early : (year : ℕ) → 2050 ≤ year → year < 2070 → seen_year year < 1970
unfolding full_year
seen_year_early year lo hi = ground arith

-- A valid date's number, with any clock.
valid_timestamp :
    (now : Option ℕ) (c : Clock) (timestamp : ℕ)
    → IsCoherent c
    → IsRecent now c
    → (timestamp_to_ymdhms timestamp).year < 2050
    → (time_to_timestamp now (timestamp_to_ymdhms timestamp) c).0 ≡ timestamp
valid_timestamp now c timestamp k recent near =
    let m = timestamp_to_ymdhms timestamp in
    let valid : is_valid m ≡ true =
      (is_valid-IsDate m).1 (timestamp_to_ymdhms-IsDate timestamp, omega arith) in
    time_to_timestamp-timestamp_of now m c k recent ∙ rw valid (number_of_date timestamp)

-- A year before 1970 has no number.
early_timestamp :
    (now : Option ℕ) (c : Clock) (m : Moment) → m.year < 1970 → (time_to_timestamp now m c).0 ≡ 0
unfolding time_to_timestamp is_valid
early_timestamp now c m early =
    let refused : leb 1970 m.year ≡ false = ground arith in rw refused refl

module _ (w : Writer) (ready : IsReady w) (bytes : All IsByte w.bytes) (now : Option ℕ)
    (c : Clock) where
  written_time :
      (timestamp : ℕ) (P : Reader → Type 0)
      → 15 ≤ w.pos
      → ((r : Reader)
          → Holds r (tlv Tag.utc_time (format_utctime (timestamp_to_ymdhms timestamp)) ++ output w)
          → P r)
      → Written (write_utctime timestamp) w P
  written_time timestamp P room read =
      let m = timestamp_to_ymdhms timestamp in
      let size = length-format_utctime m in
      Prepends-Written w _ P (write_utctime-Prepends timestamp) ready bytes
        (tlv-IsByte Tag.utc_time (format_utctime m) (omega arith) (omega arith)
          (format_utctime-IsByte m))
        (omega (arith, length-tlv_short Tag.utc_time (format_utctime m) (omega arith))) read

  -- With 15 bytes of room a timestamp from 1 to the end of the year 2049 is written as a UTCTime
  -- that reads back as it, whatever the clock, if its cache is coherent, or there is none and the
  -- current year is 2000 or later.
  pub utctime_roundtrip :
      (timestamp : ℕ)
      → ¬ (timestamp ≡ 0)
      → (timestamp_to_ymdhms timestamp).year < 2050
      → 15 ≤ w.pos
      → IsCoherent c
      → IsRecent now c
      → Written (write_utctime timestamp) w (λ r. ReadsTime now c r timestamp (output w))
  utctime_roundtrip timestamp some_time near room k recent =
      let m = timestamp_to_ymdhms timestamp in
      let d = timestamp_to_ymdhms-IsDate timestamp in
      let same : seen_year m.year ≡ m.year = seen_year_same m.year d.from_epoch near in
      written_time timestamp _ room λ r holds.
        read_date now c m (output w) timestamp k recent d holds
          (ap (λ year. (time_to_timestamp now (record m { year = year }) c).0) same
            ∙ valid_timestamp now c timestamp k recent near)
          some_time

  -- A timestamp of the years 2050 to 2069 is written as well, but the reader takes its year for
  -- one of 1950 to 1969 and refuses it.
  pub utctime_refused :
      (timestamp : ℕ)
      → 2050 ≤ (timestamp_to_ymdhms timestamp).year
      → (timestamp_to_ymdhms timestamp).year < 2070
      → 15 ≤ w.pos
      → Written (write_utctime timestamp) w (RefusesTime now c)
  utctime_refused timestamp lo hi room =
      let m = timestamp_to_ymdhms timestamp in
      let seen = record m { year = seen_year m.year } in
      let none_left = early_timestamp now c seen (seen_year_early m.year lo hi) in
      written_time timestamp _ room λ r holds.
        let got = read_utc_moment-Reads m (output w) (timestamp_to_ymdhms-IsDate timestamp) holds in
        record {
          last = got.last;
          clock = (time_to_timestamp now seen c).1;
          returns = unfold read_utctime in rw got.returns (stamped now seen got.last c 0 none_left);
        }
