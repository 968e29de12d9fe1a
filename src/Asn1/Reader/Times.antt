-- ===== src/Asn1/Reader/Times.antt =====
-- src/asn1/asn1parse.c: UTCTime and GeneralizedTime. The clock of src/asn1/asn1time.c, whose cache
-- they may fill, is a second part of the state.
use slim_data_crypt.Common.{
  ℕ, suc, ◌+◌, ◌*◌, ◌-◌, Bool, ◌&&◌, List, Option, leb, ◌==◌, if◌then◌else◌, done, fail, Call,
  ◌>>=◌, ◌>>◌, return, require,
}
use slim_data_crypt.Common.{bad_format, on_first}
use slim_data_crypt.Common.Words.{byte_at}
use slim_data_crypt.Asn1.Tag
use slim_data_crypt.Asn1.Reader.{Reader, read_bytes, open_value}
use slim_data_crypt.Asn1.Time.{Moment, Clock, time_to_timestamp}

-- `s[0] < '0' || s[0] > '9'`, negated.
unfoldable pub is_digit : ℕ → Bool
is_digit b = leb 0x30 b && leb b 0x39

-- `parse_2_digits(buf + i, ..)`.
unfoldable pub parse_2_digits : List ℕ → ℕ → Call Reader ℕ
parse_2_digits buf i = do
  require (is_digit (byte_at buf i) && is_digit (byte_at buf (suc i))) bad_format
  return ((byte_at buf i - 0x30) * 10 + (byte_at buf (suc i) - 0x30))

-- `parse_4_digits(buf + i, ..)`.
unfoldable pub parse_4_digits : List ℕ → ℕ → Call Reader ℕ
parse_4_digits buf i = do
  high ← parse_2_digits buf i
  low ← parse_2_digits buf (suc (suc i))
  return (high * 100 + low)

-- The `size` bytes of a time of the given tag, the last of which is 'Z'.
unfoldable pub read_time_text : ℕ → ℕ → Call Reader (List ℕ)
read_time_text tag size = do
  len ← open_value tag
  require (len == size) bad_format
  buf ← read_bytes len
  require (byte_at buf (size - 1) == 0x5a) bad_format
  return buf

-- The five numbers behind the year, from `buf[i]` on.
unfoldable pub parse_moment : List ℕ → ℕ → ℕ → Call Reader Moment
parse_moment buf i year = do
  month ← parse_2_digits buf i
  day ← parse_2_digits buf (i + 2)
  hour ← parse_2_digits buf (i + 4)
  minute ← parse_2_digits buf (i + 6)
  second ← parse_2_digits buf (i + 8)
  return (record {
    year = year;
    month = month;
    day = day;
    hour = hour;
    minute = minute;
    second = second;
  })

unfoldable pub in_range : Moment → Bool
in_range m =
    leb 1 m.month
    && leb m.month 12
    && leb 1 m.day
    && leb m.day 31
    && leb m.hour 23
    && leb m.minute 59
    && leb m.second 59

-- The century of a two-digit year.
unfoldable pub full_year : ℕ → ℕ
full_year year = if leb 50 year then year + 1900 else year + 2000

-- `sdc_asn1_read_utctime` up to the call of `sdc_asn1_time_to_timestamp`.
unfoldable pub read_utc_moment : Call Reader Moment
read_utc_moment = do
  buf ← read_time_text Tag.utc_time 13
  year ← parse_2_digits buf 0
  m ← parse_moment buf 2 (full_year year)
  require (in_range m) bad_format
  return m

-- `sdc_asn1_read_generalized_time` up to that call.
unfoldable pub read_generalized_moment : Call Reader Moment
read_generalized_moment = do
  buf ← read_time_text Tag.generalized_time 15
  year ← parse_4_digits buf 0
  m ← parse_moment buf 4 year
  require (leb 1970 year && leb year 9999 && in_range m) bad_format
  return m

-- The timestamp of a date, of which 0 is an error.
unfoldable pub stamp : Option ℕ → Moment → Call (Reader × Clock) ℕ
stamp now m (r, c) =
    let (timestamp, c') = time_to_timestamp now m c in
    if timestamp == 0 then fail bad_format (r, c') else done timestamp (r, c')

-- `sdc_asn1_read_utctime`.
unfoldable pub read_utctime : Option ℕ → Call (Reader × Clock) ℕ
read_utctime now = do m ← on_first read_utc_moment; stamp now m

-- `sdc_asn1_read_generalized_time`.
unfoldable pub read_generalized_time : Option ℕ → Call (Reader × Clock) ℕ
read_generalized_time now = do m ← on_first read_generalized_moment; stamp now m
