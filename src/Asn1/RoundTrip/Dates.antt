-- ===== src/Asn1/RoundTrip/Dates.antt =====
-- The dates of src/asn1/asn1write.c and of src/asn1/asn1parse.c, and the century.
use slim_data_crypt.Common.{
  ℕ, suc, ◌+◌, ◌-◌, ◌*◌, ◌/◌, ◌%◌, ◌<◌, ◌≡◌, refl, true, List, ◌++◌, length, arith, leb, ◌==◌, ◌&&◌,
  return,
}
use slim_data_crypt.Common.{bad_format}
use slim_data_crypt.Common.Words.{byte_at}
use slim_data_crypt.Asn1.Tag
use slim_data_crypt.Asn1.Der.{tlv}
use slim_data_crypt.Asn1.Time.{Moment}
use slim_data_crypt.Asn1.Time.Calendar.{IsDate}
use slim_data_crypt.Asn1.Time.Cache.{days_in_month-le}
use slim_data_crypt.Asn1.Writer.Times.{two_digits, format_utctime, length-format_utctime}
use slim_data_crypt.Asn1.Reader.{Reader}
use slim_data_crypt.Asn1.Reader.View.{
  Holds, Reads, Reads-bind, Reads-return, read_bytes-Reads, require-Reads,
}
use slim_data_crypt.Asn1.Reader.Contents.{open_tlv-Reads}
use slim_data_crypt.Asn1.Reader.Times.{
  is_digit, parse_2_digits, parse_moment, read_time_text, in_range, full_year, read_utc_moment,
}
use mathlib.Core.Path.{subst}

-- Two digits that were written.
parse_2_digits-Reads :
    (x i : ℕ) (buf rest : List ℕ) {r : Reader}
    → x < 100
    → byte_at buf i ≡ 0x30 + x / 10 % 10
    → byte_at buf (suc i) ≡ 0x30 + x % 10
    → Holds r rest
    → Reads (parse_2_digits buf i) r x rest
unfolding parse_2_digits is_digit
parse_2_digits-Reads x i buf rest {r} h tens ones holds =
    let value : (byte_at buf i - 0x30) * 10 + (byte_at buf (suc i) - 0x30) ≡ x = omega arith in
    require-Reads
      (leb 0x30 (byte_at buf i)
        && leb (byte_at buf i) 0x39
        && (leb 0x30 (byte_at buf (suc i)) && leb (byte_at buf (suc i)) 0x39))
      bad_format (ground arith)
      λ _.
        subst
          (λ v.
            Reads (return ((byte_at buf i - 0x30) * 10 + (byte_at buf (suc i) - 0x30))) r v rest)
          value (Reads-return _ holds)

-- The year that a reader of UTCTime takes a two-digit year for.
abbrev pub seen_year : ℕ → ℕ
seen_year year = full_year (year % 100)

read_time_text-Reads :
    (m : Moment) (rest : List ℕ) {r : Reader}
    → Holds r (tlv Tag.utc_time (format_utctime m) ++ rest)
    → Reads (read_time_text Tag.utc_time 13) r (format_utctime m) rest
unfolding read_time_text
read_time_text-Reads m rest holds =
    let size = length-format_utctime m in
    Reads-bind _ (open_tlv-Reads Tag.utc_time (format_utctime m) rest (omega arith) holds) λ s hs.
      require-Reads (length (format_utctime m) == 13) bad_format (ground arith) λ _.
        Reads-bind _ (read_bytes-Reads (format_utctime m) rest _ hs refl) λ s hs.
          require-Reads (byte_at (format_utctime m) 12 == 0x5a) bad_format
            (unfold format_utctime two_digits in refl) λ _. Reads-return _ hs

parse_moment-Reads :
    (m : Moment) (year : ℕ) (rest : List ℕ) {r : Reader}
    → IsDate m
    → Holds r rest
    → Reads (parse_moment (format_utctime m) 2 year) r (record m { year = year }) rest
unfolding parse_moment format_utctime two_digits
parse_moment-Reads m year rest d holds =
    Reads-bind _ (parse_2_digits-Reads m.month 2 _ rest (omega (arith, d.month_to)) refl refl holds)
      λ s hs.
        Reads-bind _
          (parse_2_digits-Reads m.day 4 _ rest
            (omega (arith, d.day_to, days_in_month-le m.year m.month)) refl refl hs)
          λ s hs.
            Reads-bind _
              (parse_2_digits-Reads m.hour 6 _ rest (omega (arith, d.hour_to)) refl refl hs)
              λ s hs.
                Reads-bind _
                  (parse_2_digits-Reads m.minute 8 _ rest (omega (arith, d.minute_to)) refl refl hs)
                  λ s hs.
                    Reads-bind _
                      (parse_2_digits-Reads m.second 10 _ rest (omega (arith, d.second_to)) refl
                        refl hs)
                      λ s hs. Reads-return _ hs

in_range-IsDate : (m : Moment) (year : ℕ) → IsDate m → in_range (record m { year = year }) ≡ true
unfolding in_range
in_range-IsDate m year d = ground (
  arith,
  d.month_from,
  d.month_to,
  d.day_from,
  d.day_to,
  d.hour_to,
  d.minute_to,
  d.second_to,
  days_in_month-le m.year m.month,
)

pub read_utc_moment-Reads :
    (m : Moment) (rest : List ℕ) {r : Reader}
    → IsDate m
    → Holds r (tlv Tag.utc_time (format_utctime m) ++ rest)
    → Reads read_utc_moment r (record m { year = seen_year m.year }) rest
unfolding read_utc_moment
read_utc_moment-Reads m rest d holds = Reads-bind _ (read_time_text-Reads m rest holds) λ s hs.
    Reads-bind _
      (parse_2_digits-Reads (m.year % 100) 0 (format_utctime m) rest (omega arith)
        (unfold format_utctime two_digits in refl) (unfold format_utctime two_digits in refl) hs)
      λ s hs. Reads-bind _ (parse_moment-Reads m (seen_year m.year) rest d hs) λ s hs.
        require-Reads (in_range (record m { year = seen_year m.year })) bad_format
          (in_range-IsDate m _ d) λ _. Reads-return _ hs
