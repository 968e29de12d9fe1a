-- ===== src/Asn1/Writer/Times.antt =====
-- src/asn1/asn1write.c: UTCTime. The file has its own copy of the calendar of src/asn1/asn1time.c,
-- with the same loops.
use slim_data_crypt.Common.{
  ℕ, ◌+◌, ◌/◌, ◌%◌, ◌≡◌, refl, List, [], ◌∷◌, some, length, Call, ◌>>◌, arith, All, IsByte,
}
use slim_data_crypt.Asn1.Tag
use slim_data_crypt.Asn1.Der.{tlv}
use slim_data_crypt.Asn1.Time.{Moment, timestamp_to_ymdhms}
use slim_data_crypt.Asn1.Writer.{Writer, write_bytes_rev, write_tlv_header_rev}
use slim_data_crypt.Asn1.Writer.Prepend.{Prepends}
use slim_data_crypt.Asn1.Writer.Encodings.{write_tlv-Prepends}

-- `'0' + (x / 10) % 10` and `'0' + x % 10`, in front of `rest`.
unfoldable pub two_digits : ℕ → List ℕ → List ℕ
two_digits x rest = (0x30 + x / 10 % 10) ∷ (0x30 + x % 10) ∷ rest

-- `format_utctime`.
unfoldable pub format_utctime : Moment → List ℕ
format_utctime m = two_digits (m.year % 100) (
    two_digits m.month (
      two_digits m.day (two_digits m.hour (two_digits m.minute (two_digits m.second (0x5a ∷ []))))))

-- `sdc_asn1_write_utctime`.
unfoldable pub write_utctime : ℕ → Call Writer (Unit {0})
write_utctime timestamp =
    let buf = format_utctime (timestamp_to_ymdhms timestamp) in
    do write_bytes_rev (some buf) 13; write_tlv_header_rev Tag.utc_time 13

pub length-format_utctime : (m : Moment) → length (format_utctime m) ≡ 13
unfolding format_utctime two_digits
length-format_utctime m = refl

two_digits-IsByte : (x : ℕ) (rest : List ℕ) → All IsByte rest → All IsByte (two_digits x rest)
unfolding two_digits
two_digits-IsByte x rest bytes =
    let ones : All IsByte ((0x30 + x % 10) ∷ rest) = (omega arith, bytes) in (omega arith, ones)

pub format_utctime-IsByte : (m : Moment) → All IsByte (format_utctime m)
unfolding format_utctime
format_utctime-IsByte m = two_digits-IsByte _ _ (
    two_digits-IsByte _ _ (
      two_digits-IsByte _ _
        (two_digits-IsByte _ _ (two_digits-IsByte _ _ (two_digits-IsByte _ _ (omega arith, tt))))))

-- Thirteen characters and the header for them, whatever the timestamp.
pub write_utctime-Prepends :
    (timestamp : ℕ)
    → Prepends
        (write_utctime timestamp)
        (tlv Tag.utc_time (format_utctime (timestamp_to_ymdhms timestamp)))
unfolding write_utctime
write_utctime-Prepends timestamp =
    let m = timestamp_to_ymdhms timestamp in
    rw (length-format_utctime m) at
      (write_tlv-Prepends Tag.utc_time (format_utctime m) (omega (arith, length-format_utctime m)))
