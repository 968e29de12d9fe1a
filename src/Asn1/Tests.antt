-- ===== src/Asn1/Tests.antt =====
-- Concrete runs of the ASN.1 code, and the theorems at concrete inputs.
use slim_data_crypt.Common.{
  ℕ, ◌*◌, ◌^◌, ◌≤◌, ◌<◌, ◌≡◌, refl, arith, true, false, List, [], ◌∷◌, none, length, replicate, All,
  IsByte, done,
}
use slim_data_crypt.Common.{zero, suc, ◌++◌}
use slim_data_crypt.Asn1.Tag
use slim_data_crypt.Asn1.Der.{header, tlv, unsigned_content, u64_digits, octets, length_field}
use slim_data_crypt.Asn1.Reader.{
  Reader, reader_init, read_tag, read_length, read_byte, check_length, open_value, advance, avail,
  load, skip_bytes,
}
use slim_data_crypt.Asn1.Reader.Values.{
  read_container, read_integer_to_u64, read_boolean, padded_at_pos,
}
use slim_data_crypt.Asn1.Reader.Strings.{read_bit_string, pointer}
use slim_data_crypt.Asn1.Reader.Transfers.{
  read_integer_to_words, words_needed, fill_words, or_into, set_size, check_room, negative_at_pos,
}
use slim_data_crypt.Asn1.Reader.View.{IsReader, Holds, Reads}
use slim_data_crypt.Asn1.Reader.Header.{read_tag-Reads}
use slim_data_crypt.Asn1.Reader.Contents.{Enters}
use slim_data_crypt.Asn1.Reader.Safety.{SafeAt, Fits}
use slim_data_crypt.Asn1.Reader.Safety.Calls.{read_tag-Safe}
use slim_data_crypt.Asn1.Reader.Safety.Values.{
  read_container-Safe, read_integer_to_u64-Safe, read_bit_string-Safe,
}
use slim_data_crypt.Asn1.Writer.{Writer}
use slim_data_crypt.Asn1.Writer.Values.{write_integer_u64, write_boolean}
use slim_data_crypt.Asn1.Writer.Times.{write_utctime}
use slim_data_crypt.Asn1.Writer.Prepend.{IsReady, output}
use slim_data_crypt.Asn1.Writer.Encodings.{write_boolean-Prepends}
use slim_data_crypt.Asn1.Writer.Containers.{contained}
use slim_data_crypt.Asn1.Writer.Outcomes.{Puts, write_integer_u64-Puts, contained-Puts}
use slim_data_crypt.Asn1.RoundTrip.{Written, RoundTrips}
use slim_data_crypt.Asn1.RoundTrip.Values.{integer_u64_roundtrip, container_roundtrip}
use slim_data_crypt.Asn1.RoundTrip.Times.{
  ReadsTime, RefusesTime, utctime_roundtrip, utctime_refused,
}
use slim_data_crypt.Asn1.Time.{
  Clock, timestamp_to_ymdhms, get_current_year, locate, is_leap_year, days_in_year, days_in_month,
}
use slim_data_crypt.Asn1.Time.Cache.{IsCoherent, IsRecent}

-- A writer over 32 bytes.
abbrev blank : Writer
blank = record { base = 0; bytes = replicate 32 0; length = 32; pos = 32; error = false }

blank-IsReady : IsReady blank
blank-IsReady = record {
  no_error = refl;
  in_buffer = omega arith;
  whole = refl;
  word = omega arith;
}

All-zeros : (n : ℕ) → All IsByte (replicate n 0)
All-zeros zero = tt
All-zeros (suc n) = (omega arith, All-zeros n)

room_300 : length (tlv Tag.integer (unsigned_content (u64_digits 300))) ≤ 32
unfolding tlv header length_field unsigned_content u64_digits octets
room_300 = omega arith

integer_u64_roundtrip_example : RoundTrips (write_integer_u64 300) read_integer_to_u64 blank 300
integer_u64_roundtrip_example =
    integer_u64_roundtrip blank blank-IsReady (All-zeros 32) 300 (omega arith) room_300

abbrev greeting : List ℕ
greeting = 0x68 ∷ 0x69 ∷ []

room_greeting : length (tlv Tag.utf8_string greeting) ≤ 32
unfolding tlv header length_field octets
room_greeting = omega arith

abbrev true_boolean : List ℕ
true_boolean = tlv Tag.boolean (0xff ∷ [])

true_boolean-IsByte : All IsByte true_boolean
unfolding tlv header length_field octets
true_boolean-IsByte = omega arith

room_boolean : length (tlv Tag.sequence true_boolean) ≤ 32
unfolding tlv header length_field octets
room_boolean = omega arith

small_boolean : length true_boolean < 2 ^ 64
unfolding tlv header length_field octets
small_boolean = omega arith

container_roundtrip_example :
    Written
      (contained Tag.sequence (write_boolean 1))
      blank
      (λ r. Enters true_boolean r (output blank) (read_container Tag.sequence))
container_roundtrip_example =
    container_roundtrip blank blank-IsReady (All-zeros 32) Tag.sequence (write_boolean-Prepends 1)
      (omega arith) true_boolean-IsByte small_boolean room_boolean

write_integer_u64-Puts_example :
    Puts blank (tlv Tag.integer (unsigned_content (u64_digits 300))) (write_integer_u64 300 blank)
write_integer_u64-Puts_example = write_integer_u64-Puts 300 blank (omega arith) blank-IsReady

contained-Puts_example :
    Puts blank (tlv Tag.set true_boolean) (contained Tag.set (write_boolean 1) blank)
contained-Puts_example =
    contained-Puts Tag.set blank (write_boolean-Prepends 1) small_boolean blank-IsReady

-- A SEQUENCE of an INTEGER, whose declared length is one byte too many.
abbrev cut_sequence : Reader
cut_sequence = record { bytes = 0x30 ∷ 0x04 ∷ 0x02 ∷ 0x01 ∷ 0x05 ∷ []; length = 5; pos = 0 }

-- The INTEGER 5.
abbrev five : Reader
five = record { bytes = 0x02 ∷ 0x01 ∷ 0x05 ∷ []; length = 3; pos = 0 }

five-IsReader : IsReader five
five-IsReader = record {
  in_order = omega arith;
  backed = omega arith;
  word = omega arith;
  of_bytes = omega arith;
}

cut_sequence-IsReader : IsReader cut_sequence
cut_sequence-IsReader = record {
  in_order = omega arith;
  backed = omega arith;
  word = omega arith;
  of_bytes = omega arith;
}

read_tag-Safe_example : SafeAt (λ t s. Fits t.1 s) read_tag five
read_tag-Safe_example = read_tag-Safe five five-IsReader

read_integer_to_u64-Safe_example : SafeAt (λ n s. n < 2 ^ 64) read_integer_to_u64 five
read_integer_to_u64-Safe_example = read_integer_to_u64-Safe five five-IsReader

read_container-Safe_example :
    SafeAt (λ inner s. IsReader inner) (read_container Tag.sequence) cut_sequence
read_container-Safe_example = read_container-Safe Tag.sequence cut_sequence cut_sequence-IsReader

read_bit_string-Safe_example : SafeAt (λ p s. p.1 ≤ length p.0) read_bit_string five
read_bit_string-Safe_example = read_bit_string-Safe five five-IsReader

five-Holds : Holds five (header 2 1 ++ (5 ∷ []))
unfolding header length_field octets
five-Holds = record { valid = five-IsReader; left = refl }

read_tag-Reads_example : Reads read_tag five (2, 1) (5 ∷ [])
read_tag-Reads_example = read_tag-Reads 2 1 (5 ∷ []) (omega arith) (omega arith) five-Holds

-- A clock that was set to 2000-02-29 12:34:56, with no cache.
abbrev set_clock : Clock
set_clock = record {
  days_cache = [];
  cache_start_year = 0;
  cache_initialized = false;
  user_timestamp = 951827696;
  user_time_set = true;
}

set_clock-IsCoherent : IsCoherent set_clock
set_clock-IsCoherent = record { start = λ e. cc; entries = λ e. cc }

set_clock-IsRecent : IsRecent none set_clock
unfolding IsRecent get_current_year timestamp_to_ymdhms locate days_in_year days_in_month
    is_leap_year
set_clock-IsRecent e = omega arith

year_2000 : (timestamp_to_ymdhms 951827696).year < 2050
unfolding timestamp_to_ymdhms locate days_in_year days_in_month is_leap_year
year_2000 = omega arith

year_2050 :
    (2050 ≤ (timestamp_to_ymdhms 2524608000).year) × ((timestamp_to_ymdhms 2524608000).year < 2070)
unfolding timestamp_to_ymdhms locate days_in_year days_in_month is_leap_year
year_2050 = omega arith

utctime_roundtrip_example :
    Written
      (write_utctime 951827696)
      blank
      (λ r. ReadsTime none set_clock r 951827696 (output blank))
utctime_roundtrip_example =
    utctime_roundtrip blank blank-IsReady (All-zeros 32) none set_clock 951827696 (omega arith)
      year_2000 (omega arith) set_clock-IsCoherent set_clock-IsRecent

utctime_refused_example : Written (write_utctime 2524608000) blank (RefusesTime none set_clock)
utctime_refused_example =
    utctime_refused blank blank-IsReady (All-zeros 32) none set_clock 2524608000 year_2050.0
      year_2050.1 (omega arith)

-- The words that the INTEGER 5 is read to: its byte is the top one of the word.
five_in_words :
    read_integer_to_words true (five, 1) ≡ done ((5 * 2 ^ 56) ∷ []) (record five { pos = 3 }, 1)
unfolding read_integer_to_words negative_at_pos load open_value read_tag read_byte read_length
    check_length avail advance padded_at_pos words_needed check_room set_size pointer skip_bytes
    fill_words or_into
five_in_words = refl

-- A BOOLEAN's octet need not be 0 or 0xff.
loose_boolean :
    read_boolean (reader_init (0x01 ∷ 0x01 ∷ 0x05 ∷ []) 3)
    ≡ done 1 (record { bytes = 0x01 ∷ 0x01 ∷ 0x05 ∷ []; length = 3; pos = 3 })
unfolding read_boolean open_value read_tag read_byte read_length check_length avail advance
    reader_init
loose_boolean = refl
