-- ===== src/Asn1/Reader/Strings.antt =====
-- src/asn1/asn1parse.c: strings, whose value the caller gets as a pointer into the array. A
-- pointer is the list of the bytes from it on.
use slim_data_crypt.Common.{
  ℕ, ◌+◌, ◌-◌, ◌/◌, ◌^◌, Bool, ◌&&◌, not, List, Option, none, some, bit_and, ltb, leb, ◌==◌,
  if◌then◌else◌, drop, done, Call, ◌>>=◌, ◌>>◌, return, require,
}
use slim_data_crypt.Common.{bad_format}
use slim_data_crypt.Asn1.Tag
use slim_data_crypt.Asn1.Reader.{Reader, load, skip_bytes, open_value}

-- `reader->data + reader->pos`.
unfoldable pub pointer : Call Reader (List ℕ)
pointer r = done (drop r.pos r.bytes) r

-- `sdc_asn1_read_utf8_string` and `sdc_asn1_read_octet_string`, which differ in the tag. With a
-- null `data` they return the length and stay before the value.
unfoldable pub read_string : ℕ → Bool → Call Reader (Option (List ℕ) × ℕ)
read_string tag wanted = do
  len ← open_value tag
  if wanted
      then (do start ← pointer; skip_bytes len; return (some start, len))
      else return (none, len)

unfoldable pub read_utf8_string : Bool → Call Reader (Option (List ℕ) × ℕ)
read_utf8_string wanted = read_string Tag.utf8_string wanted

unfoldable pub read_octet_string : Bool → Call Reader (Option (List ℕ) × ℕ)
read_octet_string wanted = read_string Tag.octet_string wanted

-- `last & (0xFF >> (8 - unused_bits))`, read only where there are unused bits.
unfoldable pub check_last : ℕ → ℕ → Call Reader (Unit {0})
check_last value_len unused r =
    if ltb 1 value_len && not (unused == 0)
    then (do
      last ← load (r.pos + value_len - 1)
      require (bit_and last (0xff / 2 ^ (8 - unused)) == 0) bad_format)
        r
    else done tt r

-- `sdc_asn1_read_bit_string`: the bytes behind the count of unused bits.
unfoldable pub read_bit_string : Call Reader (List ℕ × ℕ)
read_bit_string = do
  value_len ← open_value Tag.bit_string
  require (leb 1 value_len) bad_format
  unused ← (λ r. load r.pos r)
  require (leb unused 7) bad_format
  require (not (value_len == 1 && not (unused == 0))) bad_format
  check_last value_len unused
  skip_bytes 1
  start ← pointer
  skip_bytes (value_len - 1)
  return (start, value_len - 1)
