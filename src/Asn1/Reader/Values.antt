-- ===== src/Asn1/Reader/Values.antt =====
-- src/asn1/asn1parse.c: containers, INTEGER, BOOLEAN, NULL, OBJECT IDENTIFIER, and skipping.
use slim_data_crypt.Common.{
  ℕ, ◌+◌, ◌*◌, ◌^◌, Bool, false, ◌&&◌, not, List, [], ◌∷◌, bit_and, bit_or, ltb, leb, ◌==◌,
  if◌then◌else◌, drop, u64, done, Call, ◌>>=◌, ◌>>◌, return, require,
}
use slim_data_crypt.Common.{bad_length, bad_format, integer_too_large}
use slim_data_crypt.Common.Words.{byte_at, load64_be}
use slim_data_crypt.Asn1.Tag
use slim_data_crypt.Asn1.Reader.{
  Reader, load, read_bytes, skip_bytes, read_byte, read_tag, open_value,
}

-- A reader over the value at `pos`, whose first `len` bytes are its own.
unfoldable pub sub_reader : ℕ → Call Reader Reader
sub_reader len r = done (record { bytes = drop r.pos r.bytes; length = len; pos = 0 }) r

-- `sdc_asn1_read_sequence` and `sdc_asn1_read_set`, which differ in the tag.
unfoldable pub read_container : ℕ → Call Reader Reader
read_container tag = do len ← open_value tag; inner ← sub_reader len; skip_bytes len; return inner

unfoldable pub read_sequence : Call Reader Reader
read_sequence = read_container Tag.sequence

unfoldable pub read_set : Call Reader Reader
read_set = read_container Tag.set

-- `data[0] == 0x00 && !(data[1] & 0x80)` at the reader's position, read only where `len > 1`.
unfoldable pub padded_at_pos : ℕ → Call Reader Bool
padded_at_pos len r =
    if ltb 1 len
    then (do
      first ← load r.pos
      second ← load (r.pos + 1)
      return (first == 0 && bit_and second 0x80 == 0))
        r
    else done false r

-- `val = (val << 8) | buf[i]` over the bytes.
unfoldable pub shift_in : ℕ → List ℕ → ℕ
shift_in val [] = val
shift_in val (b ∷ bs) = shift_in (bit_or (u64 (val * 2 ^ 8)) b) bs

-- The end of `sdc_asn1_read_integer_to_u64`, on the `len` bytes that were copied to `buf`.
unfoldable pub u64_of_buffer : ℕ → List ℕ → Call Reader ℕ
u64_of_buffer len buf = do
  require (bit_and (byte_at buf 0) 0x80 == 0) bad_format
  if len == 9
      then (do
        require (byte_at buf 0 == 0) integer_too_large
        require (not (bit_and (byte_at buf 1) 0x80 == 0)) bad_format
        return (load64_be (drop 1 buf)))
      else return (shift_in 0 buf)

-- `sdc_asn1_read_integer_to_u64`.
unfoldable pub read_integer_to_u64 : Call Reader ℕ
read_integer_to_u64 = do
  len ← open_value Tag.integer
  require (not (len == 0)) bad_format
  padded ← padded_at_pos len
  require (not padded) bad_format
  require (leb len 9) integer_too_large
  buf ← read_bytes len
  u64_of_buffer len buf

-- `sdc_asn1_read_boolean`: 1 for any non-zero octet.
unfoldable pub read_boolean : Call Reader ℕ
read_boolean = do
  len ← open_value Tag.boolean
  require (len == 1) bad_format
  val ← read_byte
  return (if val == 0 then 0 else 1)

-- `sdc_asn1_read_null`.
unfoldable pub read_null : Call Reader (Unit {0})
read_null = do len ← open_value Tag.null; require (len == 0) bad_length

-- `sdc_asn1_skip`.
unfoldable pub skip : Call Reader (Unit {0})
skip = do (tag, len) ← read_tag; skip_bytes len
