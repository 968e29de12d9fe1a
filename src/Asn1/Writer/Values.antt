-- ===== src/Asn1/Writer/Values.antt =====
-- src/asn1/asn1write.c: the primitive values.
use slim_data_crypt.Common.{
  ℕ, zero, suc, ◌+◌, ◌*◌, ◌/◌, ◌-◌, ◌^◌, Bool, true, false, ◌&&◌, ◌||◌, not, List, [], ◌∷◌, ◌++◌,
  Option, none, some, bit_and, ltb, leb, ◌==◌, if◌then◌else◌, length, take, u8, fail, fault, Call,
  ◌>>◌, throw, require, size_max,
}
use slim_data_crypt.Common.{invalid_param, bad_length, bad_format}
use slim_data_crypt.Common.Words.{byte_at}
use slim_data_crypt.Asn1.Tag
use slim_data_crypt.Asn1.Writer.{Writer, write_byte_rev, write_bytes_rev, write_tlv_header_rev}

-- `sdc_asn1_write_null`.
unfoldable pub write_null : Call Writer (Unit {0})
write_null = write_tlv_header_rev Tag.null 0

-- `sdc_asn1_write_boolean`; C takes any value but 0 for true.
unfoldable pub write_boolean : ℕ → Call Writer (Unit {0})
write_boolean value = do
  write_byte_rev (if value == 0 then 0x00 else 0xff)
  write_tlv_header_rev Tag.boolean 1

-- `while (start + 1 < len && data[start] == 0x00 && !(data[start + 1] & 0x80)) start++`: the bytes
-- from `start` on.
unfoldable pub strip_zeros : List ℕ → List ℕ
strip_zeros [] = []
strip_zeros (a ∷ []) = a ∷ []
strip_zeros (a ∷ b ∷ bs) =
    let rest = strip_zeros (b ∷ bs) in if a == 0 && bit_and b 0x80 == 0 then rest else a ∷ b ∷ bs

-- `sdc_asn1_write_integer` from the stripping on.
unfoldable pub write_stripped : List ℕ → Call Writer (Unit {0})
write_stripped actual =
    let actual_len = length actual in
    if not (bit_and (byte_at actual 0) 0x80 == 0)
    then (if actual_len == size_max then throw bad_length else (do
      write_bytes_rev (some actual) actual_len
      write_byte_rev 0x00
      write_tlv_header_rev Tag.integer (actual_len + 1)))
    else (do write_bytes_rev (some actual) actual_len; write_tlv_header_rev Tag.integer actual_len)

-- `sdc_asn1_write_integer`.
unfoldable pub write_integer : Option (List ℕ) → ℕ → Call Writer (Unit {0})
write_integer none len w = fail invalid_param w
write_integer (some source) len w =
    if len == 0
    then fail invalid_param w
    else (if ltb (length source) len
        then fault
        else write_stripped (strip_zeros (take len source)) w)

-- The loop of `sdc_asn1_write_integer_u64`: `i` bytes are to go, `buf` holds those that count.
unfoldable pub u64_octets : ℕ → ℕ → List ℕ → List ℕ
u64_octets zero value buf = buf
u64_octets (suc i) value buf =
    let byte = u8 (value / 2 ^ (i * 8)) in
    u64_octets i value
      (if not (byte == 0) || not (length buf == 0) then buf ++ (byte ∷ []) else buf)

-- `sdc_asn1_write_integer_u64`.
unfoldable pub write_integer_u64 : ℕ → Call Writer (Unit {0})
write_integer_u64 value =
    let buf = if value == 0 then 0 ∷ [] else u64_octets 8 value [] in
    write_integer (some buf) (length buf)

-- `sdc_asn1_write_utf8_string`, `sdc_asn1_write_octet_string` and `sdc_asn1_write_oid`, which
-- differ in the tag.
unfoldable pub write_string : ℕ → Option (List ℕ) → ℕ → Call Writer (Unit {0})
write_string tag source len = do write_bytes_rev source len; write_tlv_header_rev tag len

unfoldable pub write_utf8_string : Option (List ℕ) → ℕ → Call Writer (Unit {0})
write_utf8_string source len = write_string Tag.utf8_string source len

unfoldable pub write_octet_string : Option (List ℕ) → ℕ → Call Writer (Unit {0})
write_octet_string source len = write_string Tag.octet_string source len

unfoldable pub write_oid : Option (List ℕ) → ℕ → Call Writer (Unit {0})
write_oid source len = write_string Tag.object_id source len

-- The last byte has one of its `unused` low bits set: `data[len - 1] & (0xFF >> (8 - unused))`.
unfoldable pub has_unused_bits : List ℕ → ℕ → ℕ → Bool
has_unused_bits source len unused =
    not (bit_and (byte_at source (len - 1)) (0xff / 2 ^ (8 - unused)) == 0)

-- A pointer that is not null, and what it points to.
abbrev pub is_given : Option (List ℕ) → Bool
is_given none = false
is_given (some source) = true

abbrev pub bytes_of : Option (List ℕ) → List ℕ
bytes_of none = []
bytes_of (some source) = source

-- `sdc_asn1_write_bit_string`.
unfoldable pub write_bit_string : Option (List ℕ) → ℕ → ℕ → Call Writer (Unit {0})
write_bit_string source len unused = do
  require (len == 0 || is_given source) invalid_param
  require (leb unused 7) bad_format
  require (not (len == 0 && not (unused == 0))) bad_format
  require (not (ltb 0 len && not (unused == 0) && has_unused_bits (bytes_of source) len unused))
      bad_format
  require (not (len == size_max)) bad_length
  write_bytes_rev source len
  write_byte_rev unused
  write_tlv_header_rev Tag.bit_string (len + 1)
