-- ===== src/Asn1/Writer/Nested.antt =====
-- src/asn1/asn1write.c: SEQUENCE, SET and BIT STRING by `begin` and `end`. The members are
-- written in reverse order between the two calls.
use slim_data_crypt.Common.{
  ℕ, ◌+◌, ◌-◌, ◌||◌, not, ltb, ◌==◌, if◌then◌else◌, done, fail, Call, ◌>>◌, sub64, size_max,
}
use slim_data_crypt.Common.{invalid_param, bad_length, write_error}
use slim_data_crypt.Asn1.Tag
use slim_data_crypt.Asn1.Writer.{Writer, write_byte_rev, write_length_rev, write_tlv_header_rev}

-- The second writer of a `begin` call. It remembers a place in the first one's buffer; nothing
-- is written through it.
pub record Mark : Type 0 where
  pub base : ℕ
  pub length : ℕ
  pub pos : ℕ

-- The three `begin` functions, which are the same.
unfoldable pub begin : Call Writer Mark
begin w =
    if w.error
    then fail write_error w
    else done (record { base = w.base; length = w.pos; pos = w.pos }) w

-- `sdc_asn1_write_sequence_end` and `sdc_asn1_write_set_end`, which differ in the tag.
unfoldable pub end_container : ℕ → Mark → Call Writer (Unit {0})
end_container tag mark w =
    if w.error
    then fail write_error w
    else (if not (mark.base == w.base)
          || ltb w.length mark.length
          || not (mark.pos == mark.length)
          || ltb mark.length w.pos
        then fail invalid_param w
        else (do write_length_rev (mark.length - w.pos); write_byte_rev tag) w)

unfoldable pub sequence_end : Mark → Call Writer (Unit {0})
sequence_end mark = end_container Tag.sequence mark

unfoldable pub set_end : Mark → Call Writer (Unit {0})
set_end mark = end_container Tag.set mark

-- `sdc_asn1_write_bit_string_end`; it does not compare the two positions.
unfoldable pub bit_string_end : Mark → Call Writer (Unit {0})
bit_string_end mark w =
    if w.error
    then fail write_error w
    else (if not (mark.base == w.base) || not (mark.pos == mark.length) || ltb w.length mark.length
        then fail invalid_param w
        else (let content_len = sub64 mark.length w.pos in
            if content_len == size_max
            then fail bad_length w
            else (do write_byte_rev 0x00; write_tlv_header_rev Tag.bit_string (content_len + 1)) w))
