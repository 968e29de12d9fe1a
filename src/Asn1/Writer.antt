-- ===== src/Asn1/Writer.antt =====
-- src/asn1/asn1write.c: the writer's state and its reverse-write helpers. The output grows
-- towards the front of the buffer: `pos` is the index of its first byte.
use slim_data_crypt.Common.{
  ℕ, zero, suc, ◌+◌, ◌*◌, ◌/◌, ◌%◌, ◌-◌, ◌^◌, Bool, true, false, ◌&&◌, ◌||◌, not, List, [], ◌∷◌,
  Option, none, some, bit_and, bit_or, ltb, leb, ◌==◌, if◌then◌else◌, length, take, drop, write_at,
  u8, Outcome, done, fail, fault, Call, ◌>>=◌, ◌>>◌, return, throw, require,
}
use slim_data_crypt.Common.{invalid_param, buffer_too_small, bad_length, write_error}
pub mod Values
pub mod Nested
pub mod Prepend
pub mod Header
pub mod Encodings
pub mod Integers
pub mod Containers
pub mod Outcomes
pub mod Times
pub mod Words

-- `sdc_asn1_writer_t`: `base` is the address in `data`, and `bytes` what the buffer there holds.
pub record Writer : Type 0 where
  pub base : ℕ
  pub bytes : List ℕ
  pub length : ℕ
  pub pos : ℕ
  pub error : Bool

-- `sdc_asn1_writer_init`.
unfoldable pub writer_init : ℕ → List ℕ → ℕ → Writer
writer_init base bytes len = record {
  base = base;
  bytes = bytes;
  length = len;
  pos = len;
  error = false;
}

-- `sdc_asn1_writer_length`.
unfoldable pub writer_length : Writer → ℕ
writer_length w = if ltb w.length w.pos then 0 else w.length - w.pos

-- `sdc_asn1_writer_data`: the buffer from `pos` on.
unfoldable pub writer_data : Writer → Option (List ℕ)
writer_data w = if ltb w.length w.pos then none else some (drop w.pos w.bytes)

-- `writer->error = 1` and a return.
abbrev pub break : Writer → Writer
break w = record w { error = true }

-- `write_byte_rev`.
unfoldable pub write_byte_rev : ℕ → Call Writer (Unit {0})
write_byte_rev val w =
    if w.error
    then fail write_error w
    else (if w.pos == 0
        then fail buffer_too_small (break w)
        else (if ltb (length w.bytes) w.pos
            then fault
            else done tt
                (record w { pos = w.pos - 1; bytes = write_at (w.pos - 1) (val ∷ []) w.bytes })))

-- `if (len && data) memmove(writer->data + writer->pos, data, len)`; `none` is a null `data`.
unfoldable pub copy_in : Option (List ℕ) → ℕ → Call Writer (Unit {0})
copy_in none len w = done tt w
copy_in (some source) len w =
    if len == 0
    then done tt w
    else (if ltb (length source) len || ltb (length w.bytes) (w.pos + len)
        then fault
        else done tt (record w { bytes = write_at w.pos (take len source) w.bytes }))

-- `write_bytes_rev`, which is also `sdc_asn1_write_bytes`.
unfoldable pub write_bytes_rev : Option (List ℕ) → ℕ → Call Writer (Unit {0})
write_bytes_rev source len w =
    if w.error
    then fail write_error w
    else (if ltb w.pos len
        then fail buffer_too_small (break w)
        else copy_in source len (record w { pos = w.pos - len }))

-- The loop of `write_length_rev`, which fills `buf` from its end; `octets` is what it has filled.
-- A `size_t` is used up after 8 rounds.
unfoldable pub length_octets : ℕ → ℕ → List ℕ → List ℕ
length_octets zero t octets = octets
length_octets (suc rounds) t octets =
    let rest = length_octets rounds (t / 2 ^ 8) (u8 t ∷ octets) in if t == 0 then octets else rest

-- `write_length_rev`.
unfoldable pub write_length_rev : ℕ → Call Writer (Unit {0})
write_length_rev len w =
    if ltb len 0x80
    then write_bytes_rev (some (u8 len ∷ [])) 1 w
    else (let octets = length_octets 8 len [] in
        let nbytes = length octets in
        if nbytes == 0 || ltb 0x7f nbytes || ltb 8 nbytes
        then fail bad_length (break w)
        else write_bytes_rev (some (u8 (bit_or 0x80 nbytes) ∷ octets)) (1 + nbytes) w)

-- `write_tlv_header_rev`, which is also `sdc_asn1_write_tag` and `sdc_asn1_write_explicit_tag`.
unfoldable pub write_tlv_header_rev : ℕ → ℕ → Call Writer (Unit {0})
write_tlv_header_rev tag len = do write_length_rev len; write_byte_rev tag
