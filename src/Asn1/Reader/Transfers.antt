-- ===== src/Asn1/Reader/Transfers.antt =====
-- src/asn1/asn1parse.c: OBJECT IDENTIFIER, and INTEGER as bytes or as words, which go to an array
-- of the caller. The caller's `*len` is a second part of the state: on entry the room in the
-- array, on return the size of the value.
use slim_data_crypt.Common.{
  ℕ, zero, suc, ◌+◌, ◌*◌, ◌/◌, ◌%◌, ◌-◌, ◌^◌, Bool, ◌&&◌, not, List, [], ◌∷◌, bit_and, bit_or, ltb,
  leb, ◌==◌, if◌then◌else◌, replicate, size_max, done, fail, Call, ◌>>=◌, ◌>>◌, return, require,
  on_first,
}
use slim_data_crypt.Common.{bad_format, bad_length, buffer_too_small, not_implemented}
use slim_data_crypt.Common.Words.{byte_at}
use slim_data_crypt.Asn1.Tag
use slim_data_crypt.Asn1.Reader.{Reader, load, read_bytes, skip_bytes, open_value}
use slim_data_crypt.Asn1.Reader.Values.{padded_at_pos}
use slim_data_crypt.Asn1.Reader.Strings.{pointer}

-- `*len = size`.
unfoldable pub set_size : ℕ → Call (Reader × ℕ) (Unit {0})
set_size size (r, room) = done tt (r, size)

-- `if (size > *len) { *len = size; return SDC_ERR_BUFFER_TOO_SMALL; }`.
unfoldable pub check_room : ℕ → Call (Reader × ℕ) (Unit {0})
check_room size (r, room) =
    if ltb room size then fail buffer_too_small (r, size) else done tt (r, room)

-- `sdc_asn1_read_oid`; with a null `oid` it stays before the value.
unfoldable pub read_oid : Bool → Call (Reader × ℕ) (List ℕ)
read_oid wanted = do
  len ← on_first (open_value Tag.object_id)
  if wanted
      then (do check_room len; oid ← on_first (read_bytes len); set_size len; return oid)
      else (do set_size len; return [])

-- `sdc_asn1_read_integer_to_bytes`. It looks for a superfluous 0 in the bytes that it has copied.
unfoldable pub read_integer_to_bytes : Bool → Call (Reader × ℕ) (List ℕ)
read_integer_to_bytes wanted = do
  value_len ← on_first (open_value Tag.integer)
  require (not (value_len == 0)) bad_format
  if wanted
      then (do
        check_room value_len
        data_ ← on_first (read_bytes value_len)
        require
            (not (ltb 1 value_len && byte_at data_ 0 == 0 && bit_and (byte_at data_ 1) 0x80 == 0))
            bad_format
        set_size value_len
        return data_)
      else (do set_size value_len; return [])

-- `data[k] |= x`.
unfoldable pub or_into : ℕ → ℕ → List ℕ → List ℕ
or_into k x [] = []
or_into zero x (w ∷ ws) = bit_or w x ∷ ws
or_into (suc k) x (w ∷ ws) = w ∷ or_into k x ws

-- The loop that puts the bytes into words: `pos` is `offset + i`.
unfoldable pub fill_words : ℕ → ℕ → List ℕ → List ℕ → List ℕ
fill_words zero pos src words = words
fill_words (suc n) pos [] words = words
fill_words (suc n) pos (b ∷ bs) words =
    fill_words n (pos + 1) bs (or_into (pos / 8) (b * 2 ^ (pos % 8 * 8)) words)

-- The words that `len` bytes need.
unfoldable pub words_needed : ℕ → ℕ
words_needed len = if len % 8 == 0 then len / 8 else len / 8 + 1

-- The top bit of the byte at the reader's position.
unfoldable pub negative_at_pos : Call Reader Bool
negative_at_pos r = (do first ← load r.pos; return (not (bit_and first 0x80 == 0))) r

-- `sdc_asn1_read_integer_to_words`. The array that `src` points to holds the value, whose bytes
-- `sdc_asn1_read_tag` has counted.
unfoldable pub read_integer_to_words : Bool → Call (Reader × ℕ) (List ℕ)
read_integer_to_words wanted = do
  len ← on_first (open_value Tag.integer)
  require (not (len == 0)) bad_format
  negative ← on_first negative_at_pos
  require (not negative) not_implemented
  padded ← on_first (padded_at_pos len)
  require (not padded) bad_format
  let need = words_needed len
  require (not (need == 0) && leb need (size_max / 8)) bad_length
  if wanted
      then (do
        check_room need
        src ← on_first pointer
        set_size need
        on_first (skip_bytes len)
        return (fill_words len (need * 8 - len) src (replicate need 0)))
      else (do set_size need; return [])
