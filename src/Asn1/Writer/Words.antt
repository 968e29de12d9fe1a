-- ===== src/Asn1/Writer/Words.antt =====
-- src/asn1/asn1write.c: INTEGER from an array of words.
use slim_data_crypt.Common.{
  ℕ, ◌-◌, ◌/◌, Bool, not, List, [], ◌∷◌, some, leb, ◌==◌, if◌then◌else◌, length, Call, ◌>>◌,
  require, size_max,
}
use slim_data_crypt.Common.{invalid_param, bad_length, mem_allocate_fail}
use slim_data_crypt.Integer.Bytes.{tobytes_be}
use slim_data_crypt.Asn1.Writer.{Writer}
use slim_data_crypt.Asn1.Writer.Values.{write_integer}

-- `while (len > 1 && buf[0] == 0x00)`: the bytes without those.
unfoldable pub strip_leading : List ℕ → List ℕ
strip_leading [] = []
strip_leading (a ∷ []) = a ∷ []
strip_leading (a ∷ b ∷ bs) =
    let rest = strip_leading (b ∷ bs) in if a == 0 then rest else a ∷ b ∷ bs

-- `sdc_asn1_write_integer_from_words`; `allocated` tells whether `sdc_malloc` gives a buffer.
unfoldable pub write_integer_from_words : Bool → List ℕ → Call Writer (Unit {0})
write_integer_from_words allocated words = do
  let limbs = length words
  require (not (limbs == 0)) invalid_param
  require (leb limbs ((size_max - 1) / 8)) bad_length
  require allocated mem_allocate_fail
  let buf = strip_leading (tobytes_be words)
  write_integer (some buf) (length buf)
