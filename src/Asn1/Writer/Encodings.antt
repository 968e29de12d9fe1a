-- ===== src/Asn1/Writer/Encodings.antt =====
-- Writers of strings, BOOLEAN and NULL, and the encodings of their values.

use slim_data_crypt.Common.{
  ℕ, ◌^◌, ◌≤◌, ◌<◌, ◌≡◌, List, [], ◌∷◌, length, length-take, take, arith, ◌==◌, some, ◌>>◌,
  if◌then◌else◌, append-nil,
}
use slim_data_crypt.Asn1.Tag
use slim_data_crypt.Asn1.Der.{tlv}
use slim_data_crypt.Asn1.Writer.{write_bytes_rev, write_tlv_header_rev}
use slim_data_crypt.Asn1.Writer.Values.{write_null, write_boolean, write_string}
use slim_data_crypt.Asn1.Writer.Prepend.{Prepends, Prepends-seq}
use slim_data_crypt.Asn1.Writer.Header.{
  write_byte_rev-Prepends, write_bytes_rev-Prepends, write_whole-Prepends,
  write_tlv_header_rev-Prepends,
}

pub write_null-Prepends : Prepends write_null (tlv Tag.null [])
unfolding write_null tlv
write_null-Prepends = rw append-nil (write_tlv_header_rev-Prepends Tag.null 0 (omega arith))

pub write_boolean-Prepends :
    (value : ℕ)
    → Prepends (write_boolean value) (tlv Tag.boolean ((if value == 0 then 0x00 else 0xff) ∷ []))
unfolding write_boolean tlv
write_boolean-Prepends value =
    Prepends-seq (write_byte_rev-Prepends _)
      (write_tlv_header_rev-Prepends Tag.boolean 1 (omega arith))

-- Bytes and then the header for them.
pub write_tlv-Prepends :
    (tag : ℕ) (content : List ℕ)
    → length content < 2 ^ 64
    → Prepends
        (write_bytes_rev (some content) (length content)
          >> write_tlv_header_rev tag (length content))
        (tlv tag content)
unfolding tlv
write_tlv-Prepends tag content h =
    Prepends-seq (write_whole-Prepends content)
      (write_tlv_header_rev-Prepends tag (length content) h)

pub write_string-Prepends :
    (tag : ℕ) (source : List ℕ) (len : ℕ)
    → len ≤ length source
    → len < 2 ^ 64
    → Prepends (write_string tag (some source) len) (tlv tag (take len source))
unfolding write_string tlv
write_string-Prepends tag source len h w =
    rw (let e : length (take len source) ≡ len = omega (arith, length-take len source) in e) (
      Prepends-seq (write_bytes_rev-Prepends source len h)
        (write_tlv_header_rev-Prepends tag len w))
