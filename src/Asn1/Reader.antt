-- ===== src/Asn1/Reader.antt =====
-- src/asn1/asn1parse.c: the reader's state and the functions that its typed readers share. The
-- pointer `data` is the list of the bytes from it on; a read outside that list is a fault.
use slim_data_crypt.Common.{
  ℕ, zero, suc, ◌+◌, ◌*◌, ◌/◌, ◌%◌, ◌-◌, ◌^◌, Bool, true, false, ◌&&◌, not, List, [], Option, none,
  some, bit_and, bit_or, ltb, leb, ◌==◌, if◌then◌else◌, length, get_elem?, take, drop, u64, sub64,
  size_max, Outcome, done, fail, fault, Call, ◌>>=◌, ◌>>◌, return, throw, require, Error,
}
use slim_data_crypt.Common.{truncated, bad_tag, bad_length}
pub mod Values
pub mod Strings
pub mod Times
pub mod Transfers
pub mod View
pub mod Header
pub mod Integers
pub mod Contents
pub mod Safety

-- `sdc_asn1_reader_t`.
pub record Reader : Type 0 where
  pub bytes : List ℕ
  pub length : ℕ
  pub pos : ℕ

-- `sdc_asn1_reader_init`.
unfoldable pub reader_init : List ℕ → ℕ → Reader
reader_init bytes len = record { bytes = bytes; length = len; pos = 0 }

-- `reader->length - reader->pos`, in `size_t`.
unfoldable pub avail : Reader → ℕ
avail r = sub64 r.length r.pos

-- `sdc_asn1_remaining`.
unfoldable pub remaining : Reader → ℕ
remaining r = if ltb r.length r.pos then 0 else avail r

-- `reader->pos += len`.
unfoldable pub advance : ℕ → Reader → Reader
advance len r = record r { pos = u64 (r.pos + len) }

-- `reader->data[i]`.
unfoldable pub load : ℕ → Call Reader ℕ
load i r = elim (get_elem? r.bytes i) [ none ↦ fault | some b ↦ done b r ]

-- `read_bytes` with a destination: the bytes that it copies there.
unfoldable pub read_bytes : ℕ → Call Reader (List ℕ)
read_bytes len r =
    if ltb (avail r) len
    then fail truncated r
    else (if ltb (length r.bytes) (r.pos + len)
        then fault
        else done (take len (drop r.pos r.bytes)) (advance len r))

-- `read_bytes` without one: it only moves on.
unfoldable pub skip_bytes : ℕ → Call Reader (Unit {0})
skip_bytes len r = if ltb (avail r) len then fail truncated r else done tt (advance len r)

-- `read_bytes(reader, &b, 1)`.
unfoldable pub read_byte : Call Reader ℕ
read_byte r =
    if ltb (avail r) 1
    then fail truncated r
    else (elim (get_elem? r.bytes r.pos) [ none ↦ fault | some b ↦ done b (advance 1 r) ])

-- `sdc_asn1_peek_tag`.
unfoldable pub peek_tag : Call Reader ℕ
peek_tag r = if leb r.length r.pos then fail truncated r else load r.pos r

-- `sdc_asn1_expect_tag`.
unfoldable pub expect_tag : ℕ → Call Reader (Unit {0})
expect_tag expected = do tag ← peek_tag; require (tag == expected) bad_tag

-- The loop of `sdc_asn1_read_tag` over the octets of a long length: `left` rounds are to go.
unfoldable pub read_length_octets : ℕ → ℕ → ℕ → Call Reader ℕ
read_length_octets zero i len = return len
read_length_octets (suc left) i len = do
  b ← read_byte
  require (not (i == 0 && b == 0)) bad_length
  require (leb len (size_max / 2 ^ 8)) bad_length
  read_length_octets left (i + 1) (bit_or (u64 (len * 2 ^ 8)) b)

-- A length whose first octet `b` has the top bit set.
unfoldable pub read_long_length : ℕ → Call Reader ℕ
read_long_length b = do
  let nbytes = bit_and b 0x7f
  require (not (nbytes == 0) && leb nbytes 8) bad_length
  len ← read_length_octets nbytes 0 0
  require (leb 0x80 len) bad_length
  return len

-- The length octets: one, or those that the first one announces.
unfoldable pub read_length : Call Reader ℕ
read_length = do b ← read_byte; if bit_and b 0x80 == 0 then return b else read_long_length b

-- `*length > reader->length - reader->pos` is refused.
unfoldable pub check_length : ℕ → Call Reader ℕ
check_length len r = if ltb (avail r) len then fail truncated r else done len r

-- `sdc_asn1_read_tag`: the tag, and the length of the value, which is what is read next.
unfoldable pub read_tag : Call Reader (ℕ × ℕ)
read_tag = do tag ← read_byte; len ← read_length; len ← check_length len; return (tag, len)

-- The first lines of every typed reader.
unfoldable pub open_value : ℕ → Call Reader ℕ
open_value expected = do (tag, len) ← read_tag; require (tag == expected) bad_tag; return len
