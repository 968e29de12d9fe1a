-- ===== src/Asn1/Writer/Outcomes.antt =====
-- Writers of src/asn1/asn1write.c on a ready writer, whatever room it has.
use slim_data_crypt.Common.{
  ℕ, ◌^◌, ◌≤◌, ◌<◌, List, length, arith, ltb, Bool-cases, inl, inr, Outcome, done, fail, Call,
}
use slim_data_crypt.Common.{buffer_too_small}
use slim_data_crypt.Asn1.Tag
use slim_data_crypt.Asn1.Der.{header, tlv, unsigned_content, u64_digits}
use slim_data_crypt.Asn1.Writer.{Writer, write_tlv_header_rev}
use slim_data_crypt.Asn1.Writer.Values.{write_integer_u64}
use slim_data_crypt.Asn1.Writer.Prepend.{IsReady, emit, IsBroken, Prepends}
use slim_data_crypt.Asn1.Writer.Header.{write_tlv_header_rev-Prepends}
use slim_data_crypt.Asn1.Writer.Integers.{write_integer_u64-Prepends}
use slim_data_crypt.Asn1.Writer.Containers.{contained, contained-Prepends}

-- The bytes are in front of the output if they fit. Else the writer has stopped, and what it had
-- put out before still stands.
pub data Puts (w : Writer) (bs : List ℕ) : Outcome Writer (Unit {0}) → Type 0 where
  fitted : length bs ≤ w.pos → Puts w bs (done tt (emit bs w))
  overflowed :
      {last : Writer} → w.pos < length bs → IsBroken w last → Puts w bs (fail buffer_too_small last)

Prepends-Puts :
    {m : Call Writer (Unit {0})} {bs : List ℕ}
    → Prepends m bs
    → (w : Writer) → IsReady w
    → Puts w bs (m w)
Prepends-Puts {bs = bs} prepends w ready = elim (Bool-cases (ltb w.pos (length bs))) [
  | inl e ↦
      let short : w.pos < length bs = ground arith in
      let over = prepends.short w ready short in rw over.fails (overflowed short over.broken)
  | inr e ↦
      let room : length bs ≤ w.pos = ground arith in rw (prepends.fits w ready room) (fitted room)
]

-- On a ready writer a header puts the tag and the length octets of X.690 in front of the output
-- if there is room for them, and else reports that and stops the writer.
pub write_tlv_header_rev-Puts :
    (tag n : ℕ) (w : Writer)
    → n < 2 ^ 64
    → IsReady w
    → Puts w (header tag n) (write_tlv_header_rev tag n w)
write_tlv_header_rev-Puts tag n w h ready =
    Prepends-Puts (write_tlv_header_rev-Prepends tag n h) w ready

-- On a ready writer a `uint64_t` puts its shortest INTEGER in front of the output if there is
-- room for it, and else reports that and stops the writer.
pub write_integer_u64-Puts :
    (v : ℕ) (w : Writer)
    → v < 2 ^ 64
    → IsReady w
    → Puts w (tlv Tag.integer (unsigned_content (u64_digits v))) (write_integer_u64 v w)
write_integer_u64-Puts v w h ready = Prepends-Puts (write_integer_u64-Prepends v h) w ready

-- On a ready writer `begin`, members that prepend their bytes and `end` put one container with
-- those bytes in front of the output if there is room for it, and else report that and stop the
-- writer.
pub contained-Puts :
    (tag : ℕ) {members : Call Writer (Unit {0})} {bs : List ℕ} (w : Writer)
    → Prepends members bs
    → length bs < 2 ^ 64
    → IsReady w
    → Puts w (tlv tag bs) (contained tag members w)
contained-Puts tag w prepends h ready = Prepends-Puts (contained-Prepends tag prepends h) w ready
