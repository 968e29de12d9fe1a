-- ===== src/Asn1/RoundTrip/Values.antt =====
-- Values through the writer of src/asn1/asn1write.c and the reader of src/asn1/asn1parse.c: INTEGER
-- of a `uint64_t`, BOOLEAN, NULL, strings and containers.
use slim_data_crypt.Common.{
  ℕ, ◌^◌, ◌≤◌, ◌<◌, ◌≡◌, refl, true, List, [], ◌∷◌, length, All-append, arith, ltb, ◌==◌,
  Bool-cases, inl, inr, some, All, IsByte, if◌then◌else◌, Call, take, take_all,
}
use slim_data_crypt.Common.Words.{byte_at}
use slim_data_crypt.Asn1.Tag
use slim_data_crypt.Asn1.Der.{
  be_value, be_value-octets, octets-StartsNonzero, StartsNonzero, starts, octets-IsByte,
  length-octets, length_field, header, tlv, u64_digits, unsigned_content, length-tlv_short,
  IsMinimal, short, long,
}
use slim_data_crypt.Asn1.Writer.{Writer}
use slim_data_crypt.Asn1.Writer.Values.{write_integer_u64, write_boolean, write_null, write_string}
use slim_data_crypt.Asn1.Writer.Prepend.{IsReady, Prepends, output}
use slim_data_crypt.Asn1.Writer.Encodings.{
  write_boolean-Prepends, write_null-Prepends, write_string-Prepends,
}
use slim_data_crypt.Asn1.Writer.Integers.{write_integer_u64-Prepends}
use slim_data_crypt.Asn1.Reader.Values.{read_integer_to_u64, read_boolean, read_null}
use slim_data_crypt.Asn1.Reader.Integers.{read_integer_to_u64-Reads}
use slim_data_crypt.Asn1.Reader.Contents.{
  read_boolean-Reads, read_null-Reads, PointsTo, read_string-PointsTo, Enters,
  read_container-Enters,
}
use slim_data_crypt.Asn1.RoundTrip.{Written, RoundTrips, Prepends-Written}
use slim_data_crypt.Asn1.Writer.Containers.{contained, contained-Prepends}
use slim_data_crypt.Asn1.Reader.Strings.{read_string}
use slim_data_crypt.Asn1.Reader.Values.{read_container}
use slim_data_crypt.Asn1.Reader.View.{Reads}
use mathlib.Core.Path.{subst}

-- The content that is written for a `uint64_t` is a minimal encoding of it.
record IsEncoding (v : ℕ) (content : List ℕ) : Type 0 where
  minimal : IsMinimal content
  value : be_value 0 content ≡ v
  bytes : All IsByte content
  few : length content ≤ 9
  ninth : length content ≡ 9 → byte_at content 0 ≡ 0

nonzero-IsEncoding :
    (v : ℕ) {ds : List ℕ}
    → StartsNonzero ds
    → be_value 0 ds ≡ v
    → All IsByte ds
    → length ds ≤ 8
    → IsEncoding v (unsigned_content ds)
unfolding unsigned_content
nonzero-IsEncoding v (starts b bs h) value bytes few = elim (Bool-cases (ltb b 128)) [
  | inl e ↦ rw e (record {
    minimal = low bs (ground arith);
    value = value;
    bytes = bytes;
    few = omega arith;
    ninth = λ n. absurd (omega arith);
  })
  | inr e ↦ rw e (record {
    minimal = long 0 b bs (omega arith) (λ _. ground arith);
    value = value;
    bytes = (omega arith, bytes);
    few = omega arith;
    ninth = λ n. refl;
  })
]
  where
    low : (bs : List ℕ) → b < 128 → IsMinimal (b ∷ bs)
    low [] l = short b l
    low (c ∷ cs) l = long b c cs l (λ z. absurd (omega arith))

u64-IsEncoding : (v : ℕ) → v < 2 ^ 64 → IsEncoding v (unsigned_content (u64_digits v))
unfolding u64_digits
u64-IsEncoding v h = elim (Bool-cases (v == 0)) [
  | inl e ↦ rw e (
      unfold unsigned_content in
      record {
        minimal = short 0 (omega arith);
        value = ground arith;
        bytes = (omega arith, tt);
        few = omega arith;
        ninth = λ n. absurd (omega arith);
      })
  | inr e ↦ rw e (
      nonzero-IsEncoding v (octets-StartsNonzero 8 v (ground arith) h) (be_value-octets 8 v h)
        (octets-IsByte 8 v) (length-octets 8 v))
]

header-IsByte : (tag n : ℕ) → tag < 256 → n < 2 ^ 64 → All IsByte (header tag n)
unfolding header length_field
header-IsByte tag n t h = (
  t,
  elim (Bool-cases (ltb n 128)) [
    | inl e ↦ rw e (ground arith, tt)
    | inr e ↦ rw e (omega (arith, length-octets 8 n), octets-IsByte 8 n)
  ],
)

pub tlv-IsByte :
    (tag : ℕ) (content : List ℕ)
    → tag < 256
    → length content < 2 ^ 64
    → All IsByte content
    → All IsByte (tlv tag content)
unfolding tlv
tlv-IsByte tag content t h bytes =
    All-append IsByte (header tag (length content)) content (header-IsByte tag (length content) t h)
      bytes

module _ (w : Writer) (ready : IsReady w) (bytes : All IsByte w.bytes) where
  -- Every `uint64_t` whose encoding fits the buffer is written as an INTEGER that reads back as
  -- it, and what had been written before is left to be read.
  pub integer_u64_roundtrip :
      (v : ℕ)
      → v < 2 ^ 64
      → length (tlv Tag.integer (unsigned_content (u64_digits v))) ≤ w.pos
      → RoundTrips (write_integer_u64 v) read_integer_to_u64 w v
  integer_u64_roundtrip v h room =
      let enc = u64-IsEncoding v h in
      Prepends-Written w _ _ (write_integer_u64-Prepends v h) ready bytes
        (tlv-IsByte Tag.integer _ (omega arith) (omega (arith, enc.few)) enc.bytes) room
        λ r holds. rw enc.value at (
          read_integer_to_u64-Reads (output w) enc.minimal enc.bytes (rw enc.value h) enc.few
            enc.ninth holds)

  -- With three bytes of room a BOOLEAN is written, and reads back as 0 for 0 and as 1 for any
  -- other value.
  pub boolean_roundtrip :
      (value : ℕ)
      → 3 ≤ w.pos
      → RoundTrips (write_boolean value) read_boolean w (if value == 0 then 0 else 1)
  boolean_roundtrip value room =
      let octet : ℕ = if value == 0 then 0x00 else 0xff in
      let small : octet < 256 = ground arith in
      let back : ◌≡◌ {A = ℕ} (if octet == 0 then 0 else 1) (if value == 0 then 0 else 1) =
        ground arith in
      Prepends-Written w _ _ (write_boolean-Prepends value) ready bytes
        (tlv-IsByte Tag.boolean _ (omega arith) (omega arith) (small, tt))
        (omega (arith, length-tlv_short Tag.boolean (octet ∷ []) (omega arith)))
        λ r holds.
          subst (λ a. Reads read_boolean r a (output w)) back
            (read_boolean-Reads octet (output w) holds)

  -- With two bytes of room a NULL is written, and read.
  pub null_roundtrip : 2 ≤ w.pos → RoundTrips write_null read_null w tt
  null_roundtrip room =
      Prepends-Written w _ _ write_null-Prepends ready bytes
        (tlv-IsByte Tag.null [] (omega arith) (omega arith) tt)
        (omega (arith, length-tlv_short Tag.null [] (omega arith)))
        λ r holds. read_null-Reads (output w) holds

  -- The bytes of an OCTET STRING or UTF8String whose encoding fits are what the reader's caller
  -- gets a pointer to, with their number; the reader then stands behind them.
  pub string_roundtrip :
      (tag : ℕ) (source : List ℕ)
      → tag < 256
      → All IsByte source
      → length source < 2 ^ 64
      → length (tlv tag source) ≤ w.pos
      → Written
          (write_string tag (some source) (length source))
          w
          (λ r. PointsTo source r (output w) (read_string tag true))
  string_roundtrip tag source t sb h room =
      let whole : take (length source) source ≡ source = take_all source _ (omega arith) in
      Prepends-Written w _ _
        (rw whole at (write_string-Prepends tag source (length source) (omega arith) h)) ready bytes
        (tlv-IsByte tag source t h sb) room
        λ r holds. read_string-PointsTo tag source (output w) h holds

  -- Members that prepend their bytes, between `begin` and `end`: the reader gets a reader over
  -- those bytes, and stands behind them.
  pub container_roundtrip :
      (tag : ℕ) {members : Call Writer (Unit {0})} {bs : List ℕ}
      → Prepends members bs
      → tag < 256
      → All IsByte bs
      → length bs < 2 ^ 64
      → length (tlv tag bs) ≤ w.pos
      → Written (contained tag members) w (λ r. Enters bs r (output w) (read_container tag))
  container_roundtrip tag {bs = bs} prepends t bb h room =
      Prepends-Written w _ _ (contained-Prepends tag prepends h) ready bytes
        (tlv-IsByte tag bs t h bb) room λ r holds. read_container-Enters tag bs (output w) h holds
