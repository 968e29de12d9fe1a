-- ===== src/Asn1/Reader/Contents.antt =====
-- The readers of strings, BOOLEAN, NULL and containers, on encodings of X.690.
use slim_data_crypt.Common.{
  ℕ, ◌^◌, ◌<◌, ◌≡◌, refl, true, List, [], ◌∷◌, ◌++◌, length, length-append, arith, ◌==◌, drop, take,
  some, Option, Call, if◌then◌else◌, append_assoc, return,
}
use slim_data_crypt.Common.{bad_format}
use slim_data_crypt.Asn1.Tag
use slim_data_crypt.Asn1.Der.{header, tlv}
use slim_data_crypt.Asn1.Reader.{Reader, open_value}
use slim_data_crypt.Asn1.Reader.Values.{sub_reader, read_container, read_boolean, read_null, skip}
use slim_data_crypt.Asn1.Reader.Strings.{pointer, read_string}
use slim_data_crypt.Asn1.Reader.View.{
  Holds, value_at_pos, inner-Holds, Reads, Reads-bind, Reads-return, read_byte-Reads,
  skip_bytes-Reads, require-Reads,
}
use slim_data_crypt.Asn1.Reader.Header.{open_value-Reads, read_tag-Reads}

-- A value's header, and then the value.
pub open_tlv-Reads :
    (tag : ℕ) (content rest : List ℕ) {r : Reader}
    → length content < 2 ^ 64
    → Holds r (tlv tag content ++ rest)
    → Reads (open_value tag) r (length content) (content ++ rest)
unfolding tlv
open_tlv-Reads tag content rest h holds =
    open_value-Reads tag (length content) (content ++ rest) h
      (omega (arith, length-append content rest))
      (rw (append_assoc (header tag (length content)) content rest) at holds)

pub read_boolean-Reads :
    (b : ℕ) (rest : List ℕ) {r : Reader}
    → Holds r (tlv Tag.boolean (b ∷ []) ++ rest)
    → Reads read_boolean r (if b == 0 then 0 else 1) rest
unfolding read_boolean
read_boolean-Reads b rest holds =
    Reads-bind _ (open_tlv-Reads Tag.boolean (b ∷ []) rest (omega arith) holds) λ s hs.
      require-Reads (1 == 1) bad_format refl λ _.
        Reads-bind (λ val. return (if val == 0 then 0 else 1)) (read_byte-Reads hs)
          λ s hs. Reads-return _ hs

pub read_null-Reads :
    (rest : List ℕ) {r : Reader} → Holds r (tlv Tag.null [] ++ rest) → Reads read_null r tt rest
unfolding read_null
read_null-Reads rest holds =
    Reads-bind _ (open_tlv-Reads Tag.null [] rest (omega arith) holds)
      λ s hs. record { last = s; returns = refl; holds = hs }

-- The pointer that the caller gets starts with the value.
pub record PointsTo (content : List ℕ) (r : Reader) (rest : List ℕ)
    (m : Call Reader (Option (List ℕ) × ℕ)) : Type 0 where
  pub start : List ℕ
  pub value : take (length content) start ≡ content
  pub reads : Reads m r (some start, length content) rest

pub read_string-PointsTo :
    (tag : ℕ) (content rest : List ℕ) {r : Reader}
    → length content < 2 ^ 64
    → Holds r (tlv tag content ++ rest)
    → PointsTo content r rest (read_string tag true)
unfolding read_string pointer
read_string-PointsTo tag content rest h holds =
    let opened = open_tlv-Reads tag content rest h holds in
    let s = opened.last in
    let skipped = skip_bytes-Reads content rest (length content) opened.holds refl in
    record {
      start = drop s.pos s.bytes;
      value = value_at_pos content rest (length content) opened.holds refl;
      reads = record {
        last = skipped.last;
        returns = rw opened.returns (rw skipped.returns refl);
        holds = skipped.holds;
      };
    }

-- The reader over a value, and the position behind it.
pub record Enters (content : List ℕ) (r : Reader) (rest : List ℕ) (m : Call Reader Reader)
    : Type 0 where
  pub inner : Reader
  pub inside : Holds inner content
  pub reads : Reads m r inner rest

pub read_container-Enters :
    (tag : ℕ) (content rest : List ℕ) {r : Reader}
    → length content < 2 ^ 64
    → Holds r (tlv tag content ++ rest)
    → Enters content r rest (read_container tag)
unfolding read_container sub_reader
read_container-Enters tag content rest h holds =
    let opened = open_tlv-Reads tag content rest h holds in
    let skipped = skip_bytes-Reads content rest (length content) opened.holds refl in
    record {
      inner = _;
      inside = inner-Holds content rest opened.holds;
      reads = record {
        last = skipped.last;
        returns = rw opened.returns (rw skipped.returns refl);
        holds = skipped.holds;
      };
    }

pub skip-Reads :
    (tag : ℕ) (content rest : List ℕ) {r : Reader}
    → length content < 2 ^ 64
    → Holds r (tlv tag content ++ rest)
    → Reads skip r tt rest
unfolding skip tlv
skip-Reads tag content rest h holds =
    Reads-bind _
      (read_tag-Reads tag (length content) (content ++ rest) h
        (omega (arith, length-append content rest))
        (rw (append_assoc (header tag (length content)) content rest) at holds))
      λ s hs. skip_bytes-Reads content rest (length content) hs refl
