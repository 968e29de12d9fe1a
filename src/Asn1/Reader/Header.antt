-- ===== src/Asn1/Reader/Header.antt =====
-- `sdc_asn1_read_tag` on headers of X.690.

use slim_data_crypt.Common.{
  ℕ, ◌+◌, ◌*◌, ◌/◌, ◌^◌, ◌≤◌, ◌<◌, ◌≡◌, ap, ◌∙◌, true, false, not, ◌&&◌, List, [], ◌∷◌, ◌++◌,
  length, arith, ltb, leb, ◌==◌, Bool-cases, inl, inr, bit_and, bit_or, u64, size_max, All, IsByte,
}
use slim_data_crypt.Common.{bad_length, bad_tag}
use slim_data_crypt.Common.Bits.{top_bit, low_seven, bit_or_low}
use slim_data_crypt.Asn1.Der.{
  be_value, le-be_value, be_value-octets, octets, octets-IsByte, octets-StartsNonzero,
  length-octets, StartsNonzero, starts, length_field, header,
}
use slim_data_crypt.Asn1.Reader.{
  Reader, read_length_octets, read_long_length, read_length, read_tag, open_value,
}
use slim_data_crypt.Asn1.Reader.View.{
  Holds, Reads, Reads-bind, Reads-return, read_byte-Reads, require-Reads, check_length-Reads,
}

first_pos : {b : ℕ} {bs : List ℕ} → StartsNonzero (b ∷ bs) → 0 < b
first_pos (starts b bs h) = h

-- The loop reads as many octets as it has rounds, if the first of all is not 0.
read_length_octets-Reads :
    (bs rest : List ℕ) (i acc : ℕ) {r : Reader}
    → All IsByte bs
    → be_value acc bs < 2 ^ 64
    → (i ≡ 0 → StartsNonzero bs)
    → Holds r (bs ++ rest)
    → Reads (read_length_octets (length bs) i acc) r (be_value acc bs) rest
unfolding read_length_octets
read_length_octets-Reads [] rest i acc bytes h nz holds = Reads-return acc holds
read_length_octets-Reads (b ∷ bs) rest i acc bytes h nz holds =
    let small : acc * 256 + b < 2 ^ 64 = omega (arith, le-be_value (acc * 256 + b) bs) in
    let uncut : u64 (acc * 2 ^ 8) ≡ acc * 256 = omega arith in
    let shifted : bit_or (u64 (acc * 2 ^ 8)) b ≡ acc * 256 + b =
      ap (λ t. bit_or t b) uncut ∙ bit_or_low 8 acc b bytes.0 in
    let kept : not (i == 0 && b == 0) ≡ true = ground (arith, λ (e : i ≡ 0). first_pos (nz e)) in
    Reads-bind _ (read_byte-Reads holds) λ s hs.
      require-Reads (not (i == 0 && b == 0)) bad_length kept λ _.
        require-Reads (leb acc (size_max / 2 ^ 8)) bad_length (ground arith) λ _. rw shifted (
          read_length_octets-Reads bs rest (i + 1) (acc * 256 + b) bytes.1 h
            (λ e. absurd (omega arith)) hs)

read_long_length-Reads :
    (n : ℕ) (rest : List ℕ) {r : Reader}
    → 128 ≤ n
    → n < 2 ^ 64
    → Holds r (octets 8 n ++ rest)
    → Reads (read_long_length (128 + length (octets 8 n))) r n rest
unfolding read_long_length
read_long_length-Reads n rest low h holds =
    let k = length (octets 8 n) in
    let nonzero = octets-StartsNonzero 8 n (omega arith) h in
    let some_octet : 0 < k = length_pos nonzero in
    let few : k ≤ 8 = length-octets 8 n in
    let count : bit_and (128 + k) 0x7f ≡ k = omega (arith, low_seven (128 + k) (omega arith)) in
    let value : be_value 0 (octets 8 n) ≡ n = be_value-octets 8 n h in
    rw count (
      require-Reads (not (k == 0) && leb k 8) bad_length (ground arith) λ _.
        Reads-bind _
          (rw value at (
            read_length_octets-Reads (octets 8 n) rest 0 0 (octets-IsByte 8 n) (rw value h)
              (λ e. nonzero) holds))
          λ s hs. require-Reads (leb 0x80 n) bad_length (ground arith) λ _. Reads-return n hs)
  where
    length_pos : {xs : List ℕ} → StartsNonzero xs → 0 < length xs
    length_pos (starts b bs q) = omega arith

read_length-Reads :
    (n : ℕ) (rest : List ℕ) {r : Reader}
    → n < 2 ^ 64
    → Holds r (length_field n ++ rest)
    → Reads read_length r n rest
unfolding read_length length_field
read_length-Reads n rest h holds = elim (Bool-cases (ltb n 128)) [
  | inl short ↦
      let top : (bit_and n 0x80 == 0) ≡ true = ground (arith, top_bit n (ground arith)) in
      Reads-bind _ (read_byte-Reads (rw short at holds)) λ s hs. rw top (Reads-return n hs)
  | inr long ↦
      let few = length-octets 8 n in
      let b = 128 + length (octets 8 n) in
      let top : (bit_and b 0x80 == 0) ≡ false = ground (arith, few, top_bit b (omega arith)) in
      Reads-bind _ (read_byte-Reads (rw long at holds))
        λ s hs. rw top (read_long_length-Reads n rest (ground arith) h hs)
]

-- `sdc_asn1_read_tag` on a header that X.690 prescribes, with a value of that length behind it.
pub read_tag-Reads :
    (tag n : ℕ) (rest : List ℕ) {r : Reader}
    → n < 2 ^ 64
    → n ≤ length rest
    → Holds r (header tag n ++ rest)
    → Reads read_tag r (tag, n) rest
unfolding read_tag header
read_tag-Reads tag n rest h fits holds = Reads-bind _ (read_byte-Reads holds) λ s hs.
    Reads-bind _ (read_length-Reads n rest h hs)
      λ s hs. Reads-bind _ (check_length-Reads n hs fits) λ s hs. Reads-return (tag, n) hs

pub open_value-Reads :
    (tag n : ℕ) (rest : List ℕ) {r : Reader}
    → n < 2 ^ 64
    → n ≤ length rest
    → Holds r (header tag n ++ rest)
    → Reads (open_value tag) r n rest
unfolding open_value
open_value-Reads tag n rest h fits holds =
    Reads-bind _ (read_tag-Reads tag n rest h fits holds)
      λ s hs. require-Reads (tag == tag) bad_tag (ground arith) λ _. Reads-return n hs
