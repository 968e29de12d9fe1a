-- ===== src/Asn1/Reader/Safety/Calls.antt =====
-- The calls of src/asn1/asn1parse.c that the typed readers share, on any input.
use slim_data_crypt.Common.{
  ℕ, zero, suc, ◌+◌, ◌-◌, ◌*◌, ◌/◌, ◌%◌, ◌^◌, ◌≤◌, ◌<◌, ◌≡◌, refl, false, length, length-take,
  length-drop, All-take, All-drop, get_elem?-All, drop, arith, ltb, leb, ◌==◌, Bool-cases, inl, inr,
  All, IsByte, u64, size_max, bit_and, bit_or, not, ◌&&◌,
}
use slim_data_crypt.Common.{bad_length, bad_tag}
use slim_data_crypt.Asn1.Reader.{
  Reader, avail, advance, load, read_bytes, skip_bytes, read_byte, peek_tag, expect_tag,
  read_length_octets, read_long_length, read_length, check_length, read_tag, open_value,
}
use slim_data_crypt.Asn1.Reader.View.{IsReader}
use slim_data_crypt.Asn1.Reader.Safety.{
  Within, Fits, succeeded, failed, SafeAt, Safe, Always, Within-refl, Keeps-weaken, SafeAt-bind,
  require-Safe, SafeAt-require, SafeAt-return, SafeAt-weaken,
}

avail-IsReader : (r : Reader) → IsReader r → avail r ≡ r.length - r.pos
unfolding avail
avail-IsReader r v = omega (arith, v.in_order, v.word)

advance-Within : (n : ℕ) (r : Reader) → IsReader r → Fits n r → Within r (advance n r)
unfolding advance
advance-Within n r v h =
    let place : (r.pos + n) % 2 ^ 64 ≡ r.pos + n = omega (arith, v.word, v.in_order) in
    record {
      valid = record {
        in_order = omega (arith, place, v.in_order);
        backed = v.backed;
        word = v.word;
        of_bytes = v.of_bytes;
      };
      same_bytes = refl;
      same_length = refl;
      forward = omega (arith, place);
    }

-- Skipping moves on by just as many bytes.
pub skip_bytes-SafeAt :
    (n : ℕ) (r : Reader) → IsReader r → SafeAt (λ u s. s.pos ≡ r.pos + n) (skip_bytes n) r
unfolding skip_bytes
skip_bytes-SafeAt n r v = record {
  keeps = elim (Bool-cases (ltb (avail r) n)) [
    | inl e ↦ rw e (failed (Within-refl r v))
    | inr e ↦
        let fits : n ≤ r.length - r.pos = ground (arith, avail-IsReader r v) in
        rw e (
          succeeded (advance-Within n r v fits)
            (unfold advance in omega (arith, v.in_order, v.word)))
  ];
}

pub skip_bytes-Safe : (n : ℕ) → Safe Always (skip_bytes n)
skip_bytes-Safe n r v = SafeAt-weaken (λ _ _ _. tt) (skip_bytes-SafeAt n r v)

pub check_length-Safe : (n : ℕ) → Safe (λ len s. Fits len s × (len ≡ n)) (check_length n)
unfolding check_length
check_length-Safe n r v = record {
  keeps = elim (Bool-cases (ltb (avail r) n)) [
    | inl e ↦ rw e (failed (Within-refl r v))
    | inr e ↦ rw e (succeeded (Within-refl r v) (ground (arith, avail-IsReader r v), refl))
  ];
}

pub read_bytes-Safe : (n : ℕ) → Safe (λ bs s. (length bs ≡ n) × All IsByte bs) (read_bytes n)
unfolding read_bytes
read_bytes-Safe n r v = record {
  keeps = elim (Bool-cases (ltb (avail r) n)) [
    | inl e ↦ rw e (failed (Within-refl r v))
    | inr e ↦
        let fits : n ≤ r.length - r.pos = ground (arith, avail-IsReader r v) in
        let inside : ltb (length r.bytes) (r.pos + n) ≡ false =
          ground (arith, v.backed, v.in_order) in
        rw (e, inside)
          (succeeded (advance-Within n r v fits) (
            omega (
              arith,
              length-take n (drop r.pos r.bytes),
              length-drop r.pos r.bytes,
              v.backed,
              v.in_order,
            ),
            All-take IsByte n _ (All-drop IsByte r.pos r.bytes v.of_bytes),
          ))
  ];
}

-- A byte inside the value.
pub load-Safe :
    (i : ℕ) (r : Reader)
    → IsReader r
    → i < r.length
    → SafeAt (λ b s. (b < 256) × (s.pos ≡ r.pos)) (load i) r
unfolding load
load-Safe i r v h =
    let (b, found, small) = get_elem?-All IsByte r.bytes i v.of_bytes (omega (arith, v.backed)) in
    record { keeps = rw (found, load) (succeeded (Within-refl r v) (small, refl)) }

pub read_byte-Safe : Safe (λ b s. b < 256) read_byte
unfolding read_byte
read_byte-Safe r v = record {
  keeps = elim (Bool-cases (ltb (avail r) 1)) [
    | inl e ↦ rw e (failed (Within-refl r v))
    | inr e ↦
        let fits : 1 ≤ r.length - r.pos = ground (arith, avail-IsReader r v) in
        let (b, found, small) =
          get_elem?-All IsByte r.bytes r.pos v.of_bytes (omega (arith, v.backed)) in
        rw (e, found) (succeeded (advance-Within 1 r v fits) small)
  ];
}

pub peek_tag-Safe : Safe (λ tag s. tag < 256) peek_tag
unfolding peek_tag
peek_tag-Safe r v = record {
  keeps = elim (Bool-cases (leb r.length r.pos)) [
    | inl e ↦ rw e (failed (Within-refl r v))
    | inr e ↦ rw e (Keeps-weaken (λ b s p. p.0) (load-Safe r.pos r v (ground arith)).keeps)
  ];
}

pub expect_tag-Safe : (expected : ℕ) → Safe Always (expect_tag expected)
unfolding expect_tag
expect_tag-Safe expected r v =
    SafeAt-bind _ (peek_tag-Safe r v)
      λ tag s w p. SafeAt-weaken (λ _ _ _. tt) (require-Safe (tag == expected) bad_tag s w.valid)

read_length_octets-Safe : (left i len : ℕ) → Safe Always (read_length_octets left i len)
unfolding read_length_octets
read_length_octets-Safe zero i len r v = SafeAt-return len v tt
read_length_octets-Safe (suc left) i len r v = SafeAt-bind _ (read_byte-Safe r v) λ b s w p.
    SafeAt-require (not (i == 0 && b == 0)) bad_length _ w.valid λ _.
      SafeAt-require (leb len (size_max / 2 ^ 8)) bad_length _ w.valid
        λ _. read_length_octets-Safe left (i + 1) (bit_or (u64 (len * 2 ^ 8)) b) s w.valid

read_long_length-Safe : (b : ℕ) → Safe Always (read_long_length b)
unfolding read_long_length
read_long_length-Safe b r v =
    SafeAt-require (not (bit_and b 0x7f == 0) && leb (bit_and b 0x7f) 8) bad_length _ v λ _.
      SafeAt-bind _ (read_length_octets-Safe (bit_and b 0x7f) 0 0 r v) λ len s w p.
        SafeAt-require (leb 0x80 len) bad_length _ w.valid λ _. SafeAt-return len w.valid tt

read_length-Safe : Safe Always read_length
unfolding read_length
read_length-Safe r v = SafeAt-bind _ (read_byte-Safe r v) λ b s w p.
    elim (Bool-cases (bit_and b 0x80 == 0)) [
      | inl e ↦ rw e (SafeAt-return b w.valid tt)
      | inr e ↦ rw e (read_long_length-Safe b s w.valid)
    ]

-- On any reader a header is read with no access outside the array, and after it the whole value
-- lies before the reader.
pub read_tag-Safe : (r : Reader) → IsReader r → SafeAt (λ t s. Fits t.1 s) read_tag r
unfolding read_tag
read_tag-Safe r v = SafeAt-bind _ (read_byte-Safe r v) λ tag s w p.
    SafeAt-bind _ (read_length-Safe s w.valid) λ n s w p.
      SafeAt-bind _ (check_length-Safe n s w.valid)
        λ len s w p. SafeAt-return (tag, len) w.valid p.0

pub open_value-Safe : (expected : ℕ) → Safe (λ len s. Fits len s) (open_value expected)
unfolding open_value
open_value-Safe expected r v =
    SafeAt-bind _ (read_tag-Safe r v)
      λ t s w p. SafeAt-require (t.0 == expected) bad_tag _ w.valid λ _. SafeAt-return t.1 w.valid p
