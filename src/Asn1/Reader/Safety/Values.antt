-- ===== src/Asn1/Reader/Safety/Values.antt =====
-- Typed readers of src/asn1/asn1parse.c on any input: containers, INTEGER as a `uint64_t`,
-- BOOLEAN, NULL, strings, BIT STRING, and skipping.
use slim_data_crypt.Common.{
  ℕ, ◌+◌, ◌-◌, ◌*◌, ◌/◌, ◌^◌, ◌≤◌, ◌<◌, ◌≡◌, refl, Bool, true, false, List, [], ◌∷◌, length,
  length-drop, All-drop, drop, Option, none, some, arith, ltb, leb, ◌==◌, Bool-cases, inl, inr, All,
  IsByte, u64, bit_and, bit_or, not, ◌&&◌, require,
}
use slim_data_crypt.Common.{bad_format, bad_length, integer_too_large}
use slim_data_crypt.Common.Bits.{or_lt}
use slim_data_crypt.Common.Words.{byte_at}
use slim_data_crypt.Common.Words.Load.{load64_be-lt}
use slim_data_crypt.Asn1.Tag
use slim_data_crypt.Asn1.Reader.{Reader, load}
use slim_data_crypt.Asn1.Reader.Values.{
  sub_reader, read_container, padded_at_pos, shift_in, u64_of_buffer, read_integer_to_u64,
  read_boolean, read_null, skip,
}
use slim_data_crypt.Asn1.Reader.Strings.{pointer, read_string, check_last, read_bit_string}
use slim_data_crypt.Asn1.Reader.View.{IsReader}
use slim_data_crypt.Asn1.Reader.Safety.{
  failed, SafeAt-then-keep, Within-refl, Fits, Safe, SafeAt, Always, succeeded, SafeAt-bind,
  SafeAt-then, SafeAt-require, SafeAt-return, SafeAt-weaken, require-Safe,
}
use slim_data_crypt.Asn1.Reader.Safety.Calls.{
  skip_bytes-SafeAt, skip_bytes-Safe, skip_bytes-SafeAt, read_bytes-Safe, load-Safe, read_byte-Safe,
  read_tag-Safe, open_value-Safe,
}

-- The inner reader is over bytes of the outer one's array, all of them there.
sub_reader-Safe :
    (len : ℕ) (r : Reader)
    → IsReader r
    → Fits len r
    → SafeAt (λ inner s. IsReader inner) (sub_reader len) r
unfolding sub_reader
sub_reader-Safe len r v fits = record {
  keeps = succeeded (Within-refl r v) (record {
    in_order = omega arith;
    backed = omega (arith, length-drop r.pos r.bytes, v.backed, v.in_order);
    word = omega (arith, v.word);
    of_bytes = All-drop IsByte r.pos r.bytes v.of_bytes;
  });
}

-- On any reader a SEQUENCE or SET is read with no access outside the array, and the reader that
-- the caller gets for its content is one that the same holds for.
pub read_container-Safe :
    (tag : ℕ) (r : Reader) → IsReader r → SafeAt (λ inner s. IsReader inner) (read_container tag) r
unfolding read_container
read_container-Safe tag r v = SafeAt-bind _ (open_value-Safe tag r v) λ len s w fits.
    SafeAt-bind _ (sub_reader-Safe len s w.valid fits) λ inner s w ok.
      SafeAt-then _ (skip_bytes-Safe len s w.valid) λ s w. SafeAt-return inner w.valid ok

padded_at_pos-Safe :
    (len : ℕ) (r : Reader) → IsReader r → Fits len r → SafeAt Always (padded_at_pos len) r
unfolding padded_at_pos
padded_at_pos-Safe len r v fits = record {
  keeps = elim (Bool-cases (ltb 1 len)) [
    | inl e ↦
        rw e
          (SafeAt-bind _ (load-Safe r.pos r v (ground arith)) λ first s w p.
            SafeAt-bind _ (load-Safe (r.pos + 1) s w.valid (ground (arith, w.same_length)))
              λ second s w q. SafeAt-return {P = Always} _ w.valid tt).keeps
    | inr e ↦ rw e (succeeded (Within-refl r v) tt)
  ];
}

shift_in-lt :
    (bytes : List ℕ) (val : ℕ) → All IsByte bytes → val < 2 ^ 64 → shift_in val bytes < 2 ^ 64
unfolding shift_in
shift_in-lt [] val h l = l
shift_in-lt (b ∷ bs) val h l =
    shift_in-lt bs (bit_or (u64 (val * 2 ^ 8)) b) h.1
      (or_lt 64 (u64 (val * 2 ^ 8)) b (omega arith) (omega arith))

u64_of_buffer-Safe :
    (len : ℕ) (buf : List ℕ) → All IsByte buf → Safe (λ n s. n < 2 ^ 64) (u64_of_buffer len buf)
unfolding u64_of_buffer
u64_of_buffer-Safe len buf bytes r v =
    SafeAt-require (bit_and (byte_at buf 0) 0x80 == 0) bad_format _ v λ _.
      elim (Bool-cases (len == 9)) [
        | inl e ↦ rw e (
            SafeAt-require (byte_at buf 0 == 0) integer_too_large _ v λ _.
              SafeAt-require (not (bit_and (byte_at buf 1) 0x80 == 0)) bad_format _ v
                λ _. SafeAt-return _ v (load64_be-lt (drop 1 buf) (All-drop IsByte 1 buf bytes)))
        | inr e ↦ rw e (SafeAt-return _ v (shift_in-lt buf 0 bytes (omega arith)))
      ]

-- On any reader an INTEGER is read with no access outside the array, and a result is a
-- `uint64_t`.
pub read_integer_to_u64-Safe :
    (r : Reader) → IsReader r → SafeAt (λ n s. n < 2 ^ 64) read_integer_to_u64 r
unfolding read_integer_to_u64
read_integer_to_u64-Safe r v = SafeAt-bind _ (open_value-Safe Tag.integer r v) λ len s w fits.
    SafeAt-require (not (len == 0)) bad_format _ w.valid λ _.
      SafeAt-bind _ (padded_at_pos-Safe len s w.valid fits) λ padded s w p.
        SafeAt-require (not padded) bad_format _ w.valid λ _.
          SafeAt-require (leb len 9) integer_too_large _ w.valid λ _.
            SafeAt-bind _ (read_bytes-Safe len s w.valid)
              λ buf s w p. u64_of_buffer-Safe len buf p.1 s w.valid

-- On any reader a BOOLEAN is read with no access outside the array, as 0 or 1.
pub read_boolean-Safe : (r : Reader) → IsReader r → SafeAt (λ b s. b ≤ 1) read_boolean r
unfolding read_boolean
read_boolean-Safe r v = SafeAt-bind _ (open_value-Safe Tag.boolean r v) λ len s w fits.
    SafeAt-require (len == 1) bad_format _ w.valid λ _.
      SafeAt-bind _ (read_byte-Safe s w.valid) λ val s w p. SafeAt-return _ w.valid (ground arith)

pub read_null-Safe : Safe Always read_null
unfolding read_null
read_null-Safe r v =
    SafeAt-bind _ (open_value-Safe Tag.null r v)
      λ len s w fits. SafeAt-weaken (λ _ _ _. tt) (require-Safe (len == 0) bad_length s w.valid)

-- On any reader a value is skipped with no access outside the array.
pub skip-Safe : (r : Reader) → IsReader r → SafeAt Always skip r
unfolding skip
skip-Safe r v = SafeAt-bind _ (read_tag-Safe r v) λ t s w fits. skip_bytes-Safe t.1 s w.valid

-- A pointer to at least `n` bytes.
abbrev pub Backs : Option (List ℕ) → ℕ → Type 0
Backs none n = Unit {0}
Backs (some start) n = n ≤ length start

pointer-Safe :
    (n : ℕ) (r : Reader) → IsReader r → Fits n r → SafeAt (λ start s. n ≤ length start) pointer r
unfolding pointer
pointer-Safe n r v fits = record {
  keeps =
      succeeded (Within-refl r v) (omega (arith, length-drop r.pos r.bytes, v.backed, v.in_order));
}

-- On any reader a string is read with no access outside the array, and the pointer that the
-- caller gets has as many bytes behind it as the length that the caller gets.
pub read_string-Safe :
    (tag : ℕ) (wanted : Bool) (r : Reader)
    → IsReader r
    → SafeAt (λ p s. Backs p.0 p.1) (read_string tag wanted) r
unfolding read_string
read_string-Safe tag true r v = SafeAt-bind _ (open_value-Safe tag r v) λ len s w fits.
    SafeAt-bind _ (pointer-Safe len s w.valid fits)
      λ start s w p. SafeAt-then _ (skip_bytes-Safe len s w.valid) λ s w. SafeAt-return _ w.valid p
read_string-Safe tag false r v =
    SafeAt-bind _ (open_value-Safe tag r v) λ len s w fits. SafeAt-return _ w.valid tt

check_last-Safe :
    (len unused : ℕ) (r : Reader)
    → IsReader r
    → Fits len r
    → SafeAt (λ u s. s.pos ≡ r.pos) (check_last len unused) r
unfolding check_last
check_last-Safe len unused r v fits = record {
  keeps = elim (Bool-cases (ltb 1 len && not (unused == 0))) [
    | inl e ↦
        rw e
          (SafeAt-bind _ (load-Safe (r.pos + len - 1) r v (ground arith)) λ last s w p.
            require-stays s w.valid (bit_and last (0xff / 2 ^ (8 - unused)) == 0) p.1).keeps
    | inr e ↦ rw e (succeeded (Within-refl r v) refl)
  ];
}
  where
    require-stays :
        (s : Reader)
        → IsReader s
        → (test : Bool) → s.pos ≡ r.pos
        → SafeAt (λ u t. t.pos ≡ r.pos) (require test bad_format) s
    require-stays s ok true p = record { keeps = succeeded (Within-refl s ok) p }
    require-stays s ok false p = record { keeps = failed (Within-refl s ok) }

load_here-Safe :
    (r : Reader)
    → IsReader r
    → Fits 1 r
    → SafeAt (λ b s. (b < 256) × (s.pos ≡ r.pos)) (λ r. load r.pos r) r
load_here-Safe r v fits = record { keeps = (load-Safe r.pos r v (omega (arith, v.in_order))).keeps }

-- On any reader a BIT STRING is read with no access outside the array, and the pointer that the
-- caller gets has as many bytes behind it as the length that the caller gets.
pub read_bit_string-Safe :
    (r : Reader) → IsReader r → SafeAt (λ p s. p.1 ≤ length p.0) read_bit_string r
unfolding read_bit_string
read_bit_string-Safe r v = SafeAt-bind _ (open_value-Safe Tag.bit_string r v) λ len a wa fits.
    SafeAt-require (leb 1 len) bad_format _ wa.valid λ some_byte.
      let there : 1 ≤ len = ground arith in
      SafeAt-bind _ (load_here-Safe a wa.valid (omega arith)) λ unused b wb p.
        SafeAt-require (leb unused 7) bad_format _ wb.valid λ _.
          SafeAt-require (not (len == 1 && not (unused == 0))) bad_format _ wb.valid λ _.
            SafeAt-then-keep
              (check_last-Safe len unused b wb.valid (omega (arith, wb.same_length, p.1)))
              λ c wc q. SafeAt-then-keep (skip_bytes-SafeAt 1 c wc.valid) λ d wd m.
                SafeAt-bind _
                  (pointer-Safe (len - 1) d wd.valid
                    (omega (arith, wb.same_length, p.1, wc.same_length, q, wd.same_length, m)))
                  λ start e we size.
                    SafeAt-then _ (skip_bytes-Safe (len - 1) e we.valid)
                      λ f wf. SafeAt-return _ wf.valid size
