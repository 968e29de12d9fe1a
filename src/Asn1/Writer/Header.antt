-- ===== src/Asn1/Writer/Header.antt =====
-- The helpers of the writer, and the header octets of X.690.
use slim_data_crypt.Common.{
  ℕ, zero, suc, ◌+◌, ◌-◌, ◌/◌, ◌%◌, ◌^◌, ◌≤◌, ◌<◌, ◌≡◌, refl, sym, ◌∙◌, false, List, [], ◌∷◌, ◌++◌,
  length, take, take_all, length-take, arith, ltb, ◌==◌, Bool-cases, inl, inr, some, u8, done, fail,
  append_assoc, append-nil, bit_or,
}
use slim_data_crypt.Common.{buffer_too_small}
use mathlib.Core.Path.{subst, fun_ext}
use mathlib.Core.Bool.{◌||◌}
use slim_data_crypt.Common.Bits.{set_top_bit}
use slim_data_crypt.Asn1.Der.{
  octets, length_field, header, length-octets, StartsNonzero, starts, octets-StartsNonzero,
}
use slim_data_crypt.Asn1.Writer.{
  Writer, break, write_byte_rev, write_bytes_rev, copy_in, length_octets, write_length_rev,
  write_tlv_header_rev,
}
use slim_data_crypt.Asn1.Writer.Prepend.{IsReady, emit, Prepends, Prepends-seq, write_at_nothing}

pub write_byte_rev-Prepends : (val : ℕ) → Prepends (write_byte_rev val) (val ∷ [])
unfolding write_byte_rev emit
write_byte_rev-Prepends val = record {
  fits = λ w r h. ground (arith, r.no_error, r.whole, r.in_buffer);
  short = λ w r h. record {
    last = break w;
    fails = ground (arith, r.no_error);
    broken = record { stopped = refl; kept = refl };
  };
  refused = λ w e. rw e;
}

module _ (source : List ℕ) (len : ℕ) (h : len ≤ length source) where
  size : length (take len source) ≡ len
  size = omega (arith, length-take len source)

  bytes_fit :
      (w : Writer)
      → IsReady w
      → length (take len source) ≤ w.pos
      → write_bytes_rev (some source) len w ≡ done tt (emit (take len source) w)
  unfolding write_bytes_rev copy_in emit
  bytes_fit w r p = ground (
    arith,
    size,
    r.no_error,
    r.whole,
    r.in_buffer,
    write_at_nothing (w.pos - len) (take len source) w.bytes,
  )

  bytes_short :
      (w : Writer)
      → IsReady w
      → w.pos < length (take len source)
      → write_bytes_rev (some source) len w ≡ fail buffer_too_small (break w)
  unfolding write_bytes_rev
  bytes_short w r p = ground (arith, size, r.no_error)

  pub write_bytes_rev-Prepends : Prepends (write_bytes_rev (some source) len) (take len source)
  unfolding write_bytes_rev
  write_bytes_rev-Prepends = record {
    fits = bytes_fit;
    short = λ w r p. record {
      last = break w;
      fails = bytes_short w r p;
      broken = record { stopped = refl; kept = refl };
    };
    refused = λ w e. rw e;
  }

-- All of a list.
pub write_whole-Prepends : (bs : List ℕ) → Prepends (write_bytes_rev (some bs) (length bs)) bs
write_whole-Prepends bs =
    rw (take_all bs (length bs) (omega arith)) at
      (write_bytes_rev-Prepends bs (length bs) (omega arith))

length_octets-octets : (k n : ℕ) (acc : List ℕ) → length_octets k n acc ≡ octets k n ++ acc
unfolding length_octets octets
length_octets-octets zero n acc = refl
length_octets-octets (suc k) n acc = elim (Bool-cases (n == 0)) [
  | inl e ↦ rw e
  | inr e ↦ rw e (
      length_octets-octets k (n / 256) (n % 256 ∷ acc)
      ∙ sym (append_assoc (octets k (n / 256)) (n % 256 ∷ []) acc))
]

octets_count : (n : ℕ) → 0 < n → n < 2 ^ 64 → (0 < length (octets 8 n)) × (length (octets 8 n) ≤ 8)
octets_count n p h = (positive (octets-StartsNonzero 8 n p h), length-octets 8 n)
  where
    positive : {xs : List ℕ} → StartsNonzero xs → 0 < length xs
    positive (starts b bs q) = omega arith

-- The octets that the function passes on, on either branch.
long_length :
    (n : ℕ)
    → n < 2 ^ 64
    → (w : Writer)
    → write_length_rev n w ≡ write_bytes_rev (some (length_field n)) (length (length_field n)) w
unfolding write_length_rev length_field
long_length n h w = elim (Bool-cases (ltb n 0x80)) [
  | inl e ↦ let low : u8 n ≡ n = ground arith in rw (e, low) refl
  | inr e ↦
      let (above, below) = octets_count n (ground arith) h in
      let plain : length_octets 8 n [] ≡ octets 8 n = length_octets-octets 8 n [] ∙ append-nil _ in
      let counted : (length (octets 8 n) == 0
            || ltb 0x7f (length (octets 8 n))
            || ltb 8 (length (octets 8 n)))
          ≡ false =
        ground arith in
      let first : u8 (bit_or 0x80 (length (octets 8 n))) ≡ 128 + length (octets 8 n) =
        omega (arith, set_top_bit (length (octets 8 n)) (omega arith)) in
      let counts : 1 + length (octets 8 n) ≡ suc (length (octets 8 n)) = omega arith in
      rw (e, plain, counted, first, counts) refl
]

pub write_length_rev-Prepends :
    (n : ℕ) → n < 2 ^ 64 → Prepends (write_length_rev n) (length_field n)
write_length_rev-Prepends n h =
    subst (λ m. Prepends m (length_field n)) (sym (fun_ext (long_length n h)))
      (write_whole-Prepends (length_field n))

pub write_tlv_header_rev-Prepends :
    (tag n : ℕ) → n < 2 ^ 64 → Prepends (write_tlv_header_rev tag n) (header tag n)
unfolding write_tlv_header_rev header
write_tlv_header_rev-Prepends tag n h =
    Prepends-seq (write_length_rev-Prepends n h) (write_byte_rev-Prepends tag)
