-- ===== src/Asn1/Writer/Integers.antt =====
-- The writer of an INTEGER from a `uint64_t`, and the shortest encoding.
use mathlib.Core.Path.{fun_ext}
use mathlib.Core.Bool.{◌||◌}
use native.Mathlib.Nat.{pow-suc, div-div-eq-div-mul}
use native.Mathlib.Numerals.{towards_suc}
use slim_data_crypt.Common.{
  ℕ, zero, suc, ◌+◌, ◌*◌, ◌/◌, ◌^◌, ◌≤◌, ◌<◌, ◌≡◌, refl, ap, sym, ◌∙◌, true, false, not, List, [],
  ◌∷◌, ◌++◌, length, take_all, arith, ltb, ◌==◌, Bool-cases, inl, inr, some, u8, if◌then◌else◌, All,
  IsByte, append_assoc, bit_and, size_max,
}
use slim_data_crypt.Common.Words.{byte_at}
use slim_data_crypt.Common.Bits.{top_bit}
use slim_data_crypt.Asn1.Tag
use slim_data_crypt.Asn1.Der.{
  octets, header, tlv, unsigned_content, u64_digits, octets-IsByte, octets-StartsNonzero,
  StartsNonzero, starts, length-octets,
}
use slim_data_crypt.Asn1.Writer.Values.{
  strip_zeros, write_stripped, write_integer, u64_octets, write_integer_u64,
}
use slim_data_crypt.Asn1.Writer.Prepend.{Prepends, Prepends-seq}
use slim_data_crypt.Asn1.Writer.Header.{
  write_byte_rev-Prepends, write_whole-Prepends, write_tlv_header_rev-Prepends,
}
use slim_data_crypt.Asn1.Writer.Encodings.{write_tlv-Prepends}

first-IsByte : (xs : List ℕ) → All IsByte xs → byte_at xs 0 < 256
first-IsByte [] h = omega arith
first-IsByte (x ∷ xs) h = h.0

write_stripped-Prepends :
    (actual : List ℕ)
    → All IsByte actual
    → length actual + 1 < 2 ^ 64
    → Prepends (write_stripped actual) (tlv Tag.integer (unsigned_content actual))
unfolding write_stripped unsigned_content
write_stripped-Prepends actual bytes h =
    let top = top_bit (byte_at actual 0) (first-IsByte actual bytes) in
    elim (Bool-cases (ltb (byte_at actual 0) 128)) [
      | inl e ↦
          let low : (bit_and (byte_at actual 0) 0x80 == 0) ≡ true = ground arith in
          rw (e, low) (write_tlv-Prepends Tag.integer actual (omega arith))
      | inr e ↦
          let high : (bit_and (byte_at actual 0) 0x80 == 0) ≡ false = ground arith in
          let room : (length actual == size_max) ≡ false = ground arith in
          rw (e, high, room, regroup)
            (Prepends-seq (write_whole-Prepends actual) (
              Prepends-seq (write_byte_rev-Prepends 0)
                (write_tlv_header_rev-Prepends Tag.integer (length actual + 1) h)))
    ]
  where
    regroup :
        tlv Tag.integer (0 ∷ actual)
        ≡ (header Tag.integer (length actual + 1) ++ (0 ∷ [])) ++ actual
    regroup =
        unfold tlv in
        ap (λ n. header Tag.integer n ++ (0 ∷ actual))
          (let e : suc (length actual) ≡ length actual + 1 = omega arith in e)
        ∙ sym (append_assoc (header Tag.integer (length actual + 1)) (0 ∷ []) actual)

-- One round of the loop, seen from its last byte.
abbrev keep_byte : List ℕ → ℕ → List ℕ
keep_byte buf byte = if not (byte == 0) || not (length buf == 0) then buf ++ (byte ∷ []) else buf

pow_byte : (s : ℕ) → 2 ^ (s + 8) ≡ 256 * 2 ^ s
pow_byte s = simp towards_suc (omega arith)

shift_byte : (i v : ℕ) → v / 2 ^ (suc i * 8) ≡ v / 256 / 2 ^ (i * 8)
shift_byte i v =
    ap (λ t. v / t)
      ((let e : 2 ^ (suc i * 8) ≡ 2 ^ (i * 8 + 8) = ap (λ t. 2 ^ t) (omega arith) in e)
        ∙ pow_byte (i * 8))
    ∙ sym (div-div-eq-div-mul v 256 (2 ^ (i * 8)))

u64_octets_last :
    (i v : ℕ) (buf : List ℕ)
    → u64_octets (suc i) v buf ≡ keep_byte (u64_octets i (v / 256) buf) (u8 v)
unfolding u64_octets
u64_octets_last zero v buf = ap (λ t. keep_byte buf (u8 t)) (let e : v / 1 ≡ v = omega arith in e)
u64_octets_last (suc i) v buf =
    u64_octets_last i v (keep_byte buf (u8 (v / 2 ^ (suc i * 8))))
    ∙ ap (λ t. keep_byte (u64_octets i (v / 256) (keep_byte buf (u8 t))) (u8 v)) (shift_byte i v)

length-StartsNonzero : {xs : List ℕ} → StartsNonzero xs → 0 < length xs
length-StartsNonzero (starts b bs h) = omega arith

octets_of_zero : (k n : ℕ) → n ≡ 0 → octets k n ≡ []
unfolding octets
octets_of_zero zero n e = refl
octets_of_zero (suc k) n e = ground arith

-- The loop collects the digits to the base 256.
u64_octets-octets : (k v : ℕ) → v < 256 ^ k → u64_octets k v [] ≡ octets k v
unfolding octets
u64_octets-octets zero v h = unfold u64_octets in refl
u64_octets-octets (suc k) v h =
    let small : v / 256 < 256 ^ k = omega (arith, pow-suc 256 k) in
    u64_octets_last k v []
    ∙ ap (λ t. keep_byte t (u8 v)) (u64_octets-octets k (v / 256) small)
    ∙ ground (
      arith,
      octets_of_zero k (v / 256),
      λ (p : 0 < v / 256). length-StartsNonzero (octets-StartsNonzero k (v / 256) p small),
    )

strip-StartsNonzero : {xs : List ℕ} → StartsNonzero xs → strip_zeros xs ≡ xs
unfolding strip_zeros
strip-StartsNonzero (starts b [] h) = refl
strip-StartsNonzero (starts b (c ∷ cs) h) = ground arith

u64_digits_loop :
    (v : ℕ) → v < 2 ^ 64 → (if v == 0 then 0 ∷ [] else u64_octets 8 v []) ≡ u64_digits v
unfolding u64_digits
u64_digits_loop v h = ground (arith, u64_octets-octets 8 v h)

strip-u64_digits : (v : ℕ) → v < 2 ^ 64 → strip_zeros (u64_digits v) ≡ u64_digits v
unfolding u64_digits
strip-u64_digits v h = elim (Bool-cases (v == 0)) [
  | inl e ↦ rw e (unfold strip_zeros in refl)
  | inr e ↦ rw e (strip-StartsNonzero (octets-StartsNonzero 8 v (ground arith) h))
]

pub u64_digits-IsByte : (v : ℕ) → All IsByte (u64_digits v)
unfolding u64_digits
u64_digits-IsByte v = elim (Bool-cases (v == 0)) [
  | inl e ↦ rw e (omega arith, tt)
  | inr e ↦ rw e (octets-IsByte 8 v)
]

pub length-u64_digits :
    (v : ℕ) → v < 2 ^ 64 → (0 < length (u64_digits v)) × (length (u64_digits v) ≤ 8)
unfolding u64_digits
length-u64_digits v h = elim (Bool-cases (v == 0)) [
  | inl e ↦ rw e (omega arith)
  | inr e ↦
      rw e (length-StartsNonzero (octets-StartsNonzero 8 v (ground arith) h), length-octets 8 v)
]

-- `sdc_asn1_write_integer` on an array that it reads as a whole.
write_integer-stripped :
    (source : List ℕ)
    → 0 < length source
    → write_integer (some source) (length source) ≡ write_stripped (strip_zeros source)
unfolding write_integer
write_integer-stripped source h =
    fun_ext λ w. rw (take_all source (length source) (omega arith)) (ground arith)

pub write_integer_u64-Prepends :
    (v : ℕ)
    → v < 2 ^ 64
    → Prepends (write_integer_u64 v) (tlv Tag.integer (unsigned_content (u64_digits v)))
unfolding write_integer_u64
write_integer_u64-Prepends v h =
    let (some_digit, few) = length-u64_digits v h in
    rw (u64_digits_loop v h, write_integer-stripped (u64_digits v) some_digit, strip-u64_digits v h)
      (write_stripped-Prepends (u64_digits v) (u64_digits-IsByte v) (omega arith))
