-- ===== src/Rsa/Padding/Bytes.antt =====
-- The tests of src/rsa/pkcs1v15.c that do not branch, as bits.
use slim_data_crypt.Common.{
  ℕ, ◌+◌, ◌-◌, ◌/◌, ◌%◌, ◌^◌, ◌<◌, ◌≡◌, refl, ap, ◌∙◌, Bool, true, false, ◌&&◌, ◌||◌, not, bit_and,
  bit_or, bit_xor, u8, ltb, leb, ◌==◌, if◌then◌else◌, Bool-cases, inl, inr, arith,
}
use slim_data_crypt.Common.Bits.{agree_below, agree_below_sound, xor-IsByte}
use slim_data_crypt.Common.Bits.Masks.{xor_zero, xor_same}
use slim_data_crypt.Rsa.Padding.{neq, eq, below, length_ok}

-- A truth value as a number.
abbrev pub bit : Bool → ℕ
bit b = if b then 1 else 0

pub and_bits : (a b : Bool) → bit_and (bit a) (bit b) ≡ bit (a && b)
and_bits true true = refl
and_bits true false = refl
and_bits false true = refl
and_bits false false = refl

pub or_bits : (a b : Bool) → bit_or (bit a) (bit b) ≡ bit (a || b)
or_bits true true = refl
or_bits true false = refl
or_bits false true = refl
or_bits false false = refl

pub flip_bit : (b : Bool) → bit_xor (bit b) 1 ≡ bit (not b)
flip_bit true = refl
flip_bit false = refl

pub bit_is_zero : (b : Bool) → (bit b == 0) ≡ not b
bit_is_zero true = refl
bit_is_zero false = refl

sign_of_byte : (d : ℕ) → d < 256 → bit_or d (u8 (256 - d)) / 2 ^ 7 ≡ bit (not (d == 0))
unfolding agree_below
sign_of_byte = agree_below_sound _ _ 256 refl

pub neq_lem : (a b : ℕ) → a < 256 → b < 256 → neq a b ≡ bit (not (a == b))
unfolding neq
neq_lem a b h k =
    sign_of_byte (bit_xor a b) (xor-IsByte a b h k) ∙ ap (λ t. bit (not t)) (zero_test a b)
  where
    zero_test : (a b : ℕ) → (bit_xor a b == 0) ≡ (a == b)
    zero_test a b = elim (Bool-cases (a == b)) [
      | inl same ↦ (let e : a ≡ b = ground arith in rw (e, xor_same b) (ground arith))
      | inr other ↦ rw other (ground (arith, xor_zero a b))
    ]

pub eq_lem : (a b : ℕ) → a < 256 → b < 256 → eq a b ≡ bit (a == b)
unfolding eq
eq_lem a b h k = rw (neq_lem a b h k) (flip_bit (not (a == b)) ∙ ap bit (twice (a == b)))
  where
    twice : (t : Bool) → not (not t) ≡ t
    twice true = refl
    twice false = refl

pub below_lem : (i e : ℕ) → i < 2 ^ 63 → e < 2 ^ 63 → below i e ≡ bit (ltb i e)
unfolding below
below_lem i e h k = ground arith

pub length_ok_lem : (n : ℕ) → n < 2 ^ 15 → length_ok n ≡ bit (leb 8 n)
unfolding length_ok
length_ok_lem n h = elim (Bool-cases (leb 8 n)) [
  | inl long ↦
      let e : (n % 2 ^ 16 + 2 ^ 16 - 8) % 2 ^ 16 / 2 ^ 15 ≡ 0 = ground arith in rw (e, long) refl
  | inr short ↦
      let e : (n % 2 ^ 16 + 2 ^ 16 - 8) % 2 ^ 16 / 2 ^ 15 ≡ 1 = ground arith in rw (e, short) refl
]
