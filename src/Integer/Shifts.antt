-- ===== src/Integer/Shifts.antt =====
-- src/integer/integer.c: shifts to the right and the count of trailing zeros.
use slim_data_crypt.Common.{
  ℕ, ◌+◌, ◌-◌, ◌*◌, ◌/◌, ◌%◌, ◌^◌, ◌≡◌, refl, List, [], ◌∷◌, ◌++◌, length, drop, All, arith, bit_or,
  leb, ◌==◌, if◌then◌else◌, u64,
}
use slim_data_crypt.Common.Bits.{bit_or_high}
use slim_data_crypt.Integer.{IsWord, value, zeros}

-- `sdc_int_shr1`; the array has a word.
unfoldable pub shr1 : List ℕ → List ℕ
shr1 [] = []
shr1 (x ∷ []) = x / 2 ∷ []
shr1 (x ∷ y ∷ xs) = bit_or (x / 2) (u64 (y * 2 ^ 63)) ∷ shr1 (y ∷ xs)

-- The loop of `sdc_int_shr` within the words, by `k` bits with `0 < k < 64`.
unfoldable pub shr_words : ℕ → List ℕ → List ℕ
shr_words k [] = []
shr_words k (x ∷ []) = x / 2 ^ k ∷ []
shr_words k (x ∷ y ∷ xs) = bit_or (x / 2 ^ k) (u64 (y * 2 ^ (64 - k))) ∷ shr_words k (y ∷ xs)

-- `sdc_int_shr`.
unfoldable pub shr : List ℕ → ℕ → List ℕ
shr x bits =
    let limbs = bits / 64 in
    let rest = drop limbs x in
    if bits == 0
    then x
    else (if leb (64 * length x) bits
        then zeros (length x)
        else (if bits % 64 == 0 then rest else shr_words (bits % 64) rest) ++ zeros limbs)

-- `sdc_int_shr1` on words halves their number.
pub shr1_lem : (xs : List ℕ) → All IsWord xs → value (shr1 xs) ≡ value xs / 2
unfolding shr1
shr1_lem [] h = refl
shr1_lem (x ∷ []) h = omega arith
shr1_lem (x ∷ y ∷ xs) h =
    let top : y * 2 ^ 63 % 2 ^ 64 ≡ y % 2 * 2 ^ 63 = omega arith in
    let word : bit_or (x / 2) (y % 2 * 2 ^ 63) ≡ x / 2 + y % 2 * 2 ^ 63 =
      bit_or_high 63 (y % 2) (x / 2) (omega (arith, h.0)) in
    rw (top, word) (omega (arith, shr1_lem (y ∷ xs) h.1))
