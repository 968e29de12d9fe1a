-- ===== src/Integer/Masks.antt =====
-- The masks of src/integer/integer.c for a control of 0 or 1, and the test for 0.
use slim_data_crypt.Common.{
  ℕ, zero, suc, ◌+◌, ◌-◌, ◌*◌, ◌%◌, ◌^◌, ◌≤◌, ◌≡◌, refl, false, List, [], ◌∷◌, length, All, arith,
  bit_xor, ◌==◌, if◌then◌else◌,
}
use slim_data_crypt.Common.Bits.{or_lt, xor_lt}
use slim_data_crypt.Common.Bits.Masks.{
  and_ones, and_zero, or_none_left, or_none_right, or_ge, xor_back, xor_none,
}
use slim_data_crypt.Integer.{
  IsWord, value, is_nonzero_word, gen_mask_word, ccopy, cswap, masked, add_ctl, sub_ctl,
}
use slim_data_crypt.Integer.Sums.{Sum, Difference, add_loop-Sum, sub_loop-Difference}

pub is_nonzero_word_lem : (x : ℕ) → IsWord x → is_nonzero_word x ≡ (if x == 0 then 0 else 1)
unfolding is_nonzero_word
is_nonzero_word_lem zero h = refl
is_nonzero_word_lem (suc x) h =
    let minus = (0 + 2 ^ 64 - suc x) % 2 ^ 64 in
    let below = or_lt 64 (suc x) minus h (omega arith) in
    let above = or_ge (suc x) minus in
    let positive : (suc x == 0) ≡ false = ground arith in
    rw positive (omega (arith, below, above.0, above.1))

mask_on : gen_mask_word 1 ≡ 2 ^ 64 - 1
unfolding gen_mask_word
mask_on = refl

mask_off : gen_mask_word 0 ≡ 0
unfolding gen_mask_word
mask_off = refl

pub masked_on : (bs : List ℕ) → All IsWord bs → masked 1 bs ≡ bs
unfolding masked
masked_on [] h = refl
masked_on (b ∷ bs) h = rw (mask_on, and_ones 64 b h.0, masked_on bs h.1) refl

masked_off :
    (bs : List ℕ)
    → (length (masked 0 bs) ≡ length bs) × (value (masked 0 bs) ≡ 0) × All IsWord (masked 0 bs)
unfolding masked
masked_off [] = (refl, refl, tt)
masked_off (b ∷ bs) =
    let (size, none, words) = masked_off bs in
    rw (mask_off, and_zero b) (omega (arith, size), omega (arith, none), (omega arith, words))

-- `sdc_int_cswap` on arrays of the same length: with the control 1 the words change places, with
-- 0 they stay.
pub cswap_lem :
    (xs ys : List ℕ)
    → length xs ≡ length ys
    → All IsWord xs
    → All IsWord ys
    → (cswap xs ys 1 ≡ (ys, xs)) × (cswap xs ys 0 ≡ (xs, ys))
unfolding cswap
cswap_lem [] [] e p q = (refl, refl)
cswap_lem [] (y ∷ ys) e p q = absurd (omega arith)
cswap_lem (x ∷ xs) [] e p q = absurd (omega arith)
cswap_lem (x ∷ xs) (y ∷ ys) e p q =
    let (on, off) = cswap_lem xs ys (omega arith) p.1 q.1 in
    (
      rw
          (
            mask_on,
            and_ones 64 (bit_xor x y) (xor_lt 64 x y p.0 q.0),
            (xor_back x y).0,
            (xor_back x y).1,
            on,
          )
          refl,
      rw (mask_off, and_zero (bit_xor x y), xor_none x, xor_none y, off) refl,
    )

-- `sdc_int_ccopy` on arrays of the same length copies with the control 1, and with 0 it leaves the
-- destination.
pub ccopy_lem :
    (dst src : List ℕ)
    → length dst ≡ length src
    → All IsWord dst
    → All IsWord src
    → (ccopy dst src 1 ≡ src) × (ccopy dst src 0 ≡ dst)
unfolding ccopy
ccopy_lem [] [] e p q = (refl, refl)
ccopy_lem [] (s ∷ ss) e p q = absurd (omega arith)
ccopy_lem (d ∷ ds) [] e p q = absurd (omega arith)
ccopy_lem (d ∷ ds) (s ∷ ss) e p q =
    let (on, off) = ccopy_lem ds ss (omega arith) p.1 q.1 in
    (
      rw (mask_on, and_zero d, and_ones 64 s q.0, or_none_left s, on) refl,
      rw (mask_off, and_zero s, and_ones 64 d p.0, or_none_right d, off) refl,
    )

-- `sdc_int_add_ctl` adds `ctl` times the second number.
pub add_ctl-Sum :
    (xs bs : List ℕ) (ctl : ℕ)
    → length xs ≡ length bs
    → All IsWord xs
    → All IsWord bs
    → ctl ≤ 1
    → Sum (length xs) (value xs + ctl * value bs) (add_ctl xs bs ctl)
unfolding add_ctl
add_ctl-Sum xs bs zero e p q h =
    let (size, none, words) = masked_off bs in
    let r = add_loop-Sum xs (masked 0 bs) 0 (omega (arith, size)) p words (omega arith) in
    record {
      same_length = r.same_length;
      words = r.words;
      bit = r.bit;
      sum = omega (arith, r.sum, none);
    }
add_ctl-Sum xs bs (suc zero) e p q h =
    let r = add_loop-Sum xs bs 0 e p q (omega arith) in
    rw (masked_on bs q) (record {
      same_length = r.same_length;
      words = r.words;
      bit = r.bit;
      sum = omega (arith, r.sum);
    })
add_ctl-Sum xs bs (suc (suc ctl)) e p q h = absurd (omega arith)

-- `sdc_int_sub_ctl` on numbers of the same number of words and with a control of 0 or 1: the words
-- and the borrow that it gives make up the difference from the control times the second number.
pub sub_ctl-Difference :
    (xs bs : List ℕ) (ctl : ℕ)
    → length xs ≡ length bs
    → All IsWord xs
    → All IsWord bs
    → ctl ≤ 1
    → Difference (length xs) (value xs) (ctl * value bs) (sub_ctl xs bs ctl)
unfolding sub_ctl
sub_ctl-Difference xs bs zero e p q h =
    let (size, none, words) = masked_off bs in
    let r = sub_loop-Difference xs (masked 0 bs) 0 (omega (arith, size)) p words (omega arith) in
    record {
      same_length = r.same_length;
      words = r.words;
      bit = r.bit;
      difference = omega (arith, r.difference, none);
    }
sub_ctl-Difference xs bs (suc zero) e p q h =
    let r = sub_loop-Difference xs bs 0 e p q (omega arith) in
    rw (masked_on bs q) (record {
      same_length = r.same_length;
      words = r.words;
      bit = r.bit;
      difference = omega (arith, r.difference);
    })
sub_ctl-Difference xs bs (suc (suc ctl)) e p q h = absurd (omega arith)
