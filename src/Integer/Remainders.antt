-- ===== src/Integer/Remainders.antt =====
-- src/integer/integer.c: division and reduction, one bit of the dividend after the other.
use slim_data_crypt.Common.{
  ℕ, zero, suc, ◌+◌, ◌-◌, ◌*◌, ◌/◌, ◌%◌, ◌^◌, ◌<◌, ◌≤◌, ◌≡◌, refl, ap, sym, ◌∙◌, Bool, true, false,
  List, [], ◌∷◌, length, All, arith, bit_and, bit_or, ltb, leb, ◌==◌, ◌||◌, not, Bool-cases, inl,
  inr, if◌then◌else◌, get_or,
}
use slim_data_crypt.Integer.{
  IsWord, u128, value, scale, zeros, add, sub_ctl, gte, eq_word, set_word,
}
pub mod Bits
pub mod Reduce
pub mod Loops

-- Bit `i` of a number: `(x[i / SDC_WORD_BITS] >> (i % SDC_WORD_BITS)) & 1`.
unfoldable pub bit_at : List ℕ → ℕ → ℕ
bit_at x i = bit_and (get_or x (i / 64) 0 / 2 ^ (i % 64)) 1

-- `r[0] |= bit`.
unfoldable pub or_low : ℕ → List ℕ → List ℕ
or_low bit [] = []
or_low bit (w ∷ ws) = bit_or w bit ∷ ws

-- A round: `r * 2 + bit`, less `n` if that is not smaller. The flag of the subtraction, and the
-- new `r`.
unfoldable pub shift_in_bit : List ℕ → ℕ → List ℕ → ℕ × List ℕ
shift_in_bit n bit r =
    let doubled = add r r in
    let r' = or_low bit doubled.0 in
    let ge = bit_or (gte r' n) doubled.1 in (ge, (sub_ctl r' n ge).0)

-- The loop of `sdc_int_reduce`, `i` bits of `x` before its end.
unfoldable pub reduce_loop : List ℕ → List ℕ → ℕ → List ℕ → List ℕ
reduce_loop x n zero r = r
reduce_loop x n (suc i) r = reduce_loop x n i (shift_in_bit n (bit_at x i) r).1

-- `sdc_int_reduce`: what it writes to `r`, which it leaves for a modulus of no words or of 0.
unfoldable pub reduce : List ℕ → List ℕ → List ℕ → List ℕ
reduce r x n =
    if length n == 0 || not (eq_word n 0 == 0)
    then r
    else reduce_loop x n (length x * 64) (set_word 0 (length n))

-- `q[k] |= x`.
unfoldable pub or_word : ℕ → ℕ → List ℕ → List ℕ
or_word k x [] = []
or_word zero x (w ∷ ws) = bit_or w x ∷ ws
or_word (suc k) x (w ∷ ws) = w ∷ or_word k x ws

-- The loop of `sdc_int_div`: quotient and remainder.
unfoldable pub div_loop : List ℕ → List ℕ → ℕ → List ℕ → List ℕ → List ℕ × List ℕ
div_loop a b zero q r = (q, r)
div_loop a b (suc i) q r =
    let round = shift_in_bit b (bit_at a i) r in
    div_loop a b i (or_word (i / 64) (round.0 * 2 ^ (i % 64)) q) round.1

-- `sdc_int_div`, with an array for the quotient; `q` and `r` are what it leaves otherwise.
unfoldable pub div : List ℕ → List ℕ → List ℕ → List ℕ → List ℕ × List ℕ
div q r a b =
    if length a == 0 || length b == 0 || not (eq_word b 0 == 0)
    then (q, r)
    else div_loop a b (length a * 64) (set_word 0 (length a)) (set_word 0 (length b))

-- The loops of `sdc_int_precompute_R2` and `sdc_int_to_mont`, which double `k` times.
unfoldable pub double_loop : List ℕ → ℕ → List ℕ → List ℕ
double_loop n zero x = x
double_loop n (suc k) x =
    let doubled = add x x in
    double_loop n k (sub_ctl doubled.0 n (bit_or (gte doubled.0 n) doubled.1)).0

-- `sdc_int_precompute_R2`.
unfoldable pub precompute_R2 : List ℕ → List ℕ
precompute_R2 n = double_loop n (length n * 64 * 2) (set_word 1 (length n))

-- `sdc_int_to_mont`.
unfoldable pub to_mont : List ℕ → List ℕ → List ℕ
to_mont x n = double_loop n (length n * 64) x
