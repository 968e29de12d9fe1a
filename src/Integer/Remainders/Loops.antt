-- ===== src/Integer/Remainders/Loops.antt =====
-- The loops of reduction and doubling, and the remainder.
use mathlib.Core.Path.{subst}
use slim_data_crypt.Common.{
  ℕ, zero, suc, ◌+◌, ◌-◌, ◌*◌, ◌/◌, ◌%◌, ◌^◌, ◌<◌, ◌≤◌, ◌≡◌, refl, ap, sym, ◌∙◌, false, List, [],
  ◌∷◌, length, All, arith, bit_or, ◌==◌,
}
use native.Mathlib.Nat.{
  pow-suc, mul-add-mod_self_right, mod-eq_of_lt, div-div-eq-div-mul, div-eq_of_lt, div-one,
}
use slim_data_crypt.Common.Bits.{bit_or_low}
use slim_data_crypt.Integer.{IsWord, value, scale, add, add_loop, sub_ctl, gte, set_word}
use slim_data_crypt.Integer.Values.{value-lt_scale, zeros_lem}
use slim_data_crypt.Integer.Sums.{Sum, add_loop-Sum}
use slim_data_crypt.Integer.Compare.{eq_word_lem}
use slim_data_crypt.Integer.Remainders.{
  bit_at, or_low, shift_in_bit, reduce_loop, reduce, double_loop, precompute_R2, to_mont,
}
use slim_data_crypt.Integer.Remainders.Bits.{bit_at_lem, pow_add}
use slim_data_crypt.Integer.Remainders.Reduce.{Reduced, subtracted}

-- The doubled number is even, so that `|=` adds the bit.
or_low_lem :
    (r : List ℕ) (bit : ℕ)
    → 0 < length r
    → All IsWord r
    → bit ≤ 1
    → (value (or_low bit (add r r).0) ≡ value (add r r).0 + bit)
      × (length (or_low bit (add r r).0) ≡ length (add r r).0)
      × All IsWord (or_low bit (add r r).0)
unfolding or_low add add_loop
or_low_lem [] bit l p h = absurd (omega arith)
or_low_lem (x ∷ xs) bit l p h =
    let w = (0 + (x + x)) % 2 ^ 128 % 2 ^ 64 in
    let even : w ≡ x % 2 ^ 63 * 2 ^ 1 = omega (arith, p.0) in
    let low : bit_or w bit ≡ w + bit =
      ap (λ t. bit_or t bit) even ∙ bit_or_low 1 (x % 2 ^ 63) bit (omega arith) ∙ omega arith in
    let small : bit_or w bit < 2 ^ 64 = omega arith in
    let rest =
      add_loop-Sum xs xs _ refl p.1 p.1
        (let c : (0 + (x + x)) % 2 ^ 128 / 2 ^ 64 ≤ 1 = omega (arith, p.0) in c) in
    (omega (arith, low), refl, (small, rest.words))

module _ (n : List ℕ) (some_word : 0 < length n) (moduli : All IsWord n) where
  doubled-Sum :
      (r : List ℕ)
      → length r ≡ length n
      → All IsWord r
      → Sum (length n) (value r + value r) (add r r)
  unfolding add
  doubled-Sum r size words =
      let d = add_loop-Sum r r 0 refl words words (omega arith) in
      record {
        same_length = d.same_length ∙ size;
        words = d.words;
        bit = d.bit;
        sum = omega (arith, (rw size at d.sum));
      }

  pub shift_in_bit_lem :
      (r : List ℕ) (bit : ℕ)
      → length r ≡ length n
      → All IsWord r
      → bit ≤ 1
      → value r < value n
      → Reduced n (2 * value r + bit) (shift_in_bit n bit r).0 (shift_in_bit n bit r).1
  unfolding shift_in_bit
  shift_in_bit_lem r bit size words h below =
      let d = doubled-Sum r size words in
      let (more, same, all) = or_low_lem r bit (omega (arith, size)) words h in
      let r' = or_low bit (add r r).0 in
      let total : value r' + scale (length n) (add r r).1 ≡ 2 * value r + bit =
        omega (arith, more, d.sum) in
      subst (λ t. Reduced n t (shift_in_bit n bit r).0 (shift_in_bit n bit r).1) total
        (subtracted n r' (add r r).1 (same ∙ d.same_length) all moduli d.bit (omega (arith, total)))

  -- `r` is what is left of `t` after some moduli.
  record Remains (t : ℕ) (r : List ℕ) : Type 0 where
    quotient : ℕ
    same_length : length r ≡ length n
    words : All IsWord r
    below : value r < value n
    sum : value r + quotient * value n ≡ t

  Remains-mod : (t : ℕ) (r : List ℕ) → Remains t r → value r ≡ t % value n
  Remains-mod t r m =
      sym (mod-eq_of_lt m.below)
      ∙ sym (mul-add-mod_self_right m.quotient (value n) (value r))
      ∙ ap (λ k. k % value n) (omega (arith, m.sum))

  reduce_loop-Remains :
      (x : List ℕ) (i : ℕ) (r : List ℕ)
      → All IsWord x
      → Remains (value x / 2 ^ i) r
      → Remains (value x) (reduce_loop x n i r)
  unfolding reduce_loop
  reduce_loop-Remains x zero r p m = rw (div-one (value x)) at m
  reduce_loop-Remains x (suc i) r p m =
      let bit : bit_at x i ≡ value x / 2 ^ i % 2 = bit_at_lem x i p in
      let d = shift_in_bit_lem r (bit_at x i) m.same_length m.words (omega arith) m.below in
      let half : value x / 2 ^ i / 2 ≡ value x / 2 ^ suc i =
        div-div-eq-div-mul (value x) (2 ^ i) 2 ∙ ap (λ t. value x / t) (sym (pow-suc 2 i)) in
      let ge = (shift_in_bit n (bit_at x i) r).0 in
      let product : (2 * m.quotient + ge) * value n ≡ 2 * (m.quotient * value n) + ge * value n =
        grind arith in
      reduce_loop-Remains x i _ p (record {
        quotient = 2 * m.quotient + ge;
        same_length = d.same_length;
        words = d.words;
        below = d.below;
        sum = omega (arith, d.sum, m.sum, half, bit, product);
      })

  double_loop-Remains :
      (k t : ℕ) (r : List ℕ) → Remains t r → Remains (t * 2 ^ k) (double_loop n k r)
  unfolding double_loop
  double_loop-Remains zero t r m = rw (let e : t ≡ t * 2 ^ 0 = omega arith in e) at m
  double_loop-Remains (suc k) t r m =
      let d = doubled-Sum r m.same_length m.words in
      let s =
        subtracted n (add r r).0 (add r r).1 d.same_length d.words moduli d.bit
          (omega (arith, d.sum, m.below)) in
      let ge = bit_or (gte (add r r).0 n) (add r r).1 in
      let product : (2 * m.quotient + ge) * value n ≡ 2 * (m.quotient * value n) + ge * value n =
        grind arith in
      let next : Remains (t * 2) (sub_ctl (add r r).0 n ge).0 = record {
        quotient = 2 * m.quotient + ge;
        same_length = s.same_length;
        words = s.words;
        below = s.below;
        sum = omega (arith, s.sum, d.sum, m.sum, product);
      } in
      let power : t * 2 * 2 ^ k ≡ t * 2 ^ suc k =
        (let e : t * 2 * 2 ^ k ≡ t * (2 ^ k * 2) = grind arith in e)
        ∙ ap (λ u. t * u) (sym (pow-suc 2 k)) in
      subst (λ u. Remains u (double_loop n k (sub_ctl (add r r).0 n ge).0)) power
        (double_loop-Remains k (t * 2) (sub_ctl (add r r).0 n ge).0 next)

  to_mont-Remains :
      (x : List ℕ)
      → length x ≡ length n
      → All IsWord x
      → value x < value n
      → Remains (value x * 2 ^ (length n * 64)) (to_mont x n)
  unfolding to_mont
  to_mont-Remains x size words below =
      double_loop-Remains (length n * 64) (value x) x (record {
        quotient = 0;
        same_length = size;
        words = words;
        below = below;
        sum = omega arith;
      })

  -- For a modulus of at least one word, `sdc_int_to_mont` of a number below it gives that number
  -- times 2 for each bit of the modulus' array, modulo the modulus.
  pub to_mont_lem :
      (x : List ℕ)
      → length x ≡ length n
      → All IsWord x
      → value x < value n
      → value (to_mont x n) ≡ value x * 2 ^ (length n * 64) % value n
  to_mont_lem x size words below =
      Remains-mod (value x * 2 ^ (length n * 64)) (to_mont x n) (to_mont-Remains x size words below)

  pub to_mont_words :
      (x : List ℕ)
      → length x ≡ length n
      → All IsWord x
      → value x < value n
      → (length (to_mont x n) ≡ length n) × All IsWord (to_mont x n)
  to_mont_words x size words below =
      let m = to_mont-Remains x size words below in (m.same_length, m.words)

  set_word_lem : (v : ℕ) → IsWord v → v < value n → Remains v (set_word v (length n))
  unfolding set_word
  set_word_lem v h below =
      let (none, size, words) = zeros_lem (length n - 1) in
      record {
        quotient = 0;
        same_length = omega (arith, size);
        words = (h, words);
        below = omega (arith, none);
        sum = omega (arith, none);
      }

  -- For a modulus above 1, `sdc_int_precompute_R2` gives the square of the power of two that has as
  -- many bits as its array, modulo the modulus.
  pub precompute_R2_lem : 1 < value n → value (precompute_R2 n) ≡ 2 ^ (length n * 64 * 2) % value n
  unfolding precompute_R2
  precompute_R2_lem above =
      Remains-mod (1 * 2 ^ (length n * 64 * 2)) _
        (double_loop-Remains (length n * 64 * 2) 1 _ (set_word_lem 1 (omega arith) above))
      ∙ ap (λ t. t % value n) (omega arith)

  scale_pow : (k : ℕ) → scale k 1 ≡ 2 ^ (k * 64)
  scale_pow zero = refl
  scale_pow (suc k) =
      omega (arith, scale_pow k, pow_add 64 (k * 64))
      ∙ ap (λ t. 2 ^ t) (let e : 64 + k * 64 ≡ suc k * 64 = omega arith in e)

  reduce-Remains : (r x : List ℕ) → All IsWord x → 0 < value n → Remains (value x) (reduce r x n)
  unfolding reduce
  reduce-Remains r x words positive =
      let nonzero : (value n == 0) ≡ false = ground arith in
      let some_words : (length n == 0) ≡ false = ground arith in
      let top : value x < 2 ^ (length x * 64) =
        omega (arith, value-lt_scale x words, scale_pow (length x)) in
      let none : value x / 2 ^ (length x * 64) ≡ 0 = div-eq_of_lt top in
      rw (some_words, eq_word_lem n 0 some_word moduli (omega arith), nonzero)
        (reduce_loop-Remains x (length x * 64) (set_word 0 (length n)) words (
          subst (λ t. Remains t (set_word 0 (length n))) (sym none)
            (set_word_lem 0 (omega arith) positive)))

  pub reduce_words :
      (r x : List ℕ)
      → All IsWord x
      → 0 < value n
      → (length (reduce r x n) ≡ length n) × All IsWord (reduce r x n)
  reduce_words r x words positive =
      let m = reduce-Remains r x words positive in (m.same_length, m.words)

  -- `sdc_int_reduce` with a modulus that is not 0 gives the remainder of the number, whatever the
  -- lengths and whatever the result's array held.
  pub reduce_lem :
      (r x : List ℕ) → All IsWord x → 0 < value n → value (reduce r x n) ≡ value x % value n
  reduce_lem r x words positive =
      Remains-mod (value x) (reduce r x n) (reduce-Remains r x words positive)

  -- The array with one word.
  pub set_word_words :
      (v : ℕ)
      → IsWord v
      → v < value n
      → (length (set_word v (length n)) ≡ length n)
        × All IsWord (set_word v (length n))
        × (value (set_word v (length n)) ≡ v)
  set_word_words v h below =
      let m = set_word_lem v h below in
      (m.same_length, m.words, Remains-mod v (set_word v (length n)) m ∙ mod-eq_of_lt below)
