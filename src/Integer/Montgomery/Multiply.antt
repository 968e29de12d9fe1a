-- ===== src/Integer/Montgomery/Multiply.antt =====
-- Montgomery multiplication of src/integer/integer.c, and the product modulo the modulus.
use mathlib.Core.Path.{subst}
use slim_data_crypt.Common.{
  ℕ, zero, suc, ◌+◌, ◌-◌, ◌*◌, ◌/◌, ◌%◌, ◌^◌, ◌<◌, ◌≤◌, ◌≡◌, refl, ap, sym, ◌∙◌, List, [], ◌∷◌,
  ◌++◌, length, length-append, drop, All, All-append, arith, get_or, u64, bit_or,
}
use native.Mathlib.Nat.{mul-add-mod_self_right, mul-le-mul}
use slim_data_crypt.Integer.{IsWord, u128, value, scale, zeros, is_nonzero_word, gte, sub_ctl}
use slim_data_crypt.Integer.Values.{value-append, scale-add, zeros_lem, scale_zero}
use slim_data_crypt.Integer.Masks.{is_nonzero_word_lem}
use slim_data_crypt.Integer.Compare.{gte_lem}
use slim_data_crypt.Integer.Remainders.Bits.{pow_add}
use slim_data_crypt.Integer.Remainders.Reduce.{subtracted}
use slim_data_crypt.Integer.Montgomery.{mont_row, mont_loop, mont_mul}
use slim_data_crypt.Integer.Montgomery.Row.{Row, mont_row-Row, mont_row_first}

scale-mul : (k c : ℕ) → scale k (2 ^ 64 * c) ≡ 2 ^ 64 * scale k c
scale-mul zero c = refl
scale-mul (suc k) c = omega (arith, scale-mul k c)

-- The state between two rounds: less than the sum of the modulus and the second factor.
record Partial (n bound : ℕ) (r : List ℕ) (dh : ℕ) : Type 0 where
  same_length : length r ≡ n
  words : All IsWord r
  bit : dh ≤ 1
  below : value r + scale n dh < bound

-- What a row leaves, moved down by one word with the carries behind it.
pub moved :
    (k total dh : ℕ) (row : List ℕ × ℕ × ℕ)
    → Row (suc k) total row
    → get_or row.0 0 0 ≡ 0
    → dh ≤ 1
    → let zh = u128 (dh + row.1 + row.2) in
      let r = drop 1 row.0 ++ (u64 zh ∷ []) in
      (length r ≡ suc k)
      × All IsWord r
      × (zh / 2 ^ 64 ≤ 1)
      × (2 ^ 64 * (value r + scale (suc k) (zh / 2 ^ 64)) ≡ total + scale (suc k) dh)
moved k total dh ([], c, d) row none h = absurd (omega (arith, row.same_length))
moved k total dh (z ∷ zs, c, d) row none h =
    let zh = (dh + c + d) % 2 ^ 128 in
    let small : zh ≡ dh + c + d = omega (arith, row.first, row.second) in
    let size : length zs ≡ k = omega (arith, row.same_length) in
    let place : scale (length zs) (zh % 2 ^ 64 + 2 ^ 64 * 0) ≡ scale k (zh % 2 ^ 64) =
      ap (λ n. scale n (zh % 2 ^ 64 + 2 ^ 64 * 0)) size
      ∙ ap (scale k) (let e : zh % 2 ^ 64 + 2 ^ 64 * 0 ≡ zh % 2 ^ 64 = omega arith in e) in
    let halves : scale k zh ≡ scale k (zh % 2 ^ 64) + 2 ^ 64 * scale k (zh / 2 ^ 64) =
      ap (scale k) (let e : zh ≡ zh % 2 ^ 64 + 2 ^ 64 * (zh / 2 ^ 64) = omega arith in e)
      ∙ scale-add k (zh % 2 ^ 64) (2 ^ 64 * (zh / 2 ^ 64))
      ∙ ap (λ t. scale k (zh % 2 ^ 64) + t) (scale-mul k (zh / 2 ^ 64)) in
    let all : scale k zh ≡ scale k dh + scale k c + scale k d =
      ap (scale k) small ∙ scale-add k (dh + c) d ∙ ap (λ t. t + scale k d) (scale-add k dh c) in
    (
      omega (arith, length-append zs (zh % 2 ^ 64 ∷ []), size),
      All-append IsWord zs (zh % 2 ^ 64 ∷ []) row.words.1 (omega arith, tt),
      omega (arith, row.first, row.second),
      omega (arith, value-append zs (zh % 2 ^ 64 ∷ []), place, halves, all, row.sum),
    )

-- A round divides by the word size what it adds up to.
bound_lem :
    (v a b f n w : ℕ) → v < n + b → IsWord a → IsWord f → 2 ^ 64 * w ≡ v + a * b + f * n → w < n + b
bound_lem v a b f n w h p q e =
    let left : a ≤ 2 ^ 64 - 1 = omega arith in
    let right : f ≤ 2 ^ 64 - 1 = omega arith in
    let first : a * b ≤ (2 ^ 64 - 1) * b = mul-le-mul left (let r : b ≤ b = omega arith in r) in
    let second : f * n ≤ (2 ^ 64 - 1) * n = mul-le-mul right (let r : n ≤ n = omega arith in r) in
    omega arith

pub scale_pow : (k c : ℕ) → scale k c ≡ c * 2 ^ (k * 64)
scale_pow zero c = omega arith
scale_pow (suc k) c =
    let more : 2 ^ (suc k * 64) ≡ 2 ^ 64 * 2 ^ (k * 64) =
      ap (λ t. 2 ^ t) (let e : suc k * 64 ≡ 64 + k * 64 = omega arith in e) ∙ pow_add 64 (k * 64) in
    ap (λ t. 2 ^ 64 * t) (scale_pow k c)
    ∙ (let e : 2 ^ 64 * (c * 2 ^ (k * 64)) ≡ c * (2 ^ 64 * 2 ^ (k * 64)) = grind arith in e)
    ∙ ap (λ t. c * t) (sym more)

gte_bit : (r n : List ℕ) → length r ≡ length n → All IsWord r → All IsWord n → gte r n ≤ 1
gte_bit r n e p q = rw (gte_lem r n e p q) (ground arith)

nonzero_bit : (c : ℕ) → c ≤ 1 → is_nonzero_word c ≡ c
nonzero_bit zero h = is_nonzero_word_lem 0 (omega arith)
nonzero_bit (suc zero) h = is_nonzero_word_lem 1 (omega arith)
nonzero_bit (suc (suc c)) h = absurd (omega arith)

or_swap : (c g : ℕ) → c ≤ 1 → g ≤ 1 → bit_or c g ≡ bit_or g c
or_swap zero zero h k = refl
or_swap zero (suc zero) h k = refl
or_swap (suc zero) zero h k = refl
or_swap (suc zero) (suc zero) h k = refl
or_swap (suc (suc c)) g h k = absurd (omega arith)
or_swap zero (suc (suc g)) h k = absurd (omega arith)
or_swap (suc zero) (suc (suc g)) h k = absurd (omega arith)

flags : (c g : ℕ) → c ≤ 1 → g ≤ 1 → bit_or (is_nonzero_word c) g ≡ bit_or g c
flags c g h k = ap (λ t. bit_or t g) (nonzero_bit c h) ∙ or_swap c g h k

-- Numbers that differ by moduli have the same remainder.
congruent :
    (n o ge v power product quotient : ℕ)
    → o + ge * n ≡ v
    → v * power ≡ product + quotient * n
    → o * power % n ≡ product % n
congruent n o ge v power product quotient e f =
    sym (mul-add-mod_self_right (ge * power) n (o * power))
    ∙ ap (λ t. t % n)
        ((let g : ge * power * n + o * power ≡ (o + ge * n) * power = grind arith in g)
          ∙ ap (λ t. t * power) e
          ∙ f
          ∙ (let g : product + quotient * n ≡ quotient * n + product = omega arith in g))
    ∙ mul-add-mod_self_right quotient n product

-- The modulus `m ∷ ns`, the second factor `b ∷ bs` below it, and the negated inverse of `m`.
module _ (m : ℕ) (ns : List ℕ) (b : ℕ) (bs : List ℕ) (ninv : ℕ) (size : length bs ≡ length ns)
    (moduli : All IsWord (m ∷ ns)) (words : All IsWord (b ∷ bs))
    (inverse : (ninv * m + 1) % 2 ^ 64 ≡ 0) where
  abbrev bound : ℕ
  bound = value (m ∷ ns) + value (b ∷ bs)

  -- After the rounds, times the word size for each, there is the product and some moduli.
  record Multiplied (start a : ℕ) (k : ℕ) (out : List ℕ × ℕ) : Type 0 where
    partial : Partial (length (m ∷ ns)) bound out.0 out.1
    quotient : ℕ
    sum :
        scale k (value out.0 + scale (length (m ∷ ns)) out.1)
        ≡ start + a * value (b ∷ bs) + quotient * value (m ∷ ns)

  mont_loop-Multiplied :
      (xs r : List ℕ) (dh : ℕ)
      → value (b ∷ bs) < value (m ∷ ns)
      → All IsWord xs
      → Partial (length (m ∷ ns)) bound r dh
      → Multiplied
          (value r + scale (length (m ∷ ns)) dh)
          (value xs)
          (length xs)
          (mont_loop ninv xs (b ∷ bs) (m ∷ ns) r dh)
  unfolding mont_loop
  mont_loop-Multiplied [] r dh less p s = record { partial = s; quotient = 0; sum = omega arith }
  mont_loop-Multiplied (a ∷ xs) [] dh less p s = absurd (omega (arith, s.same_length))
  mont_loop-Multiplied (a ∷ xs) (r ∷ rs) dh less p s =
      let f = (r + a * b) % 2 ^ 64 * ninv % 2 ^ 64 in
      let row =
        mont_row-Row a f (r ∷ rs) (b ∷ bs) (m ∷ ns) 0 0 s.same_length (omega (arith, size)) p.0
          (omega arith) s.words words moduli (omega arith) (omega arith) in
      let low = mont_row_first a r b m ninv rs bs ns p.0 s.words.0 words.0 moduli.0 inverse in
      let (long, all, bit, sum) = moved (length ns) _ dh _ row low s.bit in
      let out = mont_row a f (r ∷ rs) (b ∷ bs) (m ∷ ns) 0 0 in
      let zh = u128 (dh + out.1 + out.2) in
      let v = value (r ∷ rs) + scale (suc (length ns)) dh in
      let made : 2 ^ 64
            * (value (drop 1 out.0 ++ (u64 zh ∷ [])) + scale (suc (length ns)) (zh / 2 ^ 64))
          ≡ v + a * value (b ∷ bs) + f * value (m ∷ ns) =
        omega (arith, sum) in
      let rest =
        mont_loop-Multiplied xs (drop 1 out.0 ++ (u64 zh ∷ [])) (zh / 2 ^ 64) less p.1 (record {
          same_length = long;
          words = all;
          bit = bit;
          below =
              bound_lem v a (value (b ∷ bs)) f (value (m ∷ ns)) _ s.below p.0 (omega arith) made;
        }) in
      let product1 : (a + 2 ^ 64 * value xs) * value (b ∷ bs)
          ≡ a * value (b ∷ bs) + 2 ^ 64 * (value xs * value (b ∷ bs)) =
        grind arith in
      let product2 : (f + 2 ^ 64 * rest.quotient) * value (m ∷ ns)
          ≡ f * value (m ∷ ns) + 2 ^ 64 * (rest.quotient * value (m ∷ ns)) =
        grind arith in
      record {
        partial = rest.partial;
        quotient = f + 2 ^ 64 * rest.quotient;
        sum = omega (arith, rest.sum, made, product1, product2);
      }

  -- The words of the product, its bound and its remainder.
  mont_mul_whole :
      (xs : List ℕ)
      → length xs ≡ length (m ∷ ns)
      → value (b ∷ bs) < value (m ∷ ns)
      → All IsWord xs
      → let out = mont_mul xs (b ∷ bs) (m ∷ ns) ninv in
        (length out ≡ length (m ∷ ns))
        × All IsWord out
        × (value out < value (m ∷ ns))
        × (value out * 2 ^ (length (m ∷ ns) * 64) % value (m ∷ ns)
            ≡ value xs * value (b ∷ bs) % value (m ∷ ns))
  mont_mul_whole xs same less p =
      let n = m ∷ ns in
      let (none, long, zero_words) = zeros_lem (length n) in
      let start : value (zeros (length n)) + scale (length n) 0 ≡ 0 =
        omega (arith, none, scale_zero (length n)) in
      let done_ = mont_loop-Multiplied xs (zeros (length n)) 0 less p (record {
        same_length = long;
        words = zero_words;
        bit = omega arith;
        below = omega (arith, start);
      }) in
      let out = mont_loop ninv xs (b ∷ bs) n (zeros (length n)) 0 in
      let s = done_.partial in
      let last =
        subtracted n out.0 out.1 s.same_length s.words moduli s.bit (omega (arith, s.below)) in
      let result : mont_mul xs (b ∷ bs) n ninv ≡ (sub_ctl out.0 n (bit_or (gte out.0 n) out.1)).0 =
        (let q : mont_mul xs (b ∷ bs) n ninv
              ≡ (sub_ctl out.0 n (bit_or (is_nonzero_word out.1) (gte out.0 n))).0 =
            unfold mont_mul in refl in
          q)
        ∙ ap (λ t. (sub_ctl out.0 n t).0)
            (flags out.1 (gte out.0 n) s.bit (gte_bit out.0 n s.same_length s.words moduli)) in
      subst
        (λ o.
          (length o ≡ length n)
          × All IsWord o
          × (value o < value n)
          × (value o * 2 ^ (length n * 64) % value n ≡ value xs * value (b ∷ bs) % value n))
        (sym result)
        (
          last.same_length,
          last.words,
          last.below,
          congruent (value n) (value (sub_ctl out.0 n (bit_or (gte out.0 n) out.1)).0)
              (bit_or (gte out.0 n) out.1) (value out.0 + scale (length n) out.1)
              (2 ^ (length n * 64)) (value xs * value (b ∷ bs)) done_.quotient last.sum
              (sym (scale_pow (length n) _)
                ∙ ap (λ k. scale k (value out.0 + scale (length n) out.1)) (sym same)
                ∙ omega (arith, done_.sum, start)),
        )

  -- With factors of as many words as the modulus, the second one below it, a modulus whose lowest
  -- word has the negated inverse `ninv`: `sdc_int_mont_mul` gives a number below the modulus that
  -- is, times the word size for each word, the product of the factors modulo the modulus.
  pub mont_mul_lem :
      (xs : List ℕ)
      → length xs ≡ length (m ∷ ns)
      → value (b ∷ bs) < value (m ∷ ns)
      → All IsWord xs
      → let out = mont_mul xs (b ∷ bs) (m ∷ ns) ninv in
        (value out < value (m ∷ ns))
        × (value out * 2 ^ (length (m ∷ ns) * 64) % value (m ∷ ns)
            ≡ value xs * value (b ∷ bs) % value (m ∷ ns))
  mont_mul_lem xs same less p = let whole = mont_mul_whole xs same less p in (whole.2, whole.3)

  pub mont_mul_words :
      (xs : List ℕ)
      → length xs ≡ length (m ∷ ns)
      → value (b ∷ bs) < value (m ∷ ns)
      → All IsWord xs
      → (length (mont_mul xs (b ∷ bs) (m ∷ ns) ninv) ≡ length (m ∷ ns))
        × All IsWord (mont_mul xs (b ∷ bs) (m ∷ ns) ninv)
  mont_mul_words xs same less p = let whole = mont_mul_whole xs same less p in (whole.0, whole.1)
