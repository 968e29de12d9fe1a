-- ===== src/Integer/Montgomery/Powers.antt =====
-- Exponentiation by squaring in Montgomery form, and the power modulo the modulus.
use native.Mathlib.Nat.{
  mul-le-mul, pow-suc, pow-zero, two-pow-succ, mod-one, mod-lt, mod-eq_of_lt, mod-add-div',
  mul-add-mod_self_left,
}
use slim_data_crypt.Common.{
  ℕ, zero, suc, ◌+◌, ◌*◌, ◌/◌, ◌%◌, ◌^◌, ◌<◌, ◌≤◌, ◌≡◌, ◌⊎◌, inl, inr, refl, ap, sym, ◌∙◌, List, [],
  ◌∷◌, length, All, arith, bit_and, ◌==◌, if◌then◌else◌,
}
use slim_data_crypt.Common.Modular.{pow_add, mul-pow, pow-mul, one-pow}
use slim_data_crypt.Integer.{IsWord, value, set_word}
use slim_data_crypt.Integer.Remainders.{to_mont}
use slim_data_crypt.Integer.Remainders.Bits.{and_one, pow_positive}
use slim_data_crypt.Integer.Montgomery.{
  mont_mul, square_and_multiply, modexp_loop, mont_modexp_word, vartime_loop,
  mont_modexp_with_ebits_vartime,
}
use slim_data_crypt.Integer.Montgomery.Form.{
  Form, Form-next, mont_mul-Form, to_mont-Form, one-Form, from_mont_lem, from_mont_words,
}

-- A bit of an exponent.
bit_cases : (x : ℕ) → ((bit_and x 1 ≡ 0) × (x % 2 ≡ 0)) ⊎ ((bit_and x 1 ≡ 1) × (x % 2 ≡ 1))
bit_cases x = by_value (x % 2) (omega arith) (and_one x)
  where
    by_value :
        (b : ℕ)
        → b ≤ 1
        → bit_and x 1 ≡ b
        → ((bit_and x 1 ≡ 0) × (b ≡ 0)) ⊎ ((bit_and x 1 ≡ 1) × (b ≡ 1))
    by_value zero h e = inl (e, refl)
    by_value (suc zero) h e = inr (e, refl)
    by_value (suc (suc b)) h e = absurd (omega arith)

-- `e` from its parts: `r` below `p`, and twice `h` and a bit `b` multiples of `p`.
split_top : (p q h b r e : ℕ) → r + q * p ≡ e → q ≡ 2 * h + b → e ≡ (p + p) * h + (b * p + r)
split_top p q h b r e x y =
    sym x
    ∙ ap (λ t. r + t * p) y
    ∙ (let z : r + (2 * h + b) * p ≡ (p + p) * h + (b * p + r) = grind arith in z)

split_low : (p h j b r w : ℕ) → r + j * p ≡ h → w ≡ b + 2 * h → w ≡ (p + p) * j + (b + 2 * r)
split_low p h j b r w x y =
    y
    ∙ ap (λ t. b + 2 * t) (sym x)
    ∙ (let z : b + 2 * (r + j * p) ≡ (p + p) * j + (b + 2 * r) = grind arith in z)

-- The remainder by a power of two, from its top bit and from its lowest one.
top_bit : (e k : ℕ) → e % 2 ^ suc k ≡ e / 2 ^ k % 2 * 2 ^ k + e % 2 ^ k
top_bit e k =
    let p = 2 ^ k in
    let q = e / p in
    let low : e % p < p = mod-lt e (pow_positive k) in
    let twice : 2 ^ suc k ≡ p + p = two-pow-succ k in
    let bit : q % 2 * p ≤ p =
      (let b : q % 2 ≤ 1 = omega arith in
        omega (arith, mul-le-mul b (let r : p ≤ p = omega arith in r))) in
    let split : e ≡ 2 ^ suc k * (q / 2) + (q % 2 * p + e % p) =
      split_top p q (q / 2) (q % 2) (e % p) e (mod-add-div' e p) (omega arith)
      ∙ ap (λ t. t * (q / 2) + (q % 2 * p + e % p)) (sym twice) in
    ap (λ t. t % 2 ^ suc k) split
    ∙ mul-add-mod_self_left (2 ^ suc k) (q / 2) (q % 2 * p + e % p)
    ∙ mod-eq_of_lt (omega arith)

low_bit : (w k : ℕ) → w % 2 ^ suc k ≡ w % 2 + 2 * (w / 2 % 2 ^ k)
low_bit w k =
    let p = 2 ^ k in
    let h = w / 2 in
    let low : h % p < p = mod-lt h (pow_positive k) in
    let twice : 2 ^ suc k ≡ p + p = two-pow-succ k in
    let split : w ≡ 2 ^ suc k * (h / p) + (w % 2 + 2 * (h % p)) =
      split_low p h (h / p) (w % 2) (h % p) w (mod-add-div' h p) (omega arith)
      ∙ ap (λ t. t * (h / p) + (w % 2 + 2 * (h % p))) (sym twice) in
    ap (λ t. t % 2 ^ suc k) split
    ∙ mul-add-mod_self_left (2 ^ suc k) (h / p) (w % 2 + 2 * (h % p))
    ∙ mod-eq_of_lt (omega arith)

pow_square : (t k : ℕ) → (t * t) ^ (2 ^ k) ≡ t ^ (2 ^ suc k)
pow_square t k =
    mul-pow t t (2 ^ k) ∙ sym (pow_add t (2 ^ k) (2 ^ k)) ∙ ap (λ m. t ^ m) (sym (two-pow-succ k))

pub pow_one : (t : ℕ) → t ^ 1 ≡ t
pow_one t = pow-suc t 0 ∙ rw (pow-zero t) (omega arith)

no_bits : (t u e : ℕ) → t ≡ t ^ (2 ^ 0) * u ^ (e % 2 ^ 0)
no_bits t u e = rw (mod-one e, pow-zero u, pow_one t) (omega arith)

unset_bit :
    (t u e k : ℕ)
    → e / 2 ^ k % 2 ≡ 0
    → (t * t) ^ (2 ^ k) * u ^ (e % 2 ^ k) ≡ t ^ (2 ^ suc k) * u ^ (e % 2 ^ suc k)
unset_bit t u e k v =
    ap (λ x. x * u ^ (e % 2 ^ k)) (pow_square t k)
    ∙ ap (λ x. t ^ (2 ^ suc k) * u ^ x)
        (sym (top_bit e k ∙ ap (λ b. b * 2 ^ k + e % 2 ^ k) v ∙ omega arith))

set_bit :
    (t u e k : ℕ)
    → e / 2 ^ k % 2 ≡ 1
    → (t * t * u) ^ (2 ^ k) * u ^ (e % 2 ^ k) ≡ t ^ (2 ^ suc k) * u ^ (e % 2 ^ suc k)
set_bit t u e k v =
    ap (λ x. x * u ^ (e % 2 ^ k)) (mul-pow (t * t) u (2 ^ k))
    ∙ ap (λ x. x * u ^ (2 ^ k) * u ^ (e % 2 ^ k)) (pow_square t k)
    ∙ (let z : t ^ (2 ^ suc k) * u ^ (2 ^ k) * u ^ (e % 2 ^ k)
            ≡ t ^ (2 ^ suc k) * (u ^ (2 ^ k) * u ^ (e % 2 ^ k)) =
          grind arith in
        z)
    ∙ ap (λ x. t ^ (2 ^ suc k) * x) (sym (pow_add u (2 ^ k) (e % 2 ^ k)))
    ∙ ap (λ x. t ^ (2 ^ suc k) * u ^ x)
        (sym (top_bit e k ∙ ap (λ b. b * 2 ^ k + e % 2 ^ k) v ∙ omega arith))

-- A square for each bit, the lowest one first.
low_bits :
    (t u w k b : ℕ) → w % 2 ≡ b → t * u ^ b * (u * u) ^ (w / 2 % 2 ^ k) ≡ t * u ^ (w % 2 ^ suc k)
low_bits t u w k b v =
    (let z : t * u ^ b * (u * u) ^ (w / 2 % 2 ^ k) ≡ t * (u ^ b * (u * u) ^ (w / 2 % 2 ^ k)) =
        grind arith in
      z)
    ∙ ap (λ x. t * (u ^ b * x)) (mul-pow u u (w / 2 % 2 ^ k) ∙ sym (pow_add u _ _))
    ∙ ap (λ x. t * x) (sym (pow_add u b (w / 2 % 2 ^ k + w / 2 % 2 ^ k)))
    ∙ ap (λ x. t * u ^ x) (let l = low_bit w k in omega arith)

whole_word :
    (t u d v : ℕ) → IsWord d → t * u ^ (d % 2 ^ 64) * (u ^ (2 ^ 64)) ^ v ≡ t * u ^ (d + 2 ^ 64 * v)
whole_word t u d v h =
    ap (λ x. t * u ^ x * (u ^ (2 ^ 64)) ^ v) (mod-eq_of_lt h)
    ∙ ap (λ x. t * u ^ d * x) (pow-mul u (2 ^ 64) v)
    ∙ (let z : t * u ^ d * u ^ (2 ^ 64 * v) ≡ t * (u ^ d * u ^ (2 ^ 64 * v)) = grind arith in z)
    ∙ ap (λ x. t * x) (sym (pow_add u d (2 ^ 64 * v)))

module _ (m : ℕ) (ns : List ℕ) (ninv : ℕ) (moduli : All IsWord (m ∷ ns))
    (odd : value (m ∷ ns) % 2 ≡ 1) (inverse : (ninv * m + 1) % 2 ^ 64 ≡ 0) where
  abbrev n : List ℕ
  n = m ∷ ns

  times : (x y : List ℕ) (t u : ℕ) → Form n t x → Form n u y → Form n (t * u) (mont_mul x y n ninv)
  times = mont_mul-Form m ns ninv moduli odd inverse

  vartime_loop-Form :
      (k e t u : ℕ) (r base : List ℕ)
      → Form n t r
      → Form n u base
      → Form n (t ^ (2 ^ k) * u ^ (e % 2 ^ k)) (vartime_loop n ninv k e r base)
  unfolding vartime_loop
  vartime_loop-Form zero e t u r base f g =
      Form-next n t (t ^ (2 ^ 0) * u ^ (e % 2 ^ 0)) r (no_bits t u e) f
  vartime_loop-Form (suc k) e t u r base f g =
      let squared = times r r t t f f in
      elim (bit_cases (e / 2 ^ k)) [
        | inl (b, v) ↦ rw b (
            Form-next n ((t * t) ^ (2 ^ k) * u ^ (e % 2 ^ k)) _ _ (unset_bit t u e k v)
              (vartime_loop-Form k e (t * t) u (mont_mul r r n ninv) base squared g))
        | inr (b, v) ↦ rw b (
            Form-next n ((t * t * u) ^ (2 ^ k) * u ^ (e % 2 ^ k)) _ _ (set_bit t u e k v) (
              vartime_loop-Form k e (t * t * u) u (mont_mul (mont_mul r r n ninv) base n ninv) base
                (times (mont_mul r r n ninv) base (t * t) u squared g) g))
      ]

  -- The result after a bit of the exponent.
  chosen :
      (w t u : ℕ) (res base : List ℕ)
      → Form n t res
      → Form n u base
      → Form n (t * u ^ (w % 2)) (if bit_and w 1 == 0 then res else mont_mul res base n ninv)
  chosen w t u res base f g = elim (bit_cases w) [
    | inl (b, v) ↦
        rw b (Form-next n t _ res (rw (v, pow-zero u) (let z : t ≡ t * 1 = omega arith in z)) f)
    | inr (b, v) ↦ rw b (
        Form-next n (t * u) _ (mont_mul res base n ninv) (rw (v, pow_one u) refl)
          (times res base t u f g))
  ]

  square_and_multiply-Form :
      (k w t u : ℕ) (res base : List ℕ)
      → Form n t res
      → Form n u base
      → Form n (t * u ^ (w % 2 ^ k)) (square_and_multiply n ninv k w res base).0
        × Form n (u ^ (2 ^ k)) (square_and_multiply n ninv k w res base).1
  unfolding square_and_multiply
  square_and_multiply-Form zero w t u res base f g = (
    Form-next n t _ res (rw (mod-one w, pow-zero u) (let z : t ≡ t * 1 = omega arith in z)) f,
    Form-next n u _ base (sym (pow_one u)) g,
  )
  square_and_multiply-Form (suc k) w t u res base f g =
      let rest =
        square_and_multiply-Form k (w / 2) (t * u ^ (w % 2)) (u * u)
          (if bit_and w 1 == 0 then res else mont_mul res base n ninv) (mont_mul base base n ninv)
          (chosen w t u res base f g) (times base base u u g g) in
      (
        Form-next n _ _ _ (low_bits t u w k (w % 2) refl) rest.0,
        Form-next n _ _ _ (pow_square u k) rest.1,
      )

  modexp_loop-Form :
      (ds : List ℕ) (t u : ℕ) (res base : List ℕ)
      → All IsWord ds
      → Form n t res
      → Form n u base
      → Form n (t * u ^ value ds) (modexp_loop n ninv 64 ds res base)
  unfolding modexp_loop
  modexp_loop-Form [] t u res base p f g =
      Form-next n t _ res (rw (pow-zero u) (let z : t ≡ t * 1 = omega arith in z)) f
  modexp_loop-Form (d ∷ ds) t u res base p f g =
      let after = square_and_multiply-Form 64 d t u res base f g in
      Form-next n _ _ _ (whole_word t u d (value ds) p.0)
        (modexp_loop-Form ds (t * u ^ (d % 2 ^ 64)) (u ^ (2 ^ 64)) _ _ p.1 after.0 after.1)

  module _ (a : List ℕ) (size : length a ≡ length n) (words : All IsWord a) (above : 1 < value n)
      (below : value a < value n) where
    vartime-Form :
        (e e_bits : ℕ)
        → Form n
            (1 ^ (2 ^ e_bits) * value a ^ (e % 2 ^ e_bits))
            (vartime_loop n ninv e_bits e (to_mont (set_word 1 (length n)) n) (to_mont a n))
    vartime-Form e e_bits =
        vartime_loop-Form e_bits e 1 (value a) _ _ (one-Form m ns ninv moduli odd inverse above)
          (to_mont-Form m ns ninv moduli odd inverse a size words below)

    -- `sdc_int_mont_modexp_with_ebits_vartime` gives the power by the exponent's lowest bits.
    pub mont_modexp_with_ebits_vartime_lem :
        (e e_bits : ℕ)
        → value (mont_modexp_with_ebits_vartime a e e_bits n ninv)
          ≡ value a ^ (e % 2 ^ e_bits) % value n
    unfolding mont_modexp_with_ebits_vartime
    mont_modexp_with_ebits_vartime_lem e e_bits =
        from_mont_lem m ns ninv moduli odd inverse
          (vartime_loop n ninv e_bits e (to_mont (set_word 1 (length n)) n) (to_mont a n))
          (1 ^ (2 ^ e_bits) * value a ^ (e % 2 ^ e_bits)) (vartime-Form e e_bits)
        ∙ ap (λ t. t % value n)
            (rw (one-pow (2 ^ e_bits)) (
              let z : 1 * value a ^ (e % 2 ^ e_bits) ≡ value a ^ (e % 2 ^ e_bits) = omega arith in
              z))

    pub mont_modexp_with_ebits_vartime_words :
        (e e_bits : ℕ)
        → (length (mont_modexp_with_ebits_vartime a e e_bits n ninv) ≡ length n)
          × All IsWord (mont_modexp_with_ebits_vartime a e e_bits n ninv)
    unfolding mont_modexp_with_ebits_vartime
    mont_modexp_with_ebits_vartime_words e e_bits =
        from_mont_words m ns ninv moduli odd inverse
          (vartime_loop n ninv e_bits e (to_mont (set_word 1 (length n)) n) (to_mont a n))
          (1 ^ (2 ^ e_bits) * value a ^ (e % 2 ^ e_bits)) (vartime-Form e e_bits)

    power-Form :
        (e : List ℕ)
        → All IsWord e
        → Form n
            (1 * value a ^ value e)
            (modexp_loop n ninv 64 e (to_mont (set_word 1 (length n)) n) (to_mont a n))
    power-Form e p =
        modexp_loop-Form e 1 (value a) _ _ p (one-Form m ns ninv moduli odd inverse above)
          (to_mont-Form m ns ninv moduli odd inverse a size words below)

    -- `sdc_int_mont_modexp_word` of a number below an odd modulus above 1, whose lowest word has
    -- the negated inverse `ninv`: the power by the exponent that the words make, modulo the modulus.
    pub mont_modexp_word_lem :
        (e : List ℕ)
        → All IsWord e
        → value (mont_modexp_word a e n ninv) ≡ value a ^ value e % value n
    unfolding mont_modexp_word
    mont_modexp_word_lem e p =
        from_mont_lem m ns ninv moduli odd inverse
          (modexp_loop n ninv 64 e (to_mont (set_word 1 (length n)) n) (to_mont a n))
          (1 * value a ^ value e) (power-Form e p)
        ∙ ap (λ t. t % value n)
            (let z : 1 * value a ^ value e ≡ value a ^ value e = omega arith in z)

    pub mont_modexp_word_words :
        (e : List ℕ)
        → All IsWord e
        → (length (mont_modexp_word a e n ninv) ≡ length n)
          × All IsWord (mont_modexp_word a e n ninv)
    unfolding mont_modexp_word
    mont_modexp_word_words e p =
        from_mont_words m ns ninv moduli odd inverse
          (modexp_loop n ninv 64 e (to_mont (set_word 1 (length n)) n) (to_mont a n))
          (1 * value a ^ value e) (power-Form e p)
