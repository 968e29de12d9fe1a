-- ===== src/Rsa/Inner/Crt.antt =====
-- The recombination of src/rsa/rsa_inner.c, and the two congruences.
use mathlib.Core.Path.{subst}
use native.Mathlib.Nat.{add-mul-mod_self_left, mod-eq_of_lt, add-mod_right, mod-lt}
use slim_data_crypt.Common.{
  ℕ, zero, suc, ◌+◌, ◌-◌, ◌*◌, ◌%◌, ◌≤◌, ◌<◌, ◌≡◌, ap, sym, ◌∙◌, List, ◌++◌, length, length-append,
  All, All-append, true, false, ltb, if◌then◌else◌, Bool, Bool-cases, inl, inr, arith,
}
use slim_data_crypt.Common.Modular.{add-mul-mod}
use slim_data_crypt.Integer.{IsWord, value, scale, zeros, add, sub, lt, add_ctl}
use slim_data_crypt.Integer.Values.{value-lt_scale, value-append, zeros_lem, scale_bit, scale_zero}
use slim_data_crypt.Integer.Sums.{Sum, Difference, add-Sum, sub-Difference}
use slim_data_crypt.Integer.Masks.{add_ctl-Sum}
use slim_data_crypt.Integer.Compare.{lt_lem}
use slim_data_crypt.Integer.Products.{mul, mul_lem}
use slim_data_crypt.Integer.Remainders.{reduce}
use slim_data_crypt.Integer.Remainders.Loops.{reduce_lem, reduce_words}
use slim_data_crypt.Rsa.Inner.{PrivateKey, recombine}

-- A key whose numbers are words, with the larger prime first and the inverse of the other one.
pub record IsCrtKey (key : PrivateKey) : Type 0 where
  pub some_word : 0 < length key.p
  pub same_length : length key.q ≡ length key.p
  pub inverse_length : length key.qinv ≡ length key.p
  pub double_length : length key.n ≡ length key.p + length key.p
  pub p_words : All IsWord key.p
  pub q_words : All IsWord key.q
  pub inverse_words : All IsWord key.qinv
  pub order : value key.q < value key.p
  pub inverse : value key.qinv * value key.q % value key.p ≡ 1

borrowed :
    (W p s1 s2 r borrow t carry : ℕ)
    → s1 < s2
    → s1 < p
    → s2 < p
    → p ≤ W
    → r + s2 ≡ s1 + W * borrow
    → borrow ≤ 1
    → r < W
    → t + W * carry ≡ r + p
    → carry ≤ 1
    → t < W
    → t + s2 ≡ s1 + p
borrowed W p s1 s2 r zero t carry h h1 h2 hp e1 b l e2 c m = absurd (omega arith)
borrowed W p s1 s2 r (suc zero) t zero h h1 h2 hp e1 b l e2 c m = absurd (omega arith)
borrowed W p s1 s2 r (suc zero) t (suc zero) h h1 h2 hp e1 b l e2 c m = omega arith
borrowed W p s1 s2 r (suc zero) t (suc (suc carry)) h h1 h2 hp e1 b l e2 c m = absurd (omega arith)
borrowed W p s1 s2 r (suc (suc borrow)) t carry h h1 h2 hp e1 b l e2 c m = absurd (omega arith)

not_borrowed :
    (W p s1 s2 r borrow t carry : ℕ)
    → s2 ≤ s1
    → s1 < p
    → p ≤ W
    → r + s2 ≡ s1 + W * borrow
    → borrow ≤ 1
    → r < W
    → t + W * carry ≡ r + 0
    → carry ≤ 1
    → t < W
    → t + s2 ≡ s1
not_borrowed W p s1 s2 r zero t zero h h1 hp e1 b l e2 c m = omega arith
not_borrowed W p s1 s2 r zero t (suc zero) h h1 hp e1 b l e2 c m = absurd (omega arith)
not_borrowed W p s1 s2 r zero t (suc (suc carry)) h h1 hp e1 b l e2 c m = absurd (omega arith)
not_borrowed W p s1 s2 r (suc borrow) t carry h h1 hp e1 b l e2 c m = absurd (omega arith)

-- The difference of the two powers, made positive.
difference :
    (W p s1 s2 r borrow t carry ctl : ℕ)
    → s1 < p
    → s2 < p
    → p ≤ W
    → r + s2 ≡ s1 + W * borrow
    → borrow ≤ 1
    → r < W
    → t + W * carry ≡ r + ctl * p
    → carry ≤ 1
    → t < W
    → ctl ≡ (if ltb s1 s2 then 1 else 0)
    → t + s2 ≡ (if ltb s1 s2 then s1 + p else s1)
difference W p s1 s2 r borrow t carry ctl h1 h2 hp e1 b l e2 c m d = elim (Bool-cases (ltb s1 s2)) [
  | inl less ↦ rw less (
      borrowed W p s1 s2 r borrow t carry (ground arith) h1 h2 hp e1 b l
        (omega (arith, e2, ap (λ (k : ℕ). k * p) (let one : ctl ≡ 1 = rw less at d in one))) c m)
  | inr more ↦ rw more (
      not_borrowed W p s1 s2 r borrow t carry (ground arith) h1 hp e1 b l
        (omega (arith, e2, ap (λ (k : ℕ). k * p) (let none : ctl ≡ 0 = rw more at d in none))) c m)
]

flag : (b : Bool) (ctl : ℕ) → ctl ≡ (if b then 1 else 0) → ctl ≤ 1
flag true ctl e = omega (arith, e)
flag false ctl e = omega (arith, e)

-- The number that is put together.
garner :
    (p q qinv s1 s2 t : ℕ)
    → 0 < p
    → s1 < p
    → qinv * q % p ≡ 1
    → (t + s2) % p ≡ s1
    → (s2 + q * (t * qinv % p)) % p ≡ s1
garner p q qinv s1 s2 t pos h inv e =
    add-mul-mod s2 q (t * qinv) p
    ∙ ap (λ k. (s2 + k) % p) (let m : q * (t * qinv) ≡ t * (qinv * q) = grind arith in m)
    ∙ sym (add-mul-mod s2 t (qinv * q) p)
    ∙ ap (λ k. (s2 + t * k) % p) inv
    ∙ ap (λ k. k % p) (let m : s2 + t * 1 ≡ t + s2 = omega arith in m)
    ∙ e

-- The sum of a number below `q` and a multiple of `q` by less than `p`.
below_product : (p q s t : ℕ) → s < q → t < p → s + q * t < p * q
below_product p q s t h l =
    let k = p - suc t in
    let e : suc (t + k) ≡ p = omega arith in
    subst (λ m. s + q * t < m * q) e
      (let m : suc (t + k) * q ≡ q + q * t + q * k = grind arith in omega (arith, m))

no_carry :
    (n total v carry : ℕ) → v + scale n carry ≡ total → carry ≤ 1 → total < scale n 1 → v ≡ total
no_carry n total v zero e b l = omega (arith, e, scale_zero n)
no_carry n total v (suc zero) e b l = absurd (omega arith)
no_carry n total v (suc (suc carry)) e b l = absurd (omega arith)

module _ (key : PrivateKey) (k : IsCrtKey key) (s1 s2 : List ℕ) (l1 : length s1 ≡ length key.p)
    (l2 : length s2 ≡ length key.p) (w1 : All IsWord s1) (w2 : All IsWord s2)
    (h1 : value s1 < value key.p) (h2 : value s2 < value key.q) where
  subtracted : Difference (length s1) (value s1) (value s2) (sub s1 s2)
  subtracted = sub-Difference s1 s2 (l1 ∙ sym l2) w1 w2

  smaller : lt s1 s2 ≡ (if ltb (value s1) (value s2) then 1 else 0)
  smaller = lt_lem s1 s2 (l1 ∙ sym l2) w1 w2

  positive :
      Sum
        (length (sub s1 s2).0)
        (value (sub s1 s2).0 + lt s1 s2 * value key.p)
        (add_ctl (sub s1 s2).0 key.p (lt s1 s2))
  positive =
      add_ctl-Sum (sub s1 s2).0 key.p (lt s1 s2) (subtracted.same_length ∙ l1) subtracted.words
        k.p_words (flag (ltb (value s1) (value s2)) (lt s1 s2) smaller)

  abbrev apart : List ℕ
  apart = (add_ctl (sub s1 s2).0 key.p (lt s1 s2)).0

  apart-size : length apart ≡ length key.p
  apart-size = positive.same_length ∙ subtracted.same_length ∙ l1

  apart_lem :
      value apart + value s2
      ≡ (if ltb (value s1) (value s2) then value s1 + value key.p else value s1)
  apart_lem =
      let carry = (add_ctl (sub s1 s2).0 key.p (lt s1 s2)).1 in
      let n = length key.p in
      let size = subtracted.same_length ∙ l1 in
      difference (scale n 1) (value key.p) (value s1) (value s2) (value (sub s1 s2).0) (sub s1 s2).1
        (value apart) carry (lt s1 s2) h1 (omega (arith, h2, k.order))
        (omega (arith, value-lt_scale key.p k.p_words))
        (subtracted.difference
          ∙ ap (λ m. value s1 + m)
              (ap (λ i. scale i (sub s1 s2).1) l1 ∙ scale_bit n (sub s1 s2).1 subtracted.bit))
        subtracted.bit
        (subst (λ i. value (sub s1 s2).0 < scale i 1) size
          (value-lt_scale (sub s1 s2).0 subtracted.words))
        (ap (λ m. value apart + m)
            (sym (scale_bit n carry positive.bit) ∙ ap (λ i. scale i carry) (sym size))
          ∙ positive.sum)
        positive.bit
        (subst (λ i. value apart < scale i 1) apart-size (value-lt_scale apart positive.words))
        smaller

  congruent :
      (b : Bool)
      → value apart + value s2 ≡ (if b then value s1 + value key.p else value s1)
      → (value apart + value s2) % value key.p ≡ value s1
  congruent true e =
      ap (λ m. m % value key.p) e ∙ add-mod_right (value s1) (value key.p) ∙ mod-eq_of_lt h1
  congruent false e = ap (λ m. m % value key.p) e ∙ mod-eq_of_lt h1

  abbrev factor : List ℕ
  factor = reduce apart (mul apart key.qinv) key.p

  multiplied :
      (value (mul apart key.qinv) ≡ value apart * value key.qinv)
      × (length (mul apart key.qinv) ≡ length apart + length key.qinv)
      × All IsWord (mul apart key.qinv)
  multiplied =
      mul_lem apart key.qinv (apart-size ∙ sym k.inverse_length)
        (omega (arith, k.some_word, k.inverse_length)) positive.words k.inverse_words

  factor_lem : value factor ≡ value apart * value key.qinv % value key.p
  factor_lem =
      reduce_lem key.p k.some_word k.p_words apart (mul apart key.qinv) multiplied.2
        (omega (arith, h1))
      ∙ ap (λ m. m % value key.p) multiplied.0

  factor-words : (length factor ≡ length key.p) × All IsWord factor
  factor-words =
      reduce_words key.p k.some_word k.p_words apart (mul apart key.qinv) multiplied.2
        (omega (arith, h1))

  factor-bound : value factor < value key.p
  factor-bound = rw factor_lem (mod-lt (value apart * value key.qinv) (omega (arith, h1)))

  -- The lower remainder in an array for the result, and the product that is added to it.
  abbrev out : List ℕ
  out = s2 ++ zeros (length key.n - length key.p)

  out-size : length out ≡ length key.p + length key.p
  out-size =
      length-append s2 (zeros (length key.n - length key.p))
      ∙ (let none = zeros_lem (length key.n - length key.p) in
          omega (arith, none.1, l2, k.double_length))

  product :
      (value (mul key.q factor) ≡ value key.q * value factor)
      × (length (mul key.q factor) ≡ length key.q + length factor)
      × All IsWord (mul key.q factor)
  product =
      mul_lem key.q factor (k.same_length ∙ sym factor-words.0)
        (omega (arith, k.some_word, factor-words.0)) k.q_words factor-words.1

  added : Sum (length out) (value out + value (mul key.q factor)) (add out (mul key.q factor))
  added =
      let none = zeros_lem (length key.n - length key.p) in
      add-Sum out (mul key.q factor)
        (out-size ∙ omega (arith, product.1, k.same_length, factor-words.0))
        (All-append IsWord s2 (zeros (length key.n - length key.p)) w2 none.2) product.2

  pub recombine_words :
      (length (recombine key s1 s2) ≡ length key.n) × All IsWord (recombine key s1 s2)
  unfolding recombine
  recombine_words = (added.same_length ∙ out-size ∙ sym k.double_length, added.words)

  sum_lem : value (recombine key s1 s2) ≡ value s2 + value key.q * value factor
  unfolding recombine
  sum_lem =
      let none = zeros_lem (length key.n - length key.p) in
      let total : value out ≡ value s2 =
        value-append s2 (zeros (length key.n - length key.p))
        ∙ ap (λ m. value s2 + scale (length s2) m) none.0
        ∙ omega (arith, scale_zero (length s2)) in
      let whole =
        mul_lem key.p key.q (sym k.same_length) (omega (arith, k.some_word, k.same_length))
          k.p_words k.q_words in
      let room : value key.p * value key.q < scale (length out) 1 =
        subst (λ m. m < scale (length out) 1) whole.0
          (subst (λ i. value (mul key.p key.q) < scale i 1)
            (whole.1 ∙ omega (arith, k.same_length, out-size))
            (value-lt_scale (mul key.p key.q) whole.2)) in
      no_carry (length out) (value s2 + value key.q * value factor)
        (value (add out (mul key.q factor)).0) (add out (mul key.q factor)).1
        (added.sum ∙ omega (arith, total, product.0)) added.bit
        (omega (
          arith,
          room,
          below_product (value key.p) (value key.q) (value s2) (value factor) h2 factor-bound,
        ))

  -- The recombination of two remainders gives the number below the product of the primes that has
  -- both, if they are below their primes, all numbers are words of the right count, the second prime
  -- is the smaller one, and `qinv` inverts it modulo the first.
  pub recombine_lem :
      (value (recombine key s1 s2) % value key.p ≡ value s1)
      × (value (recombine key s1 s2) % value key.q ≡ value s2)
      × (value (recombine key s1 s2) < value key.p * value key.q)
  recombine_lem = (
    ap (λ m. m % value key.p) (sum_lem ∙ ap (λ m. value s2 + value key.q * m) factor_lem)
        ∙ garner (value key.p) (value key.q) (value key.qinv) (value s1) (value s2) (value apart)
            (omega (arith, h1)) h1 k.inverse (congruent (ltb (value s1) (value s2)) apart_lem),
    ap (λ m. m % value key.q) sum_lem
        ∙ add-mul-mod_self_left (value s2) (value key.q) (value factor)
        ∙ mod-eq_of_lt h2,
    rw sum_lem
        (below_product (value key.p) (value key.q) (value s2) (value factor) h2 factor-bound),
  )
