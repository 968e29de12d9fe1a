-- ===== src/Integer/Remainders/Bits.antt =====
-- The bits of an array of words, and of its number.
use slim_data_crypt.Common.{
  ℕ, zero, suc, ◌+◌, ◌-◌, ◌*◌, ◌/◌, ◌%◌, ◌^◌, ◌<◌, ◌≡◌, refl, ap, sym, ◌∙◌, List, [], ◌∷◌, All,
  arith, bit_and, ltb, Bool-cases, inl, inr,
}
use native.Mathlib.Nat.{pow-suc, add-mul-div_left, zero-div, div-div-eq-div-mul}
use slim_data_crypt.Common.Bits.Masks.{and_step, and_zero}
use slim_data_crypt.Integer.{IsWord, value}
use slim_data_crypt.Integer.Remainders.{bit_at}

pub and_one : (x : ℕ) → bit_and x 1 ≡ x % 2
and_one x = omega (arith, and_step x 1, and_zero (x / 2))

pub pow_positive : (k : ℕ) → 0 < 2 ^ k
pow_positive zero = omega arith
pow_positive (suc k) = omega (arith, pow-suc 2 k, pow_positive k)

pub pow_add : (i j : ℕ) → 2 ^ (i + j) ≡ 2 ^ i * 2 ^ j
pow_add i zero = ap (λ t. 2 ^ t) (let e : i + 0 ≡ i = omega arith in e) ∙ omega arith
pow_add i (suc j) =
    ap (λ t. 2 ^ t) (let e : i + suc j ≡ suc (i + j) = omega arith in e)
    ∙ pow-suc 2 (i + j)
    ∙ grind (arith, pow_add i j, pow-suc 2 j)

-- A bit of the lowest word.
low_bit : (w v i : ℕ) → i < 64 → (w + 2 ^ 64 * v) / 2 ^ i % 2 ≡ w / 2 ^ i % 2
low_bit w v i h =
    let k = 2 ^ (63 - i) * v in
    let parts : 2 ^ 64 ≡ 2 ^ i * 2 ^ (64 - i) =
      ap (λ t. 2 ^ t) (let e : 64 ≡ i + (64 - i) = omega arith in e) ∙ pow_add i (64 - i) in
    let last : 2 ^ (64 - i) ≡ 2 ^ (63 - i) * 2 =
      ap (λ t. 2 ^ t) (let e : 64 - i ≡ suc (63 - i) = omega arith in e) ∙ pow-suc 2 (63 - i) in
    let split : w + 2 ^ 64 * v ≡ w + 2 ^ i * (2 * k) =
      ap (λ t. w + t * v) parts ∙ ap (λ t. w + 2 ^ i * t * v) last ∙ grind arith in
    ap (λ t. t / 2 ^ i % 2) split
    ∙ ap (λ t. t % 2) (add-mul-div_left w (2 * k) (pow_positive i))
    ∙ omega arith

-- A bit of the words above.
high_bit : (w v j : ℕ) → IsWord w → (w + 2 ^ 64 * v) / 2 ^ (64 + j) ≡ v / 2 ^ j
high_bit w v j h =
    ap (λ t. (w + 2 ^ 64 * v) / t) (pow_add 64 j)
    ∙ sym (div-div-eq-div-mul (w + 2 ^ 64 * v) (2 ^ 64) (2 ^ j))
    ∙ ap (λ t. t / 2 ^ j) (let e : (w + 2 ^ 64 * v) / 2 ^ 64 ≡ v = omega arith in e)

pub bit_at_lem : (x : List ℕ) (i : ℕ) → All IsWord x → bit_at x i ≡ value x / 2 ^ i % 2
unfolding bit_at
bit_at_lem [] i h = and_one (0 / 2 ^ (i % 64)) ∙ rw (zero-div (2 ^ (i % 64)), zero-div (2 ^ i)) refl
bit_at_lem (w ∷ ws) i h = elim (Bool-cases (ltb i 64)) [
  | inl e ↦
      let here : i / 64 ≡ 0 = ground arith in
      let place : i % 64 ≡ i = ground arith in
      rw (here, place) (and_one (w / 2 ^ i) ∙ sym (low_bit w (value ws) i (ground arith)))
  | inr e ↦
      let there : i / 64 ≡ suc ((i - 64) / 64) = ground arith in
      let place : i % 64 ≡ (i - 64) % 64 = ground arith in
      rw (there, place)
        (bit_at_lem ws (i - 64) h.1
          ∙ ap (λ t. t % 2) (sym (high_bit w (value ws) (i - 64) h.0))
          ∙ ap (λ t. (w + 2 ^ 64 * value ws) / 2 ^ t % 2)
              (let q : 64 + (i - 64) ≡ i = ground arith in q))
]
