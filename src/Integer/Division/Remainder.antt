-- ===== src/Integer/Division/Remainder.antt =====
-- The remainder by one word.

use slim_data_crypt.Common.{◌&&◌, ◌||◌}
use slim_data_crypt.Common.{
  ℕ, zero, suc, ◌+◌, ◌-◌, ◌*◌, ◌/◌, ◌%◌, ◌^◌, ◌<◌, ◌≤◌, ◌≡◌, refl, ap, sym, ◌∙◌, Bool, true, false,
  List, [], ◌∷◌, All, bit_and, bit_or, bit_xor, ltb, leb, ◌==◌, Bool-cases, inl, inr, if◌then◌else◌,
  u64, arith,
}
use native.Mathlib.Nat.{
  pow-suc, mul-add-mod_self_right, mod-eq_of_lt, div-div-eq-div-mul, div-one, mod-lt, mod-add-div',
}
use slim_data_crypt.Common.Bits.{bit_or_low, xor_lt}
use slim_data_crypt.Common.Bits.Masks.{and_ones, and_zero, xor_zero, xor_same}
use slim_data_crypt.Integer.{IsWord, u128, value, is_nonzero_word}
use slim_data_crypt.Integer.Masks.{is_nonzero_word_lem}
use slim_data_crypt.Integer.Remainders.Bits.{and_one}
use slim_data_crypt.Integer.Division.{
  gte_dword, rem_step, rem_loop, rem_word, mod_word_loop, mod_word,
}

-- The test for equal words.
equal_words :
    (x y : ℕ)
    → IsWord x
    → IsWord y
    → bit_xor (is_nonzero_word (u64 (bit_xor x y))) 1 ≡ (if x == y then 1 else 0)
equal_words x y p q =
    let small = xor_lt 64 x y p q in
    let word : bit_xor x y % 2 ^ 64 ≡ bit_xor x y = omega arith in
    elim (Bool-cases (x == y)) [
      | inl e ↦
          let same : bit_xor x y ≡ 0 =
            ap (bit_xor x) (let s : y ≡ x = ground arith in s) ∙ xor_same x in
          rw (e, word, same, is_nonzero_word_lem 0 (omega arith)) refl
      | inr e ↦
          let nonzero : (bit_xor x y == 0) ≡ false = elim (Bool-cases (bit_xor x y == 0)) [
            | inl f ↦ let s = xor_zero x y (ground arith) in absurd (ground arith)
            | inr f ↦ f
          ] in
          rw (e, word, is_nonzero_word_lem (bit_xor x y) small, nonzero) refl
    ]

-- The top bit of a difference of words.
less_word :
    (x y : ℕ) → IsWord x → IsWord y → u128 (y + 2 ^ 128 - x) / 2 ^ 127 ≡ (if ltb y x then 1 else 0)
less_word x y p q = elim (Bool-cases (ltb y x)) [
  | inl e ↦ let h : y < x = ground arith in rw e (omega arith)
  | inr e ↦ let h : x ≤ y = ground arith in rw e (omega arith)
]

abbrev flag : Bool → ℕ
flag b = if b then 1 else 0

joined :
    (g h l e : Bool)
    → u64 (bit_or (flag g) (bit_and (flag h) (bit_or (flag l) (flag e))))
      ≡ flag (g || (h && (l || e)))
joined true true true true = refl
joined true true true false = refl
joined true true false true = refl
joined true true false false = refl
joined true false true true = refl
joined true false true false = refl
joined true false false true = refl
joined true false false false = refl
joined false true true true = refl
joined false true true false = refl
joined false true false true = refl
joined false true false false = refl
joined false false true true = refl
joined false false true false = refl
joined false false false true = refl
joined false false false false = refl

-- Words decide a comparison from the top.
by_words :
    (ah bh al bl a b : ℕ)
    → IsWord al
    → IsWord bl
    → a ≡ al + 2 ^ 64 * ah
    → b ≡ bl + 2 ^ 64 * bh
    → (ltb bh ah || (ah == bh && (ltb bl al || al == bl))) ≡ leb b a
by_words ah bh al bl a b p q e f = ground arith

-- `GTE_DWORD` compares double words.
pub gte_dword_lem :
    (a b : ℕ) → a < 2 ^ 128 → b < 2 ^ 128 → gte_dword a b ≡ (if leb b a then 1 else 0)
unfolding gte_dword
gte_dword_lem a b p q =
    rw
      (
        equal_words (a / 2 ^ 64) (b / 2 ^ 64) (omega arith) (omega arith),
        equal_words (a % 2 ^ 64) (b % 2 ^ 64) (omega arith) (omega arith),
        less_word (a / 2 ^ 64) (b / 2 ^ 64) (omega arith) (omega arith),
        less_word (a % 2 ^ 64) (b % 2 ^ 64) (omega arith) (omega arith),
      )
      (joined (ltb (b / 2 ^ 64) (a / 2 ^ 64)) (a / 2 ^ 64 == b / 2 ^ 64)
          (ltb (b % 2 ^ 64) (a % 2 ^ 64)) (a % 2 ^ 64 == b % 2 ^ 64)
        ∙ ap flag (
            by_words (a / 2 ^ 64) (b / 2 ^ 64) (a % 2 ^ 64) (b % 2 ^ 64) a b (omega arith)
              (omega arith) (omega arith) (omega arith)))

-- A round: `r * 2 + bit` less the divisor, if that is not smaller.
rem_step_lem :
    (d bit r : ℕ)
    → IsWord d
    → bit ≤ 1
    → r < d
    → ((rem_step d bit r).1 < d)
      × ((rem_step d bit r).0 ≤ 1)
      × ((rem_step d bit r).1 + (rem_step d bit r).0 * d ≡ r * 2 + bit)
unfolding rem_step
rem_step_lem d bit r p h l =
    let low : bit_or ((r * 2) % 2 ^ 128) bit ≡ r * 2 + bit =
      ap (λ t. bit_or t bit) (let e : (r * 2) % 2 ^ 128 ≡ r * 2 ^ 1 = omega arith in e)
      ∙ bit_or_low 1 r bit (omega arith)
      ∙ omega arith in
    elim (Bool-cases (leb d (r * 2 + bit))) [
      | inl e ↦
          let more : d ≤ r * 2 + bit = ground arith in
          rw
            (
              low,
              gte_dword_lem (r * 2 + bit) d (omega arith) (omega arith),
              e,
              and_ones 128 d (omega arith),
            )
            (omega arith, omega arith, omega arith)
      | inr e ↦
          let less : r * 2 + bit < d = ground arith in
          rw (low, gte_dword_lem (r * 2 + bit) d (omega arith) (omega arith), e, and_zero d)
            (omega arith, omega arith, omega arith)
    ]

-- The loop keeps what the dividend's upper bits leave.
rem_loop_lem :
    (dividend d i r q : ℕ)
    → IsWord d
    → r < d
    → r + q * d ≡ dividend / 2 ^ i
    → (rem_loop dividend d i r < d) × (rem_loop dividend d i r ≡ dividend % d)
unfolding rem_loop
rem_loop_lem dividend d zero r q p l e = (
  l,
  sym (mod-eq_of_lt l)
      ∙ sym (mul-add-mod_self_right q d r)
      ∙ ap (λ t. t % d) (omega (arith, e, div-one dividend)),
)
rem_loop_lem dividend d (suc i) r q p l e =
    let bit = bit_and (dividend / 2 ^ i) 1 in
    let value_of : bit ≡ dividend / 2 ^ i % 2 = and_one (dividend / 2 ^ i) in
    let half : dividend / 2 ^ i / 2 ≡ dividend / 2 ^ suc i =
      div-div-eq-div-mul dividend (2 ^ i) 2 ∙ ap (λ t. dividend / t) (sym (pow-suc 2 i)) in
    let (below, flag_small, sum) = rem_step_lem d bit r p (omega arith) l in
    let c = (rem_step d bit r).0 in
    let product : (2 * q + c) * d ≡ 2 * (q * d) + c * d = grind arith in
    rem_loop_lem dividend d i (rem_step d bit r).1 (2 * q + c) p below
      (omega (arith, sum, e, half, value_of, product))

-- `rem_word` gives the remainder of a double word by a word that is not 0.
pub rem_word_lem :
    (dividend divisor : ℕ)
    → dividend < 2 ^ 128
    → IsWord divisor
    → 0 < divisor
    → rem_word dividend divisor ≡ dividend % divisor
unfolding rem_word
rem_word_lem dividend divisor h p l =
    let (below, same) = rem_loop_lem dividend divisor 128 0 0 p l (omega arith) in
    ap u64 same ∙ mod-eq_of_lt (omega arith)

mod_word_loop_lem :
    (xs : List ℕ) (word : ℕ)
    → All IsWord xs
    → IsWord word
    → 0 < word
    → (mod_word_loop xs word ≡ value xs % word) × (mod_word_loop xs word < word)
unfolding mod_word_loop
mod_word_loop_lem [] word h p l = (sym (mod-eq_of_lt l), l)
mod_word_loop_lem (a ∷ xs) word h p l =
    let (above, below) = mod_word_loop_lem xs word h.1 p l in
    let r = mod_word_loop xs word in
    let joined_words : bit_or ((r * 2 ^ 64) % 2 ^ 128) a ≡ r * 2 ^ 64 + a =
      ap (λ t. bit_or t a) (let e : (r * 2 ^ 64) % 2 ^ 128 ≡ r * 2 ^ 64 = omega arith in e)
      ∙ bit_or_low 64 r a h.0 in
    let here = rem_word_lem (r * 2 ^ 64 + a) word (omega arith) p l in
    let q = value xs / word in
    let split : value xs ≡ r + q * word =
      sym (mod-add-div' (value xs) word) ∙ ap (λ t. t + q * word) (sym above) in
    let product : 2 ^ 64 * (r + q * word) ≡ r * 2 ^ 64 + 2 ^ 64 * q * word = grind arith in
    let same : (r * 2 ^ 64 + a) % word ≡ (a + 2 ^ 64 * value xs) % word =
      sym (mul-add-mod_self_right (2 ^ 64 * q) word (r * 2 ^ 64 + a))
      ∙ ap (λ t. t % word) (omega (arith, product, split)) in
    rw joined_words (here ∙ same, rw (here ∙ same) (mod-lt (a + 2 ^ 64 * value xs) l))

-- `sdc_int_mod_word` gives the remainder of a number by a word, and 0 for the word 0.
pub mod_word_lem :
    (xs : List ℕ) (word : ℕ)
    → All IsWord xs
    → IsWord word
    → mod_word xs word ≡ (if word == 0 then 0 else value xs % word)
unfolding mod_word
mod_word_lem xs word h p = elim (Bool-cases (word == 0)) [
  | inl e ↦ rw e refl
  | inr e ↦ let (same, below) = mod_word_loop_lem xs word h p (ground arith) in rw e same
]
