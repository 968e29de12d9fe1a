-- ===== src/Integer/Compare.antt =====
-- The comparisons of src/integer/integer.c, and those of the numbers.
use slim_data_crypt.Common.{
  ℕ, zero, suc, ◌+◌, ◌*◌, ◌^◌, ◌<◌, ◌≤◌, ◌≡◌, refl, sym, ◌∙◌, true, false, List, [], ◌∷◌, length,
  All, arith, bit_or, bit_xor, ltb, leb, ◌==◌, Bool-cases, inl, inr, if◌then◌else◌,
}
use slim_data_crypt.Common.Bits.{or_lt, xor_lt}
use slim_data_crypt.Common.Bits.Masks.{or_ge, xor_zero, xor_same, or_none_left}
use slim_data_crypt.Integer.{IsWord, value, scale, or_all, eq_word, differ, eq, lt, gte, sub_loop}
use slim_data_crypt.Integer.Sums.{sub_loop-Difference, lt_loop-sub_loop}
use slim_data_crypt.Integer.Values.{value-lt_scale, scale_zero}
use slim_data_crypt.Integer.Masks.{is_nonzero_word_lem}

-- A borrow is left exactly where the first number is the smaller one.
pub borrow_lem :
    (n a b d c : ℕ)
    → d < scale n 1
    → b < scale n 1
    → c ≤ 1
    → d + b ≡ a + scale n c
    → a < scale n 1
    → c ≡ (if ltb a b then 1 else 0)
borrow_lem n a b d zero p q h e r =
    let none = scale_zero n in let no : ltb a b ≡ false = ground arith in rw no refl
borrow_lem n a b d (suc zero) p q h e r = let yes : ltb a b ≡ true = ground arith in rw yes refl
borrow_lem n a b d (suc (suc c)) p q h e r = absurd (omega arith)

-- `sdc_int_lt` on two numbers of the same number of words is 1 if the first is less, else 0.
pub lt_lem :
    (xs ys : List ℕ)
    → length xs ≡ length ys
    → All IsWord xs
    → All IsWord ys
    → lt xs ys ≡ (if ltb (value xs) (value ys) then 1 else 0)
unfolding lt
lt_lem xs ys e p q =
    let r = sub_loop-Difference xs ys 0 e p q (omega arith) in
    let out = sub_loop xs ys 0 in
    let below : value out.0 < scale (length xs) 1 =
      rw r.same_length at (value-lt_scale out.0 r.words) in
    let other : value ys < scale (length xs) 1 = rw (sym e) at (value-lt_scale ys q) in
    lt_loop-sub_loop xs ys 0
    ∙ borrow_lem (length xs) (value xs) (value ys) (value out.0) out.1 below other r.bit
        (omega (arith, r.difference)) (value-lt_scale xs p)

-- `sdc_int_gte` is 1 if the first number is at least the second, else 0.
pub gte_lem :
    (xs ys : List ℕ)
    → length xs ≡ length ys
    → All IsWord xs
    → All IsWord ys
    → gte xs ys ≡ (if leb (value ys) (value xs) then 1 else 0)
unfolding gte
gte_lem xs ys e p q = elim (Bool-cases (ltb (value xs) (value ys))) [
  | inl f ↦
      let no : leb (value ys) (value xs) ≡ false = ground arith in
      rw (lt_lem xs ys e p q, f, no) refl
  | inr f ↦
      let yes : leb (value ys) (value xs) ≡ true = ground arith in
      rw (lt_lem xs ys e p q, f, yes) refl
]

-- Words that differ nowhere are the same, and the collected difference is a word.
differ_lem :
    (xs ys : List ℕ)
    → length xs ≡ length ys
    → All IsWord xs
    → All IsWord ys
    → IsWord (differ xs ys)
      × (differ xs ys ≡ 0 → value xs ≡ value ys)
      × (value xs ≡ value ys → differ xs ys ≡ 0)
unfolding differ
differ_lem [] [] e p q = (omega arith, (λ _. refl), (λ _. refl))
differ_lem [] (y ∷ ys) e p q = absurd (omega arith)
differ_lem (x ∷ xs) [] e p q = absurd (omega arith)
differ_lem (x ∷ xs) (y ∷ ys) e p q =
    let (word, same, back) = differ_lem xs ys (omega arith) p.1 q.1 in
    let parts = or_ge (differ xs ys) (bit_xor x y) in
    (
      or_lt 64 (differ xs ys) (bit_xor x y) word (xor_lt 64 x y p.0 q.0),
      (λ none.
          let upper = same (omega (arith, parts.0)) in
          let lower = xor_zero x y (omega (arith, parts.1)) in omega arith),
      (λ equal.
          let lower : x ≡ y = omega (arith, p.0, q.0) in
          let upper = back (omega (arith, p.0, q.0)) in
          rw (upper, lower, xor_same y) (or_none_left 0)),
    )

-- `sdc_int_eq` is 1 if the two numbers are equal, else 0.
pub eq_lem :
    (xs ys : List ℕ)
    → length xs ≡ length ys
    → All IsWord xs
    → All IsWord ys
    → eq xs ys ≡ (if value xs == value ys then 1 else 0)
unfolding eq
eq_lem xs ys e p q =
    let (word, same, back) = differ_lem xs ys e p q in
    elim (Bool-cases (value xs == value ys)) [
      | inl f ↦
          let none : differ xs ys ≡ 0 = back (ground arith) in
          rw (f, none, is_nonzero_word_lem 0 (omega arith)) refl
      | inr f ↦
          let positive : (differ xs ys == 0) ≡ false = elim (Bool-cases (differ xs ys == 0)) [
            | inl g ↦ let z = same (ground arith) in absurd (ground arith)
            | inr g ↦ g
          ] in
          rw (f, is_nonzero_word_lem (differ xs ys) word, positive) refl
    ]

-- The loop of `sdc_int_eq_word` finds any word that is not 0.
or_all_lem :
    (xs : List ℕ) (result : ℕ)
    → IsWord result
    → All IsWord xs
    → IsWord (or_all xs result)
      × (or_all xs result ≡ 0 → (result ≡ 0) × (value xs ≡ 0))
      × ((result ≡ 0) × (value xs ≡ 0) → or_all xs result ≡ 0)
unfolding or_all
or_all_lem [] result h p = (h, (λ z. (z, refl)), (λ z. z.0))
or_all_lem (x ∷ xs) result h p =
    let (word, none, back) = or_all_lem xs (bit_or result x) (or_lt 64 result x h p.0) p.1 in
    let parts = or_ge result x in
    (
      word,
      (λ z. let (low, high) = none z in (omega (arith, parts.0), omega (arith, parts.1))),
      (λ z.
          let (first, rest) = z in
          let here : x ≡ 0 = omega arith in back (rw (first, here) (or_none_left 0), omega arith)),
    )

-- `sdc_int_eq_word` is 1 if the number, of at least one word, is the given word, else 0.
pub eq_word_lem :
    (xs : List ℕ) (word : ℕ)
    → 0 < length xs
    → All IsWord xs
    → IsWord word
    → eq_word xs word ≡ (if value xs == word then 1 else 0)
unfolding eq_word
eq_word_lem [] word l p h = absurd (omega arith)
eq_word_lem (x ∷ xs) word l p h =
    let (small, none, back) = or_all_lem xs (bit_xor x word) (xor_lt 64 x word p.0 h) p.1 in
    let found = or_all xs (bit_xor x word) in
    elim (Bool-cases (x + 2 ^ 64 * value xs == word)) [
      | inl f ↦
          let low : x ≡ word = ground arith in
          let zero_found : found ≡ 0 = back (rw low (xor_same word), ground arith) in
          rw (f, zero_found, is_nonzero_word_lem 0 (omega arith)) refl
      | inr f ↦
          let positive : (found == 0) ≡ false = elim (Bool-cases (found == 0)) [
            | inl g ↦
                let (low, high) = none (ground arith) in
                let same = xor_zero x word low in absurd (ground arith)
            | inr g ↦ g
          ] in
          rw (f, is_nonzero_word_lem found small, positive) refl
    ]
