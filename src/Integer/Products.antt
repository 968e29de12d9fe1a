-- ===== src/Integer/Products.antt =====
-- src/integer/integer.c: products, by the schoolbook method.
use slim_data_crypt.Common.{
  ℕ, suc, ◌+◌, ◌-◌, ◌*◌, ◌/◌, ◌%◌, ◌^◌, ◌<◌, ◌≤◌, ◌≡◌, refl, ap, sym, List, [], ◌∷◌, ◌++◌, length,
  length-append, All, All-append, arith, u64,
}
use native.Mathlib.Nat.{mul-le-mul}
use slim_data_crypt.Integer.Values.{zeros_lem, value-append}
use slim_data_crypt.Integer.{zeros, IsWord, u128, value, scale}

-- The inner loop of `sdc_int_mul`: `a` times the words of `bs` on top of a window of the result,
-- with the carry `tmp`; the new words and the last carry.
unfoldable pub mul_row : ℕ → List ℕ → List ℕ → ℕ → List ℕ × ℕ
mul_row a [] bs tmp = ([], u64 tmp)
mul_row a (r ∷ rs) [] tmp = ([], u64 tmp)
mul_row a (r ∷ rs) (b ∷ bs) tmp =
    let t = u128 (tmp + (r + a * b)) in
    let rest = mul_row a rs bs (t / 2 ^ 64) in (u64 t ∷ rest.0, rest.1)

-- The outer loop: `window` is the words of the result from `r + i` on, as many as `bs` has. Round
-- `i` is the last one to write `r[i]`, and puts the carry behind the window.
unfoldable pub mul_loop : List ℕ → List ℕ → List ℕ → List ℕ
mul_loop [] bs window = window
mul_loop (a ∷ xs) bs window =
    let row = mul_row a window bs 0 in
    elim row.0 [
      | [] ↦ mul_loop xs bs (row.1 ∷ [])
      | w ∷ ws ↦ w ∷ mul_loop xs bs (ws ++ (row.1 ∷ []))
    ]

-- `sdc_int_mul`.
unfoldable pub mul : List ℕ → List ℕ → List ℕ
mul xs bs = mul_loop xs bs (zeros (length bs))

-- `sdc_int_mul_word`: the loop, and then the carry as the last word.
unfoldable pub mul_word_loop : List ℕ → ℕ → ℕ → List ℕ
mul_word_loop [] b tmp = u64 tmp ∷ []
mul_word_loop (a ∷ xs) b tmp = let t = u128 (tmp + a * b) in u64 t ∷ mul_word_loop xs b (t / 2 ^ 64)

unfoldable pub mul_word : List ℕ → ℕ → List ℕ
mul_word xs b = mul_word_loop xs b 0

-- A product of words with two words on top is a double word.
pub word_product :
    (a b r t : ℕ) → IsWord a → IsWord b → IsWord r → IsWord t → t + (r + a * b) < 2 ^ 128
word_product a b r t p q u v =
    let first : a ≤ 2 ^ 64 - 1 = omega arith in
    let second : b ≤ 2 ^ 64 - 1 = omega arith in
    let top : a * b ≤ (2 ^ 64 - 1) * (2 ^ 64 - 1) = mul-le-mul first second in omega (arith, top)

record Row (n total : ℕ) (r : List ℕ × ℕ) : Type 0 where
  same_length : length r.0 ≡ n
  words : All IsWord r.0
  carry : IsWord r.1
  sum : value r.0 + scale n r.1 ≡ total

mul_row-Row :
    (a : ℕ) (rs bs : List ℕ) (tmp : ℕ)
    → length rs ≡ length bs
    → IsWord a
    → All IsWord rs
    → All IsWord bs
    → IsWord tmp
    → Row (length rs) (tmp + value rs + a * value bs) (mul_row a rs bs tmp)
unfolding mul_row
mul_row-Row a [] [] tmp e p q u v = record {
  same_length = refl;
  words = tt;
  carry = omega arith;
  sum = omega arith;
}
mul_row-Row a [] (b ∷ bs) tmp e p q u v = absurd (omega arith)
mul_row-Row a (r ∷ rs) [] tmp e p q u v = absurd (omega arith)
mul_row-Row a (r ∷ rs) (b ∷ bs) tmp e p q u v =
    let small = word_product a b r tmp p u.0 q.0 v in
    let t = (tmp + (r + a * b)) % 2 ^ 128 in
    let whole : t ≡ tmp + (r + a * b) = omega (arith, small) in
    let up : t / 2 ^ 64 < 2 ^ 64 = omega (arith, small) in
    let rest = mul_row-Row a rs bs (t / 2 ^ 64) (omega arith) p q.1 u.1 up in
    let product : a * (b + 2 ^ 64 * value bs) ≡ a * b + 2 ^ 64 * (a * value bs) = grind arith in
    record {
      same_length = omega (arith, rest.same_length);
      words = (omega arith, rest.words);
      carry = rest.carry;
      sum = omega (arith, rest.sum, whole, product);
    }

-- Rows on top of a window add up to its number and the product.
mul_loop_lem :
    (xs bs window : List ℕ)
    → length window ≡ length bs
    → 0 < length bs
    → All IsWord xs
    → All IsWord bs
    → All IsWord window
    → (value (mul_loop xs bs window) ≡ value window + value xs * value bs)
      × (length (mul_loop xs bs window) ≡ length xs + length bs)
      × All IsWord (mul_loop xs bs window)
unfolding mul_loop
mul_loop_lem [] bs window e l p q u = (omega arith, omega arith, u)
mul_loop_lem (a ∷ xs) bs window e l p q u =
    next (mul_row a window bs 0) (mul_row-Row a window bs 0 e p.0 u q (omega arith))
      λ rest size words. mul_loop_lem xs bs rest size l p.1 q words
  where
    next :
        (row : List ℕ × ℕ)
        → Row (length window) (0 + value window + a * value bs) row
        → ((rest : List ℕ)
            → length rest ≡ length bs
            → All IsWord rest
            → (value (mul_loop xs bs rest) ≡ value rest + value xs * value bs)
              × (length (mul_loop xs bs rest) ≡ length xs + length bs)
              × All IsWord (mul_loop xs bs rest))
        → let whole : List ℕ = elim row.0 [
          | [] ↦ mul_loop xs bs (row.1 ∷ [])
          | w ∷ ws ↦ w ∷ mul_loop xs bs (ws ++ (row.1 ∷ []))
        ] in
          (value whole ≡ value window + (a + 2 ^ 64 * value xs) * value bs)
          × (length whole ≡ suc (length xs) + length bs)
          × All IsWord whole
    next ([], c) r later = absurd (omega (arith, r.same_length))
    next (w ∷ ws, c) r later =
        let size : length (ws ++ (c ∷ [])) ≡ length bs =
          omega (arith, length-append ws (c ∷ []), r.same_length) in
        let (made, long, words) =
          later (ws ++ (c ∷ [])) size (All-append IsWord ws (c ∷ []) r.words.1 (r.carry, tt)) in
        let here : scale (length window) c ≡ 2 ^ 64 * scale (length ws) c =
          ap (λ n. scale n c) (sym r.same_length) in
        let product : (a + 2 ^ 64 * value xs) * value bs
            ≡ a * value bs + 2 ^ 64 * (value xs * value bs) =
          grind arith in
        let shifted : scale (length ws) (c + 2 ^ 64 * 0) ≡ scale (length ws) c =
          ap (scale (length ws)) (let z : c + 2 ^ 64 * 0 ≡ c = omega arith in z) in
        (
          omega (arith, made, value-append ws (c ∷ []), r.sum, here, product, shifted),
          omega (arith, long),
          (r.words.0, words),
        )

-- `sdc_int_mul` of numbers of at least one word gives their product, in twice as many words.
pub mul_lem :
    (xs bs : List ℕ)
    → length xs ≡ length bs
    → 0 < length bs
    → All IsWord xs
    → All IsWord bs
    → (value (mul xs bs) ≡ value xs * value bs)
      × (length (mul xs bs) ≡ length xs + length bs)
      × All IsWord (mul xs bs)
unfolding mul
mul_lem xs bs e l p q =
    let (none, size, words) = zeros_lem (length bs) in
    let (made, long, all) = mul_loop_lem xs bs (zeros (length bs)) size l p q words in
    (omega (arith, made, none), long, all)

mul_word_loop_lem :
    (xs : List ℕ) (b tmp : ℕ)
    → All IsWord xs
    → IsWord b
    → IsWord tmp
    → (value (mul_word_loop xs b tmp) ≡ tmp + value xs * b)
      × (length (mul_word_loop xs b tmp) ≡ suc (length xs))
unfolding mul_word_loop
mul_word_loop_lem [] b tmp p q h = (omega arith, refl)
mul_word_loop_lem (a ∷ xs) b tmp p q h =
    let small = word_product a b 0 tmp p.0 q (omega arith) h in
    let t = (tmp + a * b) % 2 ^ 128 in
    let whole : t ≡ tmp + a * b = omega (arith, small) in
    let (made, long) = mul_word_loop_lem xs b (t / 2 ^ 64) p.1 q (omega (arith, small)) in
    let product : (a + 2 ^ 64 * value xs) * b ≡ a * b + 2 ^ 64 * (value xs * b) = grind arith in
    (omega (arith, made, whole, product), omega (arith, long))

-- `sdc_int_mul_word` gives the product with a word, in one word more.
pub mul_word_lem :
    (xs : List ℕ) (b : ℕ)
    → All IsWord xs
    → IsWord b
    → (value (mul_word xs b) ≡ value xs * b) × (length (mul_word xs b) ≡ suc (length xs))
unfolding mul_word
mul_word_lem xs b p q =
    let (made, long) = mul_word_loop_lem xs b 0 p q (omega arith) in (omega (arith, made), long)
