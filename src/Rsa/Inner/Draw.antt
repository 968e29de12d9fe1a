-- ===== src/Rsa/Inner/Draw.antt =====
-- The numbers that are drawn for blinding, and the blinded exponents of src/rsa/rsa_inner.c.
use mathlib.Core.Path.{subst}
use slim_data_crypt.Common.{
  ℕ, zero, suc, ◌+◌, ◌-◌, ◌*◌, ◌/◌, ◌%◌, ◌^◌, ◌<◌, ◌≡◌, refl, ap, sym, ◌∙◌, List, [], ◌∷◌, length,
  take, drop, length-take, length-drop, take-append-drop, write_at, drop_above-write_at, ◌≤◌, All,
  All-append, All-take, All-drop, IsByte, get_or, ltb, ◌==◌, Bool-cases, inl, inr, done, arith,
}
use slim_data_crypt.Common.Words.Load.{load64_le-lt}
use slim_data_crypt.Integer.{IsWord, value, scale, zeros, eq_word, add, sub_word, borrow_loop}
use slim_data_crypt.Integer.Bytes.{frombytes_le}
use slim_data_crypt.Integer.Values.{value-append, scale-add}
use slim_data_crypt.Integer.Sums.{add-Sum}
use slim_data_crypt.Integer.Products.{mul, mul_lem}
use slim_data_crypt.Integer.Remainders.{reduce}
use slim_data_crypt.Integer.Remainders.Loops.{reduce_words}
use slim_data_crypt.Rsa.Inner.{draw, blinding_words, carry_into, blind_exponent}

frombytes_le-IsWord :
    (n : ℕ) (bytes : List ℕ) → All IsByte bytes → All IsWord (frombytes_le n bytes)
unfolding frombytes_le
frombytes_le-IsWord zero bytes h = tt
frombytes_le-IsWord (suc n) bytes h =
    (load64_le-lt bytes h, frombytes_le-IsWord n (drop 8 bytes) (All-drop IsByte 8 bytes h))

-- A drawn number, the bytes that are left, and the regions behind the drawn words.
pub record Drawn (place : ℕ) (m regions r rest regions' : List ℕ) : Type 0 where
  pub same_length : length r ≡ length m
  pub words : All IsWord r
  pub bytes : All IsByte rest
  pub behind : (k : ℕ) → place + blinding_words ≤ k → drop k regions' ≡ drop k regions

length-raw : (bytes : List ℕ) → length (frombytes_le blinding_words bytes) ≡ blinding_words
unfolding frombytes_le
length-raw bytes = refl

pub draw-Drawn :
    (fuel place : ℕ) (m rng regions r rest regions' : List ℕ)
    → 0 < length m
    → All IsWord m
    → 0 < value m
    → All IsByte rng
    → draw fuel place m (rng, regions) ≡ done r (rest, regions')
    → Drawn place m regions r rest regions'
unfolding draw
draw-Drawn zero place m rng regions r rest regions' l p h b e = absurd cc
draw-Drawn (suc fuel) place m rng regions r rest regions' l p h b e =
    elim (Bool-cases (ltb (length rng) 32)) [
      | inl short ↦ absurd (let no = rw short at e in cc)
      | inr enough ↦
          let bytes = take 32 rng in
          let raw = frombytes_le blinding_words bytes in
          let words = frombytes_le-IsWord blinding_words bytes (All-take IsByte 32 rng b) in
          let drawn = reduce (zeros (length m)) raw m in
          let written = write_at place raw regions in
          let shape = reduce_words m l p (zeros (length m)) raw words h in
          let kept = λ (k : ℕ) (far : place + blinding_words ≤ k).
            drop_above-write_at k place raw regions (omega (arith, far, length-raw bytes)) in
          elim (Bool-cases (eq_word drawn 0 == 0)) [
            | inl some_number ↦
                let both : done drawn (drop 32 rng, written) ≡ done r (rest, regions') =
                  rw (enough, some_number) at e in
                let same : drawn ≡ r = cc in
                let left : drop 32 rng ≡ rest = cc in
                let there : written ≡ regions' = cc in
                record {
                  same_length = subst (λ t. length t ≡ length m) same shape.0;
                  words = subst (All IsWord) same shape.1;
                  bytes = subst (All IsByte) left (All-drop IsByte 32 rng b);
                  behind = λ k far. ap (drop k) (sym there) ∙ kept k far;
                }
            | inr none ↦
                let later =
                  draw-Drawn fuel place m (drop 32 rng) written r rest regions' l p h
                    (All-drop IsByte 32 rng b) (rw (enough, none) at e) in
                record {
                  same_length = later.same_length;
                  words = later.words;
                  bytes = later.bytes;
                  behind = λ k far. later.behind k far ∙ kept k far;
                }
          ]
    ]

-- Which number is drawn does not depend on the regions.
pub draw_elsewhere :
    (fuel place : ℕ) (m rng regions r rest regions' other : List ℕ)
    → draw fuel place m (rng, regions) ≡ done r (rest, regions')
    → (other' : List ℕ) × (draw fuel place m (rng, other) ≡ done r (rest, other'))
unfolding draw
draw_elsewhere zero place m rng regions r rest regions' other e = absurd cc
draw_elsewhere (suc fuel) place m rng regions r rest regions' other e =
    elim (Bool-cases (ltb (length rng) 32)) [
      | inl short ↦ absurd (let no = rw short at e in cc)
      | inr enough ↦
          let raw = frombytes_le blinding_words (take 32 rng) in
          let drawn = reduce (zeros (length m)) raw m in
          elim (Bool-cases (eq_word drawn 0 == 0)) [
            | inl some_number ↦
                let both : done drawn (drop 32 rng, write_at place raw regions)
                    ≡ done r (rest, regions') =
                  rw (enough, some_number) at e in
                let same : drawn ≡ r = cc in
                let left : drop 32 rng ≡ rest = cc in
                (
                  write_at place raw other,
                  rw (enough, some_number)
                      (ap (λ t. done t (drop 32 rng, write_at place raw other)) same
                        ∙ ap (λ t. done r (t, write_at place raw other)) left),
                )
            | inr none ↦
                let (other', run) =
                  draw_elsewhere fuel place m (drop 32 rng) (write_at place raw regions) r rest
                    regions' (write_at place raw other) (rw (enough, none) at e) in
                (other', rw (enough, none) run)
          ]
    ]

-- Subtracting 1 from an odd number borrows nothing.
borrow_none : (xs : List ℕ) → All IsWord xs → (borrow_loop xs 0).0 ≡ xs
unfolding borrow_loop
borrow_none [] h = refl
borrow_none (x ∷ xs) h =
    let same : (x + 2 ^ 128 - 0) % 2 ^ 128 ≡ x = omega (arith, h.0) in
    let none : x / 2 ^ 64 ≡ 0 = omega (arith, h.0) in
    let word : x % 2 ^ 64 ≡ x = omega (arith, h.0) in
    rw (same, none, word) (ap (λ t. x ∷ t) (borrow_none xs h.1))

pub sub_one :
    (m : List ℕ)
    → All IsWord m
    → value m % 2 ≡ 1
    → (length (sub_word m 1).0 ≡ length m)
      × All IsWord (sub_word m 1).0
      × (value (sub_word m 1).0 ≡ value m - 1)
unfolding sub_word borrow_loop
sub_one [] h odd = absurd (omega arith)
sub_one (x ∷ xs) h odd =
    let same : (x + 2 ^ 128 - 1) % 2 ^ 128 ≡ x - 1 = omega (arith, h.0) in
    let none : (x - 1) / 2 ^ 64 ≡ 0 = omega (arith, h.0) in
    let word : (x - 1) % 2 ^ 64 ≡ x - 1 = omega (arith, h.0) in
    rw (same, none, word, borrow_none xs h.1) (refl, (omega (arith, h.0), h.1), omega arith)

carry_into_lem :
    (ws : List ℕ) (c : ℕ)
    → 0 < length ws
    → get_or ws 0 0 + c < 2 ^ 64
    → All IsWord ws
    → (length (carry_into ws c) ≡ length ws)
      × All IsWord (carry_into ws c)
      × (value (carry_into ws c) ≡ value ws + c)
unfolding carry_into
carry_into_lem [] c l h p = absurd (omega arith)
carry_into_lem (w ∷ ws) c l h p =
    let same : (w + c) % 2 ^ 64 ≡ w + c = omega arith in
    rw same (refl, (omega arith, p.1), omega arith)

-- The exponent and a multiple of `m - 1`, if the word that takes the carry is not all ones.
pub blind_exponent_lem :
    (d r m : List ℕ)
    → 0 < length m
    → length d ≡ length m
    → length r ≡ length m
    → All IsWord d
    → All IsWord r
    → All IsWord m
    → value m % 2 ≡ 1
    → get_or (drop (length m) (mul r (sub_word m 1).0)) 0 0 + 1 < 2 ^ 64
    → All IsWord (blind_exponent d r (sub_word m 1).0)
      × (value (blind_exponent d r (sub_word m 1).0) ≡ value d + value r * (value m - 1))
unfolding blind_exponent
blind_exponent_lem d r m l ld lr pd pr pm odd h =
    let (less_size, less_words, less) = sub_one m pm odd in
    let product = mul r (sub_word m 1).0 in
    let (made, size, words) =
      mul_lem r (sub_word m 1).0 (lr ∙ sym less_size) (omega (arith, less_size)) pr less_words in
    let n = length (sub_word m 1).0 in
    let low_size : length (take n product) ≡ n =
      length-take n product ∙ omega (arith, size, lr, less_size) in
    let high_size : length (drop n product) ≡ n =
      length-drop n product ∙ omega (arith, size, lr, less_size) in
    let sum =
      add-Sum (take n product) d (low_size ∙ less_size ∙ sym ld) (All-take IsWord n product words)
        pd in
    let low = add (take n product) d in
    let bit = sum.bit in
    let roomy : get_or (drop n product) 0 0 + 1 < 2 ^ 64 = rw less_size h in
    let (high_long, high_words, high) =
      carry_into_lem (drop n product) low.1 (omega (arith, high_size, less_size))
        (omega (arith, roomy, bit)) (All-drop IsWord n product words) in
    (
      All-append IsWord low.0 (carry_into (drop n product) low.1) sum.words high_words,
      value-append low.0 (carry_into (drop n product) low.1)
          ∙ ap (λ t. value low.0 + scale (length low.0) t) high
          ∙ ap (λ k. value low.0 + scale k (value (drop n product) + low.1)) sum.same_length
          ∙ (let apart = scale-add (length (take n product)) (value (drop n product)) low.1 in
              let whole = value-append (take n product) (drop n product) in
              omega (
                arith,
                apart,
                whole,
                sum.sum,
                ap value (take-append-drop n product),
                made,
                ap (λ t. value r * t) less,
              )),
    )
