-- ===== src/Integer/Sums.antt =====
-- Sums and differences of src/integer/integer.c, and those of the numbers.
use slim_data_crypt.Common.{
  ℕ, ◌+◌, ◌-◌, ◌*◌, ◌/◌, ◌%◌, ◌^◌, ◌<◌, ◌≤◌, ◌≡◌, refl, List, [], ◌∷◌, length, All, arith,
}
use slim_data_crypt.Integer.{IsWord, u128, value, scale, add_loop, sub_loop, lt_loop, add, sub}

-- `n` words and a carry that together make `total`.
pub record Sum (n total : ℕ) (r : List ℕ × ℕ) : Type 0 where
  pub same_length : length r.0 ≡ n
  pub words : All IsWord r.0
  pub bit : r.1 ≤ 1
  pub sum : value r.0 + scale n r.1 ≡ total

-- `n` words and a borrow that together make `a` less `b`.
pub record Difference (n a b : ℕ) (r : List ℕ × ℕ) : Type 0 where
  pub same_length : length r.0 ≡ n
  pub words : All IsWord r.0
  pub bit : r.1 ≤ 1
  pub difference : value r.0 + b ≡ a + scale n r.1

pub add_loop-Sum :
    (xs bs : List ℕ) (tmp : ℕ)
    → length xs ≡ length bs
    → All IsWord xs
    → All IsWord bs
    → tmp ≤ 1
    → Sum (length xs) (tmp + value xs + value bs) (add_loop xs bs tmp)
unfolding add_loop
add_loop-Sum [] [] tmp e p q h = record {
  same_length = refl;
  words = tt;
  bit = omega arith;
  sum = omega arith;
}
add_loop-Sum [] (b ∷ bs) tmp e p q h = absurd (omega arith)
add_loop-Sum (a ∷ xs) [] tmp e p q h = absurd (omega arith)
add_loop-Sum (a ∷ xs) (b ∷ bs) tmp e p q h =
    let t = (tmp + (a + b)) % 2 ^ 128 in
    let whole : t ≡ tmp + (a + b) = omega (arith, p.0, q.0) in
    let carry : t / 2 ^ 64 ≤ 1 = omega (arith, p.0, q.0) in
    let rest = add_loop-Sum xs bs (t / 2 ^ 64) (omega arith) p.1 q.1 carry in
    record {
      same_length = omega (arith, rest.same_length);
      words = (omega arith, rest.words);
      bit = rest.bit;
      sum = omega (arith, rest.sum, whole);
    }

-- The borrow of one word.
borrow_of :
    (a b borrow : ℕ)
    → a < 2 ^ 64
    → b < 2 ^ 64
    → borrow ≤ 1
    → let diff = u128 (a + 2 ^ 128 + 2 ^ 128 - b - borrow) in
      (diff / 2 ^ 127 ≤ 1) × (diff % 2 ^ 64 + b + borrow ≡ a + 2 ^ 64 * (diff / 2 ^ 127))
borrow_of a b borrow p q h = omega arith

pub sub_loop-Difference :
    (xs bs : List ℕ) (borrow : ℕ)
    → length xs ≡ length bs
    → All IsWord xs
    → All IsWord bs
    → borrow ≤ 1
    → Difference (length xs) (value xs) (value bs + borrow) (sub_loop xs bs borrow)
unfolding sub_loop
sub_loop-Difference [] [] borrow e p q h = record {
  same_length = refl;
  words = tt;
  bit = omega arith;
  difference = omega arith;
}
sub_loop-Difference [] (b ∷ bs) borrow e p q h = absurd (omega arith)
sub_loop-Difference (a ∷ xs) [] borrow e p q h = absurd (omega arith)
sub_loop-Difference (a ∷ xs) (b ∷ bs) borrow e p q h =
    let (bit, here) = borrow_of a b borrow p.0 q.0 h in
    let rest = sub_loop-Difference xs bs _ (omega arith) p.1 q.1 bit in
    record {
      same_length = omega (arith, rest.same_length);
      words = (omega arith, rest.words);
      bit = rest.bit;
      difference = omega (arith, rest.difference, here);
    }

-- The loop of the comparison is that of the difference.
pub lt_loop-sub_loop :
    (xs bs : List ℕ) (borrow : ℕ) → lt_loop xs bs borrow ≡ (sub_loop xs bs borrow).1
unfolding lt_loop sub_loop
lt_loop-sub_loop [] bs borrow = refl
lt_loop-sub_loop (a ∷ xs) [] borrow = refl
lt_loop-sub_loop (a ∷ xs) (b ∷ bs) borrow = lt_loop-sub_loop xs bs _

-- `sdc_int_add` on numbers of the same number of words: the words and the carry that it gives make
-- up the sum.
pub add-Sum :
    (xs ys : List ℕ)
    → length xs ≡ length ys
    → All IsWord xs
    → All IsWord ys
    → Sum (length xs) (value xs + value ys) (add xs ys)
unfolding add
add-Sum xs ys e p q =
    let r = add_loop-Sum xs ys 0 e p q (omega arith) in
    record { same_length = r.same_length; words = r.words; bit = r.bit; sum = omega (arith, r.sum) }

-- `sdc_int_sub` on numbers of the same number of words: the words and the borrow that it gives
-- make up the difference.
pub sub-Difference :
    (xs ys : List ℕ)
    → length xs ≡ length ys
    → All IsWord xs
    → All IsWord ys
    → Difference (length xs) (value xs) (value ys) (sub xs ys)
unfolding sub
sub-Difference xs ys e p q =
    let r = sub_loop-Difference xs ys 0 e p q (omega arith) in
    record {
      same_length = r.same_length;
      words = r.words;
      bit = r.bit;
      difference = omega (arith, r.difference);
    }
