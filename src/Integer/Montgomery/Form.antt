-- ===== src/Integer/Montgomery/Form.antt =====
-- Numbers in Montgomery form, and the operations on them: multiplication, and the ways in and out.
use mathlib.Core.Path.{subst}
use native.Mathlib.Nat.{add-mul-mod_self_right, mod-lt, mod-mod, mul-le-mul}
use slim_data_crypt.Common.{
  ℕ, zero, suc, ◌+◌, ◌-◌, ◌*◌, ◌/◌, ◌%◌, ◌^◌, ◌<◌, ◌≤◌, ◌≡◌, refl, ap, sym, ◌∙◌, List, [], ◌∷◌,
  ◌++◌, length, drop, All, arith, get_or, u64, bit_or, leb, false,
}
use slim_data_crypt.Common.Modular.{cancel-pow, mul-mod, mod-mul}
use slim_data_crypt.Integer.{IsWord, u128, value, scale, set_word, sub_ctl, gte}
use slim_data_crypt.Integer.Values.{scale_zero}
use slim_data_crypt.Integer.Compare.{gte_lem}
use slim_data_crypt.Integer.Products.{word_product}
use slim_data_crypt.Integer.Remainders.{to_mont}
use slim_data_crypt.Integer.Remainders.Reduce.{Reduced, subtracted}
use slim_data_crypt.Integer.Remainders.Loops.{to_mont_lem, to_mont_words, set_word_words}
use slim_data_crypt.Integer.Montgomery.{mont_mul, from_row, from_loop, from_mont}
use slim_data_crypt.Integer.Montgomery.Row.{Row, cleared}
use slim_data_crypt.Integer.Montgomery.Multiply.{mont_mul_lem, mont_mul_words, moved, scale_pow}

-- The words of a number below the modulus that stands for `t`: that many times a power of two.
pub record Form (n : List ℕ) (t : ℕ) (x : List ℕ) : Type 0 where
  pub same_length : length x ≡ length n
  pub words : All IsWord x
  pub below : value x < value n
  pub form : value x ≡ t * 2 ^ (length n * 64) % value n

pub Form-next : (n : List ℕ) (t u : ℕ) (x : List ℕ) → t ≡ u → Form n t x → Form n u x
Form-next n t u x e f = subst (λ k. Form n k x) e f

-- The inner loop of `sdc_int_from_mont`, as a row with no first carry.
from_row-Row :
    (f : ℕ) (xs ns : List ℕ) (cc : ℕ)
    → length xs ≡ length ns
    → IsWord f
    → All IsWord xs
    → All IsWord ns
    → IsWord cc
    → Row
        (length ns)
        (value xs + f * value ns + cc)
        ((from_row f xs ns cc).0, 0, (from_row f xs ns cc).1)
unfolding from_row
from_row-Row f [] [] cc e g p q w = record {
  same_length = refl;
  words = tt;
  first = omega arith;
  second = w;
  sum = omega arith;
}
from_row-Row f [] (m ∷ ns) cc e g p q w = absurd (omega arith)
from_row-Row f (x ∷ xs) [] cc e g p q w = absurd (omega arith)
from_row-Row f (x ∷ xs) (m ∷ ns) cc e g p q w =
    let small = word_product f m x cc g q.0 p.0 w in
    let z = (x + f * m + cc) % 2 ^ 128 in
    let whole : z ≡ x + f * m + cc = omega (arith, small) in
    let up : z / 2 ^ 64 < 2 ^ 64 = omega (arith, small) in
    let rest = from_row-Row f xs ns (z / 2 ^ 64) (omega arith) g p.1 q.1 up in
    let product : f * (m + 2 ^ 64 * value ns) ≡ f * m + 2 ^ 64 * (f * value ns) = grind arith in
    record {
      same_length = omega (arith, rest.same_length);
      words = (omega arith, rest.words);
      first = omega arith;
      second = rest.second;
      sum = omega (arith, rest.sum, whole, product);
    }

from_row_first :
    (x m ninv : ℕ) (xs ns : List ℕ)
    → IsWord x
    → IsWord m
    → (ninv * m + 1) % 2 ^ 64 ≡ 0
    → get_or (from_row (u64 (x * ninv)) (x ∷ xs) (m ∷ ns) 0).0 0 0 ≡ 0
unfolding from_row
from_row_first x m ninv xs ns p u h =
    let small = word_product (x * ninv % 2 ^ 64) m x 0 (omega arith) u p (omega arith) in
    omega (arith, small, cleared x m ninv h)

-- A round keeps the number below the modulus.
round_bound : (v f n w : ℕ) → v < n → IsWord f → 2 ^ 64 * w ≡ v + f * n → w < n
round_bound v f n w h g e =
    let left : f ≤ 2 ^ 64 - 1 = omega arith in
    let most : f * n ≤ (2 ^ 64 - 1) * n = mul-le-mul left (let r : n ≤ n = omega arith in r) in
    omega arith

-- What a row leaves, moved down by one word with its carry behind it.
moved_down :
    (k total c : ℕ) (row : List ℕ)
    → Row (suc k) total (row, 0, c)
    → get_or row 0 0 ≡ 0
    → (length (drop 1 row ++ (u64 c ∷ [])) ≡ suc k)
      × All IsWord (drop 1 row ++ (u64 c ∷ []))
      × (2 ^ 64 * value (drop 1 row ++ (u64 c ∷ [])) ≡ total)
moved_down k total c row r low =
    let same : u128 (0 + 0 + c) ≡ c = omega (arith, r.second) in
    let up : c / 2 ^ 64 ≡ 0 = omega (arith, r.second) in
    let (long, all, bit, sum) = rw same at (moved k total 0 (row, 0, c) r low (omega arith)) in
    (long, all, omega (arith, (rw up at sum), scale_zero (suc k)))

module _ (m : ℕ) (ns : List ℕ) (ninv : ℕ) (moduli : All IsWord (m ∷ ns))
    (odd : value (m ∷ ns) % 2 ≡ 1) (inverse : (ninv * m + 1) % 2 ^ 64 ≡ 0) where
  abbrev n : List ℕ
  n = m ∷ ns

  abbrev power : ℕ
  power = 2 ^ (length n * 64)

  pub mont_mul-Form :
      (x y : List ℕ) (t u : ℕ) → Form n t x → Form n u y → Form n (t * u) (mont_mul x y n ninv)
  mont_mul-Form x [] t u f g = absurd (omega (arith, g.same_length))
  mont_mul-Form x (b ∷ bs) t u f g =
      let size : length bs ≡ length ns = omega (arith, g.same_length) in
      let made =
        mont_mul_lem m ns b bs ninv size moduli g.words inverse x f.same_length g.below f.words in
      let words =
        mont_mul_words m ns b bs ninv size moduli g.words inverse x f.same_length g.below f.words in
      let positive : 0 < value n = omega (arith, f.below) in
      record {
        same_length = words.0;
        words = words.1;
        below = made.0;
        form =
            cancel-pow (length n * 64) (value (mont_mul x (b ∷ bs) n ninv))
              (t * u * power % value n) (value n) odd made.0 (mod-lt (t * u * power) positive)
              (made.1
                ∙ ap (λ k. k * value (b ∷ bs) % value n) f.form
                ∙ ap (λ k. t * power % value n * k % value n) g.form
                ∙ mod-mul (t * power) (u * power % value n) (value n)
                ∙ mul-mod (t * power) (u * power) (value n)
                ∙ ap (λ k. k % value n)
                    (let e : t * power * (u * power) ≡ t * u * power * power = grind arith in e)
                ∙ sym (mod-mul (t * u * power) power (value n)));
      }

  pub to_mont-Form :
      (x : List ℕ)
      → length x ≡ length n
      → All IsWord x
      → value x < value n
      → Form n (value x) (to_mont x n)
  to_mont-Form x size words below =
      let shape = to_mont_words n (omega arith) moduli x size words below in
      let made = to_mont_lem n (omega arith) moduli x size words below in
      record {
        same_length = shape.0;
        words = shape.1;
        below = rw made (mod-lt (value x * power) (omega (arith, below)));
        form = made;
      }

  pub one-Form : 1 < value n → Form n 1 (to_mont (set_word 1 (length n)) n)
  one-Form above =
      let (size, words, one) = set_word_words n (omega arith) moduli 1 (omega arith) above in
      Form-next n (value (set_word 1 (length n))) 1 (to_mont (set_word 1 (length n)) n) one
        (to_mont-Form (set_word 1 (length n)) size words (rw one above))

  -- After `k` rounds of the outer loop, times the word size for each, there are some moduli more.
  record Leaving (k start : ℕ) (x : List ℕ) : Type 0 where
    same_length : length x ≡ length n
    words : All IsWord x
    below : value x < value n
    quotient : ℕ
    sum : scale k (value x) ≡ start + quotient * value n

  from_loop-Leaving :
      (k : ℕ) (x : List ℕ)
      → length x ≡ length n
      → All IsWord x
      → value x < value n
      → Leaving k (value x) (from_loop ninv k n x)
  unfolding from_loop
  from_loop-Leaving zero x size words below = record {
    same_length = size;
    words = words;
    below = below;
    quotient = 0;
    sum = omega arith;
  }
  from_loop-Leaving (suc k) [] size words below = absurd (omega (arith, size))
  from_loop-Leaving (suc k) (x ∷ xs) size words below =
      let f = x * ninv % 2 ^ 64 in
      let row = from_row f (x ∷ xs) n 0 in
      let made = from_row-Row f (x ∷ xs) n 0 size (omega arith) words moduli (omega arith) in
      let next =
        moved_down (length ns) (value (x ∷ xs) + f * value n + 0) row.1 row.0 made
          (from_row_first x m ninv xs ns words.0 moduli.0 inverse) in
      let v = value (drop 1 row.0 ++ (u64 row.1 ∷ [])) in
      let sum : 2 ^ 64 * v ≡ value (x ∷ xs) + f * value n = omega (arith, next.2) in
      let rest =
        from_loop-Leaving k (drop 1 row.0 ++ (u64 row.1 ∷ [])) next.0 next.1
          (round_bound (value (x ∷ xs)) f (value n) v below (omega arith) sum) in
      let product : (f + 2 ^ 64 * rest.quotient) * value n
          ≡ f * value n + 2 ^ 64 * (rest.quotient * value n) =
        grind arith in
      record {
        same_length = rest.same_length;
        words = rest.words;
        below = rest.below;
        quotient = f + 2 ^ 64 * rest.quotient;
        sum = omega (arith, rest.sum, sum, product);
      }

  from_mont_whole :
      (x : List ℕ) (t : ℕ)
      → Form n t x
      → (length (from_mont x n ninv) ≡ length n)
        × All IsWord (from_mont x n ninv)
        × (value (from_mont x n ninv) ≡ t % value n)
  unfolding from_mont
  from_mont_whole x t f =
      let left = from_loop-Leaving (length n) x f.same_length f.words f.below in
      let y = from_loop ninv (length n) n x in
      let small : value y + scale (length n) 0 < value n + value n =
        omega (arith, scale_zero (length n), left.below) in
      let none : gte y n ≡ 0 =
        gte_lem y n left.same_length left.words moduli
        ∙ (let l = left.below in
            let e : leb (value n) (value y) ≡ false = ground arith in rw e refl) in
      let last : Reduced n (value y + scale (length n) 0) 0 (sub_ctl y n 0).0 =
        subst
          (λ k. Reduced n (value y + scale (length n) 0) (bit_or k 0) (sub_ctl y n (bit_or k 0)).0)
          none (subtracted n y 0 left.same_length left.words moduli (omega arith) small) in
      let same : value (sub_ctl y n 0).0 ≡ value y =
        omega (arith, last.sum, scale_zero (length n)) in
      subst
        (λ k.
          (length (sub_ctl y n k).0 ≡ length n)
          × All IsWord (sub_ctl y n k).0
          × (value (sub_ctl y n k).0 ≡ t % value n))
        (sym none)
        (
          last.same_length,
          last.words,
          same
              ∙ cancel-pow (length n * 64) (value y) (t % value n) (value n) odd left.below
                  (mod-lt t (omega (arith, f.below)))
                  (ap (λ k. k % value n) (sym (scale_pow (length n) (value y)) ∙ left.sum)
                    ∙ add-mul-mod_self_right (value x) left.quotient (value n)
                    ∙ ap (λ k. k % value n) f.form
                    ∙ mod-mod (t * power) (value n)
                    ∙ sym (mod-mul t power (value n))),
        )

  -- `sdc_int_from_mont` gives the number below the modulus that the form stands for.
  pub from_mont_lem : (x : List ℕ) (t : ℕ) → Form n t x → value (from_mont x n ninv) ≡ t % value n
  from_mont_lem x t f = let whole = from_mont_whole x t f in whole.2

  pub from_mont_words :
      (x : List ℕ) (t : ℕ)
      → Form n t x
      → (length (from_mont x n ninv) ≡ length n) × All IsWord (from_mont x n ninv)
  from_mont_words x t f = let whole = from_mont_whole x t f in (whole.0, whole.1)
