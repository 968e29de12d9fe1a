-- ===== src/Integer/Montgomery/Row.antt =====
-- A row of Montgomery multiplication, and its lowest word.
use slim_data_crypt.Common.{
  ℕ, ◌+◌, ◌*◌, ◌/◌, ◌%◌, ◌^◌, ◌<◌, ◌≡◌, refl, ap, sym, ◌∙◌, List, [], ◌∷◌, length, All, arith,
  get_or, u64,
}
use slim_data_crypt.Integer.{IsWord, value, scale}
use slim_data_crypt.Integer.Products.{word_product}
use slim_data_crypt.Integer.Montgomery.{mont_row}

pub record Row (n total : ℕ) (row : List ℕ × ℕ × ℕ) : Type 0 where
  pub same_length : length row.0 ≡ n
  pub words : All IsWord row.0
  pub first : IsWord row.1
  pub second : IsWord row.2
  pub sum : value row.0 + scale n row.1 + scale n row.2 ≡ total

pub mont_row-Row :
    (ai f : ℕ) (rs bs ns : List ℕ) (r1 r2 : ℕ)
    → length rs ≡ length ns
    → length bs ≡ length ns
    → IsWord ai
    → IsWord f
    → All IsWord rs
    → All IsWord bs
    → All IsWord ns
    → IsWord r1
    → IsWord r2
    → Row
        (length ns)
        (value rs + ai * value bs + f * value ns + r1 + r2)
        (mont_row ai f rs bs ns r1 r2)
unfolding mont_row
mont_row-Row ai f [] [] [] r1 r2 d e a g p q u v w = record {
  same_length = refl;
  words = tt;
  first = v;
  second = w;
  sum = omega arith;
}
mont_row-Row ai f (r ∷ rs) bs [] r1 r2 d e a g p q u v w = absurd (omega arith)
mont_row-Row ai f [] bs (m ∷ ns) r1 r2 d e a g p q u v w = absurd (omega arith)
mont_row-Row ai f rs (b ∷ bs) [] r1 r2 d e a g p q u v w = absurd (omega arith)
mont_row-Row ai f rs [] (m ∷ ns) r1 r2 d e a g p q u v w = absurd (omega arith)
mont_row-Row ai f (r ∷ rs) (b ∷ bs) (m ∷ ns) r1 r2 d e a g p q u v w =
    let small = word_product ai b r r1 a q.0 p.0 v in
    let z1 = (r + ai * b + r1) % 2 ^ 128 in
    let whole1 : z1 ≡ r + ai * b + r1 = omega (arith, small) in
    let up1 : z1 / 2 ^ 64 < 2 ^ 64 = omega (arith, small) in
    let small2 = word_product f m (z1 % 2 ^ 64) r2 g u.0 (omega arith) w in
    let z2 = (z1 % 2 ^ 64 + f * m + r2) % 2 ^ 128 in
    let whole2 : z2 ≡ z1 % 2 ^ 64 + f * m + r2 = omega (arith, small2) in
    let up2 : z2 / 2 ^ 64 < 2 ^ 64 = omega (arith, small2) in
    let rest =
      mont_row-Row ai f rs bs ns (z1 / 2 ^ 64) (z2 / 2 ^ 64) (omega arith) (omega arith) a g p.1 q.1
        u.1 up1 up2 in
    let product1 : ai * (b + 2 ^ 64 * value bs) ≡ ai * b + 2 ^ 64 * (ai * value bs) = grind arith in
    let product2 : f * (m + 2 ^ 64 * value ns) ≡ f * m + 2 ^ 64 * (f * value ns) = grind arith in
    record {
      same_length = omega (arith, rest.same_length);
      words = (omega arith, rest.words);
      first = rest.first;
      second = rest.second;
      sum = omega (arith, rest.sum, whole1, whole2, product1, product2);
    }

cleared_parts :
    (x m ninv f j k : ℕ)
    → ninv * m + 1 ≡ 2 ^ 64 * k
    → x * ninv ≡ f + 2 ^ 64 * j
    → x + f * m + 2 ^ 64 * (j * m) ≡ 2 ^ 64 * (x * k)
cleared_parts x m ninv f j k one split =
    (let e : x + f * m + 2 ^ 64 * (j * m) ≡ (f + 2 ^ 64 * j) * m + x = grind arith in e)
    ∙ ap (λ t. t * m + x) (sym split)
    ∙ (let e : x * ninv * m + x ≡ x * (ninv * m + 1) = grind arith in e)
    ∙ ap (λ t. x * t) one
    ∙ (let e : x * (2 ^ 64 * k) ≡ 2 ^ 64 * (x * k) = grind arith in e)

-- The factor of the modulus clears the lowest word.
pub cleared :
    (x m ninv : ℕ) → (ninv * m + 1) % 2 ^ 64 ≡ 0 → (x + x * ninv % 2 ^ 64 * m) % 2 ^ 64 ≡ 0
cleared x m ninv h =
    let parts =
      cleared_parts x m ninv (x * ninv % 2 ^ 64) (x * ninv / 2 ^ 64) ((ninv * m + 1) / 2 ^ 64)
        (omega arith) (omega arith) in
    omega (arith, parts)

-- The low word of the first sum.
pub mont_row_first :
    (ai r b m ninv : ℕ) (rs bs ns : List ℕ)
    → IsWord ai
    → IsWord r
    → IsWord b
    → IsWord m
    → (ninv * m + 1) % 2 ^ 64 ≡ 0
    → let f = u64 (u64 (r + ai * b) * ninv) in
      get_or (mont_row ai f (r ∷ rs) (b ∷ bs) (m ∷ ns) 0 0).0 0 0 ≡ 0
unfolding mont_row
mont_row_first ai r b m ninv rs bs ns a p q u h =
    let x = (r + ai * b) % 2 ^ 64 in
    let f = x * ninv % 2 ^ 64 in
    let small = word_product ai b r 0 a q p (omega arith) in
    let low : (r + ai * b + 0) % 2 ^ 128 % 2 ^ 64 ≡ x = omega (arith, small) in
    let small2 = word_product f m x 0 (omega arith) u (omega arith) (omega arith) in
    let zero_word = cleared x m ninv h in rw low (omega (arith, small2, zero_word))
