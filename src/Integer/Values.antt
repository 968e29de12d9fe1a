-- ===== src/Integer/Values.antt =====
-- The number that an array stands for.
use slim_data_crypt.Common.{
  ℕ, zero, suc, ◌+◌, ◌*◌, ◌<◌, ◌≤◌, ◌≡◌, ◌⊎◌, inl, inr, refl, List, [], ◌∷◌, length, All, arith,
}
use slim_data_crypt.Common.{◌++◌}
use slim_data_crypt.Integer.{zeros, IsWord, value, scale}

pub value-lt_scale : (ws : List ℕ) → All IsWord ws → value ws < scale (length ws) 1
value-lt_scale [] h = omega arith
value-lt_scale (w ∷ ws) h = omega (arith, value-lt_scale ws h.1, h.0)

pub scale_zero : (n : ℕ) → scale n 0 ≡ 0
scale_zero zero = refl
scale_zero (suc n) = omega (arith, scale_zero n)

-- A carry of 0 or 1.
pub scale_bit : (n c : ℕ) → c ≤ 1 → scale n c ≡ scale n 1 * c
scale_bit n zero h = omega (arith, scale_zero n)
scale_bit n (suc zero) h = omega arith
scale_bit n (suc (suc c)) h = absurd (omega arith)

pub scale-add : (n a b : ℕ) → scale n (a + b) ≡ scale n a + scale n b
scale-add zero a b = refl
scale-add (suc n) a b = omega (arith, scale-add n a b)

pub value-append : (xs ys : List ℕ) → value (xs ++ ys) ≡ value xs + scale (length xs) (value ys)
value-append [] ys = omega arith
value-append (x ∷ xs) ys = omega (arith, value-append xs ys)

pub scale_cases : (n c : ℕ) → c ≤ 1 → (scale n c ≡ 0) ⊎ (scale n c ≡ scale n 1)
scale_cases n zero h = inl (scale_zero n)
scale_cases n (suc zero) h = inr refl
scale_cases n (suc (suc c)) h = absurd (omega arith)

pub zeros_lem : (n : ℕ) → (value (zeros n) ≡ 0) × (length (zeros n) ≡ n) × All IsWord (zeros n)
zeros_lem zero = (refl, refl, tt)
zeros_lem (suc n) =
    let (none, size, words) = zeros_lem n in
    (omega (arith, none), omega (arith, size), (omega arith, words))

-- Arrays of one length with the same number are the same.
pub value-injective :
    (xs ys : List ℕ)
    → length xs ≡ length ys
    → All IsWord xs
    → All IsWord ys
    → value xs ≡ value ys
    → xs ≡ ys
value-injective [] [] e p q h = refl
value-injective [] (y ∷ ys) e p q h = absurd (omega (arith, e))
value-injective (x ∷ xs) [] e p q h = absurd (omega (arith, e))
value-injective (x ∷ xs) (y ∷ ys) e p q h =
    let first : x ≡ y = omega (arith, p.0, q.0, h) in
    let rest = value-injective xs ys (omega (arith, e)) p.1 q.1 (omega (arith, p.0, q.0, h)) in
    rw (first, rest) refl
