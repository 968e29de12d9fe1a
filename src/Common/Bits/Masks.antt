-- ===== src/Common/Bits/Masks.antt =====
-- Masks of all ones or all zeros, and tests for 0, on words.
use Prim.Native.Nat.{ℕ, zero, suc, ◌+◌, ◌-◌, ◌*◌, ◌/◌, ◌%◌, ◌^◌, ◌≤◌, ◌<◌, min, differ}
use Prim.Native.Nat.{bit_and, bit_or, bit_xor, bit_and-bitwise, bit_or-bitwise}
use mathlib.Core.Path.{◌≡◌, refl, ap, sym, ◌∙◌}
use native.Mathlib.Nat.{pow-suc}
use native.Mathlib.Omega.{arith}
use slim_data_crypt.Common.Bits.{digits_rounds, or_step, xor_step, xor_halves}

pub and_step : (a b : ℕ) → bit_and a b ≡ bit_and (a / 2) (b / 2) * 2 + min (a % 2) (b % 2)
and_step zero b = omega (arith, bit_and-bitwise 0 b, bit_and-bitwise 0 (b / 2))
and_step (suc a) b = omega (
  arith,
  bit_and-bitwise (suc a) b,
  bit_and-bitwise (suc a / 2) (b / 2),
  digits_rounds (λ b. zero) min a (suc a / 2) (suc a / 2) (b / 2) (omega arith) (omega arith),
)

-- A mask of ones keeps every bit.
pub and_ones : (k x : ℕ) → x < 2 ^ k → bit_and x (2 ^ k - 1) ≡ x
and_ones zero zero h = omega (arith, bit_and-bitwise 0 (1 - 1))
and_ones zero (suc x) h = absurd (omega arith)
and_ones (suc k) x h =
    let half : (2 ^ suc k - 1) / 2 ≡ 2 ^ k - 1 = omega (arith, pow-suc 2 k) in
    let odd : (2 ^ suc k - 1) % 2 ≡ 1 = omega (arith, pow-suc 2 k, positive k) in
    let above : x / 2 < 2 ^ k = omega (arith, pow-suc 2 k) in
    and_step x (2 ^ suc k - 1) ∙ rw (half, odd, and_ones k (x / 2) above) (omega arith)
  where
    positive : (k : ℕ) → 0 < 2 ^ k
    positive zero = omega arith
    positive (suc k) = omega (arith, pow-suc 2 k, positive k)

and_zero_rounds : (n x : ℕ) → x ≤ n → bit_and x 0 ≡ 0
and_zero_rounds n zero h = omega (arith, bit_and-bitwise 0 0)
and_zero_rounds zero (suc x) h = absurd (omega arith)
and_zero_rounds (suc n) (suc x) h =
    omega (arith, and_step (suc x) 0, and_zero_rounds n (suc x / 2) (omega arith))

pub and_zero : (x : ℕ) → bit_and x 0 ≡ 0
and_zero x = and_zero_rounds x x (omega arith)

pub or_none_left : (b : ℕ) → bit_or 0 b ≡ b
or_none_left b = omega (arith, bit_or-bitwise 0 b)

or_none_rounds : (n a : ℕ) → a ≤ n → bit_or a 0 ≡ a
or_none_rounds n zero h = refl
or_none_rounds zero (suc a) h = absurd (omega arith)
or_none_rounds (suc n) (suc a) h =
    omega (arith, or_step (suc a) 0, or_none_rounds n (suc a / 2) (omega arith))

pub or_none_right : (a : ℕ) → bit_or a 0 ≡ a
or_none_right a = or_none_rounds a a (omega arith)

or_ge_rounds : (n a b : ℕ) → a ≤ n → b ≤ n → (a ≤ bit_or a b) × (b ≤ bit_or a b)
or_ge_rounds zero a b h k = omega arith
or_ge_rounds (suc n) a b h k =
    let above = or_ge_rounds n (a / 2) (b / 2) (omega arith) (omega arith) in
    omega (arith, or_step a b, above.0, above.1)

-- `|` is no less than either side.
pub or_ge : (a b : ℕ) → (a ≤ bit_or a b) × (b ≤ bit_or a b)
or_ge a b = or_ge_rounds (a + b) a b (omega arith) (omega arith)

differ_zero : (a b : ℕ) → a < 2 → b < 2 → differ a b ≡ 0 → a ≡ b
differ_zero zero zero h k e = refl
differ_zero zero (suc zero) h k e = sym e
differ_zero (suc zero) zero h k e = e
differ_zero (suc zero) (suc zero) h k e = refl
differ_zero zero (suc (suc b)) h k e = absurd (omega arith)
differ_zero (suc zero) (suc (suc b)) h k e = absurd (omega arith)
differ_zero (suc (suc a)) b h k e = absurd (omega arith)

xor_zero_rounds : (n a b : ℕ) → a ≤ n → b ≤ n → bit_xor a b ≡ 0 → a ≡ b
xor_zero_rounds zero a b h k e = omega arith
xor_zero_rounds (suc n) a b h k e =
    let (high, low) = xor_halves a b in
    let above = xor_zero_rounds n (a / 2) (b / 2) (omega arith) (omega arith) (omega arith) in
    let below = differ_zero (a % 2) (b % 2) (omega arith) (omega arith) (omega arith) in omega arith

-- Only equal numbers have no differing bit.
pub xor_zero : (a b : ℕ) → bit_xor a b ≡ 0 → a ≡ b
xor_zero a b e = xor_zero_rounds (a + b) a b (omega arith) (omega arith) e

differ_back :
    (a b : ℕ)
    → a < 2
    → b < 2
    → (differ a (differ a b) ≡ b) × (differ b (differ a b) ≡ a) × (differ a a ≡ 0)
differ_back zero zero h k = (refl, refl, refl)
differ_back zero (suc zero) h k = (refl, refl, refl)
differ_back (suc zero) zero h k = (refl, refl, refl)
differ_back (suc zero) (suc zero) h k = (refl, refl, refl)
differ_back zero (suc (suc b)) h k = absurd (omega arith)
differ_back (suc zero) (suc (suc b)) h k = absurd (omega arith)
differ_back (suc (suc a)) b h k = absurd (omega arith)

xor_back_rounds :
    (n a b : ℕ)
    → a ≤ n
    → b ≤ n
    → (bit_xor a (bit_xor a b) ≡ b) × (bit_xor b (bit_xor a b) ≡ a) × (bit_xor a a ≡ 0)
xor_back_rounds zero a b h k =
    let (p, q) = (let r : (a ≡ 0) × (b ≡ 0) = omega arith in r) in rw (p, q) (refl, refl, refl)
xor_back_rounds (suc n) a b h k =
    let (high, low) = xor_halves a b in
    let (first, second, none) = xor_back_rounds n (a / 2) (b / 2) (omega arith) (omega arith) in
    let (first_low, second_low, none_low) =
      differ_back (a % 2) (b % 2) (omega arith) (omega arith) in
    (
      xor_step a (bit_xor a b) ∙ rw (high, low, first, first_low) (omega arith),
      xor_step b (bit_xor a b) ∙ rw (high, low, second, second_low) (omega arith),
      xor_step a a ∙ rw (none, none_low) (omega arith),
    )

pub xor_back : (a b : ℕ) → (bit_xor a (bit_xor a b) ≡ b) × (bit_xor b (bit_xor a b) ≡ a)
xor_back a b =
    let (first, second, none) = xor_back_rounds (a + b) a b (omega arith) (omega arith) in
    (first, second)

pub xor_same : (a : ℕ) → bit_xor a a ≡ 0
xor_same a =
    let (first, second, none) = xor_back_rounds (a + a) a a (omega arith) (omega arith) in none

pub xor_none : (a : ℕ) → bit_xor a 0 ≡ a
xor_none a = ap (bit_xor a) (sym (xor_same a)) ∙ (xor_back a a).0

pub and_none_left : (b : ℕ) → bit_and 0 b ≡ 0
and_none_left b = omega (arith, bit_and-bitwise 0 b)
