-- ===== src/Common/Bits.antt =====
-- The bit operations as arithmetic: `<<` then `|`, masks of one byte, and `^`. A native operation on
-- bits means a recursion on the digits, whose count of rounds may be any number that is large
-- enough.
pub mod Masks
use Prim.Native.Nat.{ℕ, zero, suc, ◌+◌, ◌*◌, ◌/◌, ◌%◌, ◌^◌, ◌≤◌, ◌<◌, max, differ}
use Prim.Native.Nat.{bit_and, bit_or, bit_xor, digits, bit_or-bitwise, bit_xor-bitwise}
use mathlib.Core.Path.{◌≡◌, refl, ap, ◌∙◌}
use mathlib.Core.Bool.{Bool, true, false}
use native.Mathlib.Nat.{pow-suc}
use native.Mathlib.Omega.{arith}
use slim_data_crypt.Common.Tests.{◌==◌, if◌then◌else◌}

pub digits_rounds :
    (z : ℕ → ℕ) (f : ℕ → ℕ → ℕ) (n m a b : ℕ) → a ≤ n → a ≤ m → digits z f n a b ≡ digits z f m a b
digits_rounds z f zero zero a b h k = refl
digits_rounds z f zero (suc m) zero b h k = refl
digits_rounds z f zero (suc m) (suc a) b h k = absurd (omega arith)
digits_rounds z f (suc n) zero zero b h k = refl
digits_rounds z f (suc n) zero (suc a) b h k = absurd (omega arith)
digits_rounds z f (suc n) (suc m) zero b h k = refl
digits_rounds z f (suc n) (suc m) (suc a) b h k =
    ap (λ t. t * 2 + f (suc a % 2) (b % 2))
      (digits_rounds z f n m (suc a / 2) (b / 2) (omega arith) (omega arith))

pub or_step : (a b : ℕ) → bit_or a b ≡ bit_or (a / 2) (b / 2) * 2 + max (a % 2) (b % 2)
or_step zero b = omega (arith, bit_or-bitwise 0 b, bit_or-bitwise 0 (b / 2))
or_step (suc a) b = omega (
  arith,
  bit_or-bitwise (suc a) b,
  bit_or-bitwise (suc a / 2) (b / 2),
  digits_rounds (λ y. y) max a (suc a / 2) (suc a / 2) (b / 2) (omega arith) (omega arith),
)

or-zero_rounds : (n a : ℕ) → a ≤ n → bit_or a 0 ≡ a
or-zero_rounds n zero h = refl
or-zero_rounds zero (suc a) h = absurd (omega arith)
or-zero_rounds (suc n) (suc a) h =
    omega (arith, or_step (suc a) 0, or-zero_rounds n (suc a / 2) (omega arith))

-- `(x << k) | r`, where `r` has `k` bits.
double_shift : (k x : ℕ) → x * 2 ^ suc k ≡ x * 2 ^ k * 2
double_shift k x = omega (arith, ap (λ (t : ℕ). x * t) (pow-suc 2 k))

pub bit_or_low : (k x r : ℕ) → r < 2 ^ k → bit_or (x * 2 ^ k) r ≡ x * 2 ^ k + r
bit_or_low zero x r h = ground (arith, or-zero_rounds x x (omega arith))
bit_or_low (suc k) x r h = ground (
  arith,
  or_step (x * 2 ^ suc k) r,
  double_shift k x,
  bit_or_low k x (r / 2) (omega (arith, pow-suc 2 k)),
)

-- `|` stays below a power of two.
pub or_lt : (k a b : ℕ) → a < 2 ^ k → b < 2 ^ k → bit_or a b < 2 ^ k
or_lt zero a b h l =
    let (p, q) = (let r : (a ≡ 0) × (b ≡ 0) = omega arith in r) in rw (p, q) (omega arith)
or_lt (suc k) a b h l = omega (
  arith,
  pow-suc 2 k,
  or_step a b,
  or_lt k (a / 2) (b / 2) (omega (arith, pow-suc 2 k)) (omega (arith, pow-suc 2 k)),
)

-- `r | (x << k)`, where `r` has `k` bits.
pub bit_or_high : (k x r : ℕ) → r < 2 ^ k → bit_or r (x * 2 ^ k) ≡ r + x * 2 ^ k
bit_or_high zero x zero h = omega (arith, bit_or-bitwise 0 (x * 1))
bit_or_high zero x (suc r) h = absurd (omega arith)
bit_or_high (suc k) x r h = ground (
  arith,
  or_step r (x * 2 ^ suc k),
  double_shift k x,
  bit_or_high k x (r / 2) (omega (arith, pow-suc 2 k)),
)

pub xor_step : (a b : ℕ) → bit_xor a b ≡ bit_xor (a / 2) (b / 2) * 2 + differ (a % 2) (b % 2)
xor_step zero b = omega (arith, bit_xor-bitwise 0 b, bit_xor-bitwise 0 (b / 2))
xor_step (suc a) b = omega (
  arith,
  bit_xor-bitwise (suc a) b,
  bit_xor-bitwise (suc a / 2) (b / 2),
  digits_rounds (λ y. y) differ a (suc a / 2) (suc a / 2) (b / 2) (omega arith) (omega arith),
)

pub differ_twice : (a b : ℕ) → a < 2 → b < 2 → (differ (differ a b) b ≡ a) × (differ a b < 2)
differ_twice zero zero h k = (refl, omega arith)
differ_twice zero (suc zero) h k = (refl, omega arith)
differ_twice (suc zero) zero h k = (refl, omega arith)
differ_twice (suc zero) (suc zero) h k = (refl, omega arith)
differ_twice zero (suc (suc b)) h k = absurd (omega arith)
differ_twice (suc zero) (suc (suc b)) h k = absurd (omega arith)
differ_twice (suc (suc a)) b h k = absurd (omega arith)

-- The digits of `a ^ b`.
pub xor_halves :
    (a b : ℕ)
    → (bit_xor a b / 2 ≡ bit_xor (a / 2) (b / 2)) × (bit_xor a b % 2 ≡ differ (a % 2) (b % 2))
xor_halves a b =
    omega (arith, xor_step a b, differ_twice (a % 2) (b % 2) (omega arith) (omega arith))

xor_twice_rounds : (n a b : ℕ) → a ≤ n → b ≤ n → bit_xor (bit_xor a b) b ≡ a
xor_twice_rounds zero zero zero h k = refl
xor_twice_rounds zero zero (suc b) h k = absurd (omega arith)
xor_twice_rounds zero (suc a) b h k = absurd (omega arith)
xor_twice_rounds (suc n) a b h k =
    let (high, low) = xor_halves a b in
    xor_step (bit_xor a b) b
    ∙ rw
        (
          high,
          low,
          xor_twice_rounds n (a / 2) (b / 2) (omega arith) (omega arith),
          (differ_twice (a % 2) (b % 2) (omega arith) (omega arith)).0,
        )
        (omega arith)

-- The same mask twice gives the value back.
pub xor_twice : (a b : ℕ) → bit_xor (bit_xor a b) b ≡ a
xor_twice a b = xor_twice_rounds (a + b) a b (omega arith) (omega arith)

pub xor_lt : (k a b : ℕ) → a < 2 ^ k → b < 2 ^ k → bit_xor a b < 2 ^ k
xor_lt zero a b h l =
    let (p, q) = (let r : (a ≡ 0) × (b ≡ 0) = omega arith in r) in rw (p, q) (omega arith)
xor_lt (suc k) a b h l = omega (
  arith,
  pow-suc 2 k,
  xor_step a b,
  differ_twice (a % 2) (b % 2) (omega arith) (omega arith),
  xor_lt k (a / 2) (b / 2) (omega (arith, pow-suc 2 k)) (omega (arith, pow-suc 2 k)),
)

pub xor-IsByte : (a b : ℕ) → a < 256 → b < 256 → bit_xor a b < 256
xor-IsByte a b h l = xor_lt 8 a b h l

-- Facts about one byte, checked at each value.
module _ (f g : ℕ → ℕ) where
  unfoldable pub agree_below : ℕ → Bool
  agree_below zero = true
  agree_below (suc n) = let rest = agree_below n in if f n == g n then rest else false

  pub agree_below_sound : (n : ℕ) → agree_below n ≡ true → (i : ℕ) → i < n → f i ≡ g i
  unfolding agree_below
  agree_below_sound zero e i h = absurd (omega arith)
  agree_below_sound (suc n) e i h = ground (arith, agree_below_sound n (ground arith) i)

pub top_bit : (b : ℕ) → b < 256 → bit_and b 0x80 ≡ b / 128 * 128
unfolding agree_below
top_bit = agree_below_sound _ _ 256 refl

pub low_seven : (b : ℕ) → b < 256 → bit_and b 0x7f ≡ b % 128
unfolding agree_below
low_seven = agree_below_sound _ _ 256 refl

pub set_top_bit : (n : ℕ) → n < 128 → bit_or 0x80 n ≡ 128 + n
unfolding agree_below
set_top_bit = agree_below_sound _ _ 128 refl
