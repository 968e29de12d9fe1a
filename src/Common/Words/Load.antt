-- ===== src/Common/Words/Load.antt =====
-- The loads and stores of include/sdcrypt/utils.h as sums of weighted bytes.
use Prim.Native.Nat.{ℕ, zero, suc, ◌+◌, ◌*◌, ◌/◌, ◌%◌, ◌^◌, ◌<◌, bit_or}
use mathlib.Core.Path.{◌≡◌, refl, ◌∙◌}
use mathlib.Core.List.{List, [], ◌∷◌}
use native.Mathlib.Omega.{arith}
use slim_data_crypt.Common.Lists.{All}
use slim_data_crypt.Common.Tests.{IsByte}
use slim_data_crypt.Common.Bits.{bit_or_high, or_lt}
use slim_data_crypt.Common.Words.{byte_at, load64_be, load64_le, store64_be, store64_le}

-- Eight bytes, the last one first.
abbrev pub weigh : ℕ → ℕ → ℕ → ℕ → ℕ → ℕ → ℕ → ℕ → ℕ
weigh b0 b1 b2 b3 b4 b5 b6 b7 =
    b0
    + b1 * 2 ^ 8
    + b2 * 2 ^ 16
    + b3 * 2 ^ 24
    + b4 * 2 ^ 32
    + b5 * 2 ^ 40
    + b6 * 2 ^ 48
    + b7 * 2 ^ 56

abbrev or_bytes : ℕ → ℕ → ℕ → ℕ → ℕ → ℕ → ℕ → ℕ → ℕ
or_bytes b0 b1 b2 b3 b4 b5 b6 b7 =
    bit_or
      (bit_or
        (bit_or
          (bit_or (bit_or (bit_or (bit_or b0 (b1 * 2 ^ 8)) (b2 * 2 ^ 16)) (b3 * 2 ^ 24))
            (b4 * 2 ^ 32))
          (b5 * 2 ^ 40))
        (b6 * 2 ^ 48))
      (b7 * 2 ^ 56)

or_bytes-weigh :
    (b0 b1 b2 b3 b4 b5 b6 b7 : ℕ)
    → All IsByte (b0 ∷ b1 ∷ b2 ∷ b3 ∷ b4 ∷ b5 ∷ b6 ∷ b7 ∷ [])
    → or_bytes b0 b1 b2 b3 b4 b5 b6 b7 ≡ weigh b0 b1 b2 b3 b4 b5 b6 b7
or_bytes-weigh b0 b1 b2 b3 b4 b5 b6 b7 h =
    rw
      (
        bit_or_high 8 b1 b0 (omega arith),
        bit_or_high 16 b2 (b0 + b1 * 2 ^ 8) (omega arith),
        bit_or_high 24 b3 (b0 + b1 * 2 ^ 8 + b2 * 2 ^ 16) (omega arith),
        bit_or_high 32 b4 (b0 + b1 * 2 ^ 8 + b2 * 2 ^ 16 + b3 * 2 ^ 24) (omega arith),
        bit_or_high 40 b5 (b0 + b1 * 2 ^ 8 + b2 * 2 ^ 16 + b3 * 2 ^ 24 + b4 * 2 ^ 32) (omega arith),
        bit_or_high 48 b6 (b0 + b1 * 2 ^ 8 + b2 * 2 ^ 16 + b3 * 2 ^ 24 + b4 * 2 ^ 32 + b5 * 2 ^ 40)
            (omega arith),
        bit_or_high 56 b7
            (b0 + b1 * 2 ^ 8 + b2 * 2 ^ 16 + b3 * 2 ^ 24 + b4 * 2 ^ 32 + b5 * 2 ^ 40 + b6 * 2 ^ 48)
            (omega arith),
      )
      refl

pub load64_be-weigh :
    (b0 b1 b2 b3 b4 b5 b6 b7 : ℕ) (rest : List ℕ)
    → All IsByte (b0 ∷ b1 ∷ b2 ∷ b3 ∷ b4 ∷ b5 ∷ b6 ∷ b7 ∷ [])
    → load64_be (b0 ∷ b1 ∷ b2 ∷ b3 ∷ b4 ∷ b5 ∷ b6 ∷ b7 ∷ rest) ≡ weigh b7 b6 b5 b4 b3 b2 b1 b0
unfolding load64_be
load64_be-weigh b0 b1 b2 b3 b4 b5 b6 b7 rest h =
    or_bytes-weigh b7 b6 b5 b4 b3 b2 b1 b0 (omega arith)

pub load64_le-weigh :
    (b0 b1 b2 b3 b4 b5 b6 b7 : ℕ) (rest : List ℕ)
    → All IsByte (b0 ∷ b1 ∷ b2 ∷ b3 ∷ b4 ∷ b5 ∷ b6 ∷ b7 ∷ [])
    → load64_le (b0 ∷ b1 ∷ b2 ∷ b3 ∷ b4 ∷ b5 ∷ b6 ∷ b7 ∷ rest) ≡ weigh b0 b1 b2 b3 b4 b5 b6 b7
unfolding load64_le
load64_le-weigh b0 b1 b2 b3 b4 b5 b6 b7 rest h = or_bytes-weigh b0 b1 b2 b3 b4 b5 b6 b7 h

-- A word is the sum of its bytes.
bytes_of_word :
    (x : ℕ)
    → x < 2 ^ 64
    → weigh
        (x % 2 ^ 8)
        (x / 2 ^ 8 % 2 ^ 8)
        (x / 2 ^ 16 % 2 ^ 8)
        (x / 2 ^ 24 % 2 ^ 8)
        (x / 2 ^ 32 % 2 ^ 8)
        (x / 2 ^ 40 % 2 ^ 8)
        (x / 2 ^ 48 % 2 ^ 8)
        (x / 2 ^ 56 % 2 ^ 8)
      ≡ x
bytes_of_word x h = omega arith

pub load64_be-store64_be : (x : ℕ) → x < 2 ^ 64 → load64_be (store64_be x) ≡ x
unfolding store64_be
load64_be-store64_be x h = load64_be-weigh _ _ _ _ _ _ _ _ [] (omega arith) ∙ bytes_of_word x h

pub load64_le-store64_le : (x : ℕ) → x < 2 ^ 64 → load64_le (store64_le x) ≡ x
unfolding store64_le
load64_le-store64_le x h = load64_le-weigh _ _ _ _ _ _ _ _ [] (omega arith) ∙ bytes_of_word x h

byte_at-lt : (xs : List ℕ) (i : ℕ) → All IsByte xs → byte_at xs i < 256
byte_at-lt [] i h = omega arith
byte_at-lt (x ∷ xs) zero h = h.0
byte_at-lt (x ∷ xs) (suc i) h = byte_at-lt xs i h.1

-- A load is a 64-bit word, from an array of any length.
pub load64_be-lt : (bytes : List ℕ) → All IsByte bytes → load64_be bytes < 2 ^ 64
unfolding load64_be
load64_be-lt bytes h =
    let at = λ (i : ℕ). byte_at-lt bytes i h in
    or_lt 64 _ _
      (or_lt 64 _ _
        (or_lt 64 _ _
          (or_lt 64 _ _
            (or_lt 64 _ _
              (or_lt 64 _ _ (or_lt 64 _ _ (omega (arith, at 7)) (omega (arith, at 6)))
                (omega (arith, at 5)))
              (omega (arith, at 4)))
            (omega (arith, at 3)))
          (omega (arith, at 2)))
        (omega (arith, at 1)))
      (omega (arith, at 0))

pub load64_le-lt : (bytes : List ℕ) → All IsByte bytes → load64_le bytes < 2 ^ 64
unfolding load64_le
load64_le-lt bytes h =
    let at = λ (i : ℕ). byte_at-lt bytes i h in
    let sum =
      or_bytes-weigh (byte_at bytes 0) (byte_at bytes 1) (byte_at bytes 2) (byte_at bytes 3)
        (byte_at bytes 4) (byte_at bytes 5) (byte_at bytes 6) (byte_at bytes 7)
        (omega (arith, at 0, at 1, at 2, at 3, at 4, at 5, at 6, at 7)) in
    omega (arith, sum, at 0, at 1, at 2, at 3, at 4, at 5, at 6, at 7)
