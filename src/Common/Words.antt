-- ===== src/Common/Words.antt =====
-- The loads and stores of include/sdcrypt/utils.h. An array argument is the list of its bytes;
-- the functions read and write its first 4 or 8 elements.
pub mod Load
use Prim.Native.Nat.{ℕ, ◌+◌, ◌*◌, ◌/◌, ◌^◌, bit_or}
use mathlib.Core.List.{List, [], ◌∷◌}
use slim_data_crypt.Common.Lists.{get_or}
use slim_data_crypt.Common.Tests.{u8}

-- `(uintN_t)in[i] << k`.
abbrev pub byte_at : List ℕ → ℕ → ℕ
byte_at bytes i = get_or bytes i 0

unfoldable pub load64_be : List ℕ → ℕ
load64_be input =
    let r0 = byte_at input 7 in
    let r1 = bit_or r0 (byte_at input 6 * 2 ^ 8) in
    let r2 = bit_or r1 (byte_at input 5 * 2 ^ 16) in
    let r3 = bit_or r2 (byte_at input 4 * 2 ^ 24) in
    let r4 = bit_or r3 (byte_at input 3 * 2 ^ 32) in
    let r5 = bit_or r4 (byte_at input 2 * 2 ^ 40) in
    let r6 = bit_or r5 (byte_at input 1 * 2 ^ 48) in bit_or r6 (byte_at input 0 * 2 ^ 56)

unfoldable pub load64_le : List ℕ → ℕ
load64_le input =
    let r0 = byte_at input 0 in
    let r1 = bit_or r0 (byte_at input 1 * 2 ^ 8) in
    let r2 = bit_or r1 (byte_at input 2 * 2 ^ 16) in
    let r3 = bit_or r2 (byte_at input 3 * 2 ^ 24) in
    let r4 = bit_or r3 (byte_at input 4 * 2 ^ 32) in
    let r5 = bit_or r4 (byte_at input 5 * 2 ^ 40) in
    let r6 = bit_or r5 (byte_at input 6 * 2 ^ 48) in bit_or r6 (byte_at input 7 * 2 ^ 56)

-- What `store64_be` writes to `out[0..8)`.
unfoldable pub store64_be : ℕ → List ℕ
store64_be x =
    u8 (x / 2 ^ 56)
    ∷ u8 (x / 2 ^ 48)
    ∷ u8 (x / 2 ^ 40)
    ∷ u8 (x / 2 ^ 32)
    ∷ u8 (x / 2 ^ 24)
    ∷ u8 (x / 2 ^ 16)
    ∷ u8 (x / 2 ^ 8)
    ∷ u8 x
    ∷ []

-- What `store64_le` writes to `out[0..8)`.
unfoldable pub store64_le : ℕ → List ℕ
store64_le x =
    u8 x
    ∷ u8 (x / 2 ^ 8)
    ∷ u8 (x / 2 ^ 16)
    ∷ u8 (x / 2 ^ 24)
    ∷ u8 (x / 2 ^ 32)
    ∷ u8 (x / 2 ^ 40)
    ∷ u8 (x / 2 ^ 48)
    ∷ u8 (x / 2 ^ 56)
    ∷ []

unfoldable pub load32_be : List ℕ → ℕ
load32_be input =
    let r0 = byte_at input 3 in
    let r1 = bit_or r0 (byte_at input 2 * 2 ^ 8) in
    let r2 = bit_or r1 (byte_at input 1 * 2 ^ 16) in bit_or r2 (byte_at input 0 * 2 ^ 24)

unfoldable pub load32_le : List ℕ → ℕ
load32_le input =
    let r0 = byte_at input 0 in
    let r1 = bit_or r0 (byte_at input 1 * 2 ^ 8) in
    let r2 = bit_or r1 (byte_at input 2 * 2 ^ 16) in bit_or r2 (byte_at input 3 * 2 ^ 24)

-- What `store32_be` writes to `out[0..4)`.
unfoldable pub store32_be : ℕ → List ℕ
store32_be x = u8 (x / 2 ^ 24) ∷ u8 (x / 2 ^ 16) ∷ u8 (x / 2 ^ 8) ∷ u8 x ∷ []

-- What `store32_le` writes to `out[0..4)`.
unfoldable pub store32_le : ℕ → List ℕ
store32_le x = u8 x ∷ u8 (x / 2 ^ 8) ∷ u8 (x / 2 ^ 16) ∷ u8 (x / 2 ^ 24) ∷ []
