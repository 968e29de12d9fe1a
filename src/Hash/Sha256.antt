-- ===== src/Hash/Sha256.antt =====
-- src/sha/sha256.c: the compression of SHA-256, and the functions of SHA-256 and SHA-224.
pub mod Streams
pub mod Bounds
pub mod Fips
pub mod Standard
use slim_data_crypt.Common.{
  ℕ, zero, suc, ◌+◌, ◌-◌, ◌*◌, ◌/◌, ◌%◌, ◌^◌, List, [], ◌∷◌, ◌++◌, drop, take, bit_and, bit_or,
  bit_xor, u32, ltb,
}
use slim_data_crypt.Common.Words.{byte_at, load32_be, store32_be, store64_be}
use slim_data_crypt.Hash.{Ctx, absorb, finish, count_bits}
use slim_data_crypt.Hash.Registers.{Registers, load_state, mix_state, store_words}

unfoldable pub rotr32 : ℕ → ℕ → ℕ
rotr32 x n = bit_or (x / 2 ^ n) (u32 (x * 2 ^ (32 - n)))

-- `~x`
unfoldable pub not32 : ℕ → ℕ
not32 x = 2 ^ 32 - 1 - x

unfoldable pub ch : ℕ → ℕ → ℕ → ℕ
ch x y z = bit_xor (bit_and x y) (bit_and (not32 x) z)

unfoldable pub maj : ℕ → ℕ → ℕ → ℕ
maj x y z = bit_xor (bit_xor (bit_and x y) (bit_and x z)) (bit_and y z)

unfoldable pub big_sigma0 : ℕ → ℕ
big_sigma0 x = bit_xor (bit_xor (rotr32 x 2) (rotr32 x 13)) (rotr32 x 22)

unfoldable pub big_sigma1 : ℕ → ℕ
big_sigma1 x = bit_xor (bit_xor (rotr32 x 6) (rotr32 x 11)) (rotr32 x 25)

unfoldable pub sigma0 : ℕ → ℕ
sigma0 x = bit_xor (bit_xor (rotr32 x 7) (rotr32 x 18)) (x / 2 ^ 3)

unfoldable pub sigma1 : ℕ → ℕ
sigma1 x = bit_xor (bit_xor (rotr32 x 17) (rotr32 x 19)) (x / 2 ^ 10)

-- The constants `K`.
abbrev pub k256 : List ℕ
k256 =
    0x428a2f98 ∷ 0x71374491 ∷ 0xb5c0fbcf ∷ 0xe9b5dba5 ∷ 0x3956c25b ∷ 0x59f111f1 ∷ 0x923f82a4
    ∷ 0xab1c5ed5 ∷ 0xd807aa98 ∷ 0x12835b01 ∷ 0x243185be ∷ 0x550c7dc3 ∷ 0x72be5d74 ∷ 0x80deb1fe
    ∷ 0x9bdc06a7 ∷ 0xc19bf174 ∷ 0xe49b69c1 ∷ 0xefbe4786 ∷ 0x0fc19dc6 ∷ 0x240ca1cc ∷ 0x2de92c6f
    ∷ 0x4a7484aa ∷ 0x5cb0a9dc ∷ 0x76f988da ∷ 0x983e5152 ∷ 0xa831c66d ∷ 0xb00327c8 ∷ 0xbf597fc7
    ∷ 0xc6e00bf3 ∷ 0xd5a79147 ∷ 0x06ca6351 ∷ 0x14292967 ∷ 0x27b70a85 ∷ 0x2e1b2138 ∷ 0x4d2c6dfc
    ∷ 0x53380d13 ∷ 0x650a7354 ∷ 0x766a0abb ∷ 0x81c2c92e ∷ 0x92722c85 ∷ 0xa2bfe8a1 ∷ 0xa81a664b
    ∷ 0xc24b8b70 ∷ 0xc76c51a3 ∷ 0xd192e819 ∷ 0xd6990624 ∷ 0xf40e3585 ∷ 0x106aa070 ∷ 0x19a4c116
    ∷ 0x1e376c08 ∷ 0x2748774c ∷ 0x34b0bcb5 ∷ 0x391c0cb3 ∷ 0x4ed8aa4a ∷ 0x5b9cca4f ∷ 0x682e6ff3
    ∷ 0x748f82ee ∷ 0x78a5636f ∷ 0x84c87814 ∷ 0x8cc70208 ∷ 0x90befffa ∷ 0xa4506ceb ∷ 0xbef9a3f7
    ∷ 0xc67178f2 ∷ []

-- `W[i] = load32_be(block + 4 * i)` for `n` words.
unfoldable pub load_words : ℕ → List ℕ → List ℕ
load_words zero block = []
load_words (suc n) block = load32_be block ∷ load_words n (drop 4 block)

-- The words from `W[i]` on, `n` of them.
unfoldable pub schedule : ℕ → ℕ → List ℕ → List ℕ
schedule zero i w = w
schedule (suc n) i w =
    let next = u32 (
      sigma1 (byte_at w (i - 2))
      + byte_at w (i - 7)
      + sigma0 (byte_at w (i - 15))
      + byte_at w (i - 16)) in
    schedule n (i + 1) (w ++ (next ∷ []))

-- The body of the loop over the rounds.
unfoldable pub round : Registers → ℕ → ℕ → Registers
round r k w =
    let t1 = u32 (r.h + big_sigma1 r.e + ch r.e r.f r.g + k + w) in
    let t2 = u32 (big_sigma0 r.a + maj r.a r.b r.c) in
    record {
      a = u32 (t1 + t2);
      b = r.a;
      c = r.b;
      d = r.c;
      e = u32 (r.d + t1);
      f = r.e;
      g = r.f;
      h = r.g;
    }

-- The rounds, whose constants and words are `ks` and `ws`.
unfoldable pub rounds : List ℕ → List ℕ → Registers → Registers
rounds [] ws r = r
rounds (k ∷ ks) [] r = r
rounds (k ∷ ks) (w ∷ ws) r = rounds ks ws (round r k w)

-- `sdc_sha256_transform`, on the state.
unfoldable pub compress : List ℕ → List ℕ → List ℕ
unfolding load_words schedule rounds round sigma0 sigma1 big_sigma0 big_sigma1 ch maj rotr32 not32
    load32_be load_state mix_state
compress state block =
    let w = schedule 48 16 (load_words 16 block) in
    mix_state (λ x y. u32 (x + y)) state (rounds k256 w (load_state state))

-- `sdc_sha256_update`.
unfoldable pub update : Ctx ℕ → List ℕ → Ctx ℕ
update c input = absorb 64 compress (count_bits c input) input

abbrev pub iv256 : List ℕ
iv256 =
    0x6a09e667 ∷ 0xbb67ae85 ∷ 0x3c6ef372 ∷ 0xa54ff53a ∷ 0x510e527f ∷ 0x9b05688c ∷ 0x1f83d9ab
    ∷ 0x5be0cd19 ∷ []

abbrev pub iv224 : List ℕ
iv224 =
    0xc1059ed8 ∷ 0x367cd507 ∷ 0x3070dd17 ∷ 0xf70e5939 ∷ 0xffc00b31 ∷ 0x68581511 ∷ 0x64f98fa7
    ∷ 0xbefa4fa4 ∷ []

-- `sdc_sha256_init`, which leaves the buffer as it is.
unfoldable pub init : Ctx ℕ → Ctx ℕ
init c = record c { state = iv256; count = 0; len = 0 }

-- `sdc_sha256_final`: the context, and the 32 bytes of `out`.
unfoldable pub final : Ctx ℕ → Ctx ℕ × List ℕ
final c =
    let c' = finish 64 compress (ltb 55 c.len) (store64_be c.count) c in
    (c', store_words store32_be c'.state)

-- `sdc_sha256_hash`. `c` is the local context, not initialised.
unfoldable pub hash : Ctx ℕ → List ℕ → List ℕ
hash c input = (final (update (init c) input)).1

-- `sdc_sha224_init`.
unfoldable pub init_224 : Ctx ℕ → Ctx ℕ
init_224 c = record c { state = iv224; count = 0; len = 0 }

-- `sdc_sha224_update`.
unfoldable pub update_224 : Ctx ℕ → List ℕ → Ctx ℕ
update_224 c input = update c input

-- `sdc_sha224_final`, which stores seven words.
unfoldable pub final_224 : Ctx ℕ → Ctx ℕ × List ℕ
final_224 c =
    let c' = finish 64 compress (ltb 55 c.len) (store64_be c.count) c in
    (c', store_words store32_be (take 7 c'.state))

-- `sdc_sha224_hash`.
unfoldable pub hash_224 : Ctx ℕ → List ℕ → List ℕ
hash_224 c input = (final_224 (update_224 (init_224 c) input)).1
