-- ===== src/Hash/Sha512.antt =====
-- src/sha/sha512.c: the compression of SHA-512, and the functions of SHA-512 and SHA-384.
pub mod Streams
use slim_data_crypt.Common.{
  ℕ, zero, suc, ◌+◌, ◌-◌, ◌*◌, ◌/◌, ◌%◌, ◌^◌, List, [], ◌∷◌, ◌++◌, drop, take, bit_and, bit_or,
  bit_xor, u64, ltb, length, if◌then◌else◌,
}
use slim_data_crypt.Common.Words.{byte_at, load64_be, store64_be}
use slim_data_crypt.Hash.{Ctx, absorb, finish}
use slim_data_crypt.Hash.Registers.{Registers, load_state, mix_state, store_words}

unfoldable pub rotr64 : ℕ → ℕ → ℕ
rotr64 x n = bit_or (x / 2 ^ n) (u64 (x * 2 ^ (64 - n)))

-- `~x`
unfoldable pub not64 : ℕ → ℕ
not64 x = 2 ^ 64 - 1 - x

unfoldable pub ch : ℕ → ℕ → ℕ → ℕ
ch x y z = bit_xor (bit_and x y) (bit_and (not64 x) z)

unfoldable pub maj : ℕ → ℕ → ℕ → ℕ
maj x y z = bit_xor (bit_xor (bit_and x y) (bit_and x z)) (bit_and y z)

unfoldable pub big_sigma0 : ℕ → ℕ
big_sigma0 x = bit_xor (bit_xor (rotr64 x 28) (rotr64 x 34)) (rotr64 x 39)

unfoldable pub big_sigma1 : ℕ → ℕ
big_sigma1 x = bit_xor (bit_xor (rotr64 x 14) (rotr64 x 18)) (rotr64 x 41)

unfoldable pub sigma0 : ℕ → ℕ
sigma0 x = bit_xor (bit_xor (rotr64 x 1) (rotr64 x 8)) (x / 2 ^ 7)

unfoldable pub sigma1 : ℕ → ℕ
sigma1 x = bit_xor (bit_xor (rotr64 x 19) (rotr64 x 61)) (x / 2 ^ 6)

-- The constants `K`.
abbrev pub k512 : List ℕ
k512 =
    0x428a2f98d728ae22 ∷ 0x7137449123ef65cd ∷ 0xb5c0fbcfec4d3b2f ∷ 0xe9b5dba58189dbbc
    ∷ 0x3956c25bf348b538 ∷ 0x59f111f1b605d019 ∷ 0x923f82a4af194f9b ∷ 0xab1c5ed5da6d8118
    ∷ 0xd807aa98a3030242 ∷ 0x12835b0145706fbe ∷ 0x243185be4ee4b28c ∷ 0x550c7dc3d5ffb4e2
    ∷ 0x72be5d74f27b896f ∷ 0x80deb1fe3b1696b1 ∷ 0x9bdc06a725c71235 ∷ 0xc19bf174cf692694
    ∷ 0xe49b69c19ef14ad2 ∷ 0xefbe4786384f25e3 ∷ 0x0fc19dc68b8cd5b5 ∷ 0x240ca1cc77ac9c65
    ∷ 0x2de92c6f592b0275 ∷ 0x4a7484aa6ea6e483 ∷ 0x5cb0a9dcbd41fbd4 ∷ 0x76f988da831153b5
    ∷ 0x983e5152ee66dfab ∷ 0xa831c66d2db43210 ∷ 0xb00327c898fb213f ∷ 0xbf597fc7beef0ee4
    ∷ 0xc6e00bf33da88fc2 ∷ 0xd5a79147930aa725 ∷ 0x06ca6351e003826f ∷ 0x142929670a0e6e70
    ∷ 0x27b70a8546d22ffc ∷ 0x2e1b21385c26c926 ∷ 0x4d2c6dfc5ac42aed ∷ 0x53380d139d95b3df
    ∷ 0x650a73548baf63de ∷ 0x766a0abb3c77b2a8 ∷ 0x81c2c92e47edaee6 ∷ 0x92722c851482353b
    ∷ 0xa2bfe8a14cf10364 ∷ 0xa81a664bbc423001 ∷ 0xc24b8b70d0f89791 ∷ 0xc76c51a30654be30
    ∷ 0xd192e819d6ef5218 ∷ 0xd69906245565a910 ∷ 0xf40e35855771202a ∷ 0x106aa07032bbd1b8
    ∷ 0x19a4c116b8d2d0c8 ∷ 0x1e376c085141ab53 ∷ 0x2748774cdf8eeb99 ∷ 0x34b0bcb5e19b48a8
    ∷ 0x391c0cb3c5c95a63 ∷ 0x4ed8aa4ae3418acb ∷ 0x5b9cca4f7763e373 ∷ 0x682e6ff3d6b2b8a3
    ∷ 0x748f82ee5defb2fc ∷ 0x78a5636f43172f60 ∷ 0x84c87814a1f0ab72 ∷ 0x8cc702081a6439ec
    ∷ 0x90befffa23631e28 ∷ 0xa4506cebde82bde9 ∷ 0xbef9a3f7b2c67915 ∷ 0xc67178f2e372532b
    ∷ 0xca273eceea26619c ∷ 0xd186b8c721c0c207 ∷ 0xeada7dd6cde0eb1e ∷ 0xf57d4f7fee6ed178
    ∷ 0x06f067aa72176fba ∷ 0x0a637dc5a2c898a6 ∷ 0x113f9804bef90dae ∷ 0x1b710b35131c471b
    ∷ 0x28db77f523047d84 ∷ 0x32caab7b40c72493 ∷ 0x3c9ebe0a15c9bebc ∷ 0x431d67c49c100d4c
    ∷ 0x4cc5d4becb3e42b6 ∷ 0x597f299cfc657e2a ∷ 0x5fcb6fab3ad6faec ∷ 0x6c44198c4a475817 ∷ []

-- `W[i] = load64_be(block + 8 * i)` for `n` words.
unfoldable pub load_words : ℕ → List ℕ → List ℕ
load_words zero block = []
load_words (suc n) block = load64_be block ∷ load_words n (drop 8 block)

-- The words from `W[i]` on, `n` of them.
unfoldable pub schedule : ℕ → ℕ → List ℕ → List ℕ
schedule zero i w = w
schedule (suc n) i w =
    let next = u64 (
      sigma1 (byte_at w (i - 2))
      + byte_at w (i - 7)
      + sigma0 (byte_at w (i - 15))
      + byte_at w (i - 16)) in
    schedule n (i + 1) (w ++ (next ∷ []))

-- The body of the loop over the rounds.
unfoldable pub round : Registers → ℕ → ℕ → Registers
round r k w =
    let t1 = u64 (r.h + big_sigma1 r.e + ch r.e r.f r.g + k + w) in
    let t2 = u64 (big_sigma0 r.a + maj r.a r.b r.c) in
    record {
      a = u64 (t1 + t2);
      b = r.a;
      c = r.b;
      d = r.c;
      e = u64 (r.d + t1);
      f = r.e;
      g = r.f;
      h = r.g;
    }

-- The rounds, whose constants and words are `ks` and `ws`.
unfoldable pub rounds : List ℕ → List ℕ → Registers → Registers
rounds [] ws r = r
rounds (k ∷ ks) [] r = r
rounds (k ∷ ks) (w ∷ ws) r = rounds ks ws (round r k w)

-- `sdc_sha512_transform`, on the state.
unfoldable pub compress : List ℕ → List ℕ → List ℕ
unfolding load_words schedule rounds round sigma0 sigma1 big_sigma0 big_sigma1 ch maj rotr64 not64
    load64_be load_state mix_state
compress state block =
    let w = schedule 64 16 (load_words 16 block) in
    mix_state (λ x y. u64 (x + y)) state (rounds k512 w (load_state state))

-- The counter of 128 bits, its low word first: `ctx->count[0] += bits;` and the carry.
unfoldable pub count_bits : Ctx (ℕ × ℕ) → List ℕ → Ctx (ℕ × ℕ)
count_bits c input =
    let bits = u64 (length input * 8) in
    let low = u64 (c.count.0 + bits) in
    record c { count = (low, if ltb low bits then u64 (c.count.1 + 1) else c.count.1) }

-- `sdc_sha512_update`.
unfoldable pub update : Ctx (ℕ × ℕ) → List ℕ → Ctx (ℕ × ℕ)
update c input = absorb 128 compress (count_bits c input) input

abbrev pub iv512 : List ℕ
iv512 =
    0x6a09e667f3bcc908 ∷ 0xbb67ae8584caa73b ∷ 0x3c6ef372fe94f82b ∷ 0xa54ff53a5f1d36f1
    ∷ 0x510e527fade682d1 ∷ 0x9b05688c2b3e6c1f ∷ 0x1f83d9abfb41bd6b ∷ 0x5be0cd19137e2179 ∷ []

abbrev pub iv384 : List ℕ
iv384 =
    0xcbbb9d5dc1059ed8 ∷ 0x629a292a367cd507 ∷ 0x9159015a3070dd17 ∷ 0x152fecd8f70e5939
    ∷ 0x67332667ffc00b31 ∷ 0x8eb44a8768581511 ∷ 0xdb0c2e0d64f98fa7 ∷ 0x47b5481dbefa4fa4 ∷ []

-- `sdc_sha512_init`, which leaves the buffer as it is.
unfoldable pub init : Ctx (ℕ × ℕ) → Ctx (ℕ × ℕ)
init c = record c { state = iv512; count = (0, 0); len = 0 }

-- The length field: the high word of the counter, then the low one.
unfoldable pub length_field : ℕ × ℕ → List ℕ
length_field count = store64_be count.1 ++ store64_be count.0

-- `sdc_sha512_final`: the context, and the 64 bytes of `out`.
unfoldable pub final : Ctx (ℕ × ℕ) → Ctx (ℕ × ℕ) × List ℕ
final c =
    let c' = finish 128 compress (ltb 111 c.len) (length_field c.count) c in
    (c', store_words store64_be c'.state)

-- `sdc_sha512_hash`. `c` is the local context, not initialised.
unfoldable pub hash : Ctx (ℕ × ℕ) → List ℕ → List ℕ
hash c input = (final (update (init c) input)).1

-- `sdc_sha384_init`.
unfoldable pub init_384 : Ctx (ℕ × ℕ) → Ctx (ℕ × ℕ)
init_384 c = record c { state = iv384; count = (0, 0); len = 0 }

-- `sdc_sha384_update`.
unfoldable pub update_384 : Ctx (ℕ × ℕ) → List ℕ → Ctx (ℕ × ℕ)
update_384 c input = update c input

-- `sdc_sha384_final`, which stores six words.
unfoldable pub final_384 : Ctx (ℕ × ℕ) → Ctx (ℕ × ℕ) × List ℕ
final_384 c =
    let c' = finish 128 compress (ltb 111 c.len) (length_field c.count) c in
    (c', store_words store64_be (take 6 c'.state))

-- `sdc_sha384_hash`.
unfoldable pub hash_384 : Ctx (ℕ × ℕ) → List ℕ → List ℕ
hash_384 c input = (final_384 (update_384 (init_384 c) input)).1
