-- ===== src/Hash/Sm3.antt =====
-- src/sm3/sm3.c: the compression and the functions of SM3.
pub mod Streams
use slim_data_crypt.Common.{
  ℕ, zero, suc, ◌+◌, ◌-◌, ◌*◌, ◌/◌, ◌%◌, ◌^◌, List, [], ◌∷◌, ◌++◌, bit_and, bit_or, bit_xor, u32,
  ltb, if◌then◌else◌,
}
use slim_data_crypt.Common.Words.{byte_at, load32_be, store32_be, store64_be}
use slim_data_crypt.Hash.{Ctx, absorb, finish, count_bits}
use slim_data_crypt.Hash.Registers.{Registers, load_state, mix_state, store_words}
use slim_data_crypt.Hash.Sha256.{not32, load_words}

unfoldable pub rotl32 : ℕ → ℕ → ℕ
rotl32 x n = bit_or (u32 (x * 2 ^ n)) (x / 2 ^ (32 - n))

unfoldable pub ff0 : ℕ → ℕ → ℕ → ℕ
ff0 x y z = bit_xor (bit_xor x y) z

unfoldable pub ff1 : ℕ → ℕ → ℕ → ℕ
ff1 x y z = bit_or (bit_or (bit_and x y) (bit_and x z)) (bit_and y z)

unfoldable pub gg0 : ℕ → ℕ → ℕ → ℕ
gg0 x y z = bit_xor (bit_xor x y) z

unfoldable pub gg1 : ℕ → ℕ → ℕ → ℕ
gg1 x y z = bit_or (bit_and x y) (bit_and (not32 x) z)

unfoldable pub p0 : ℕ → ℕ
p0 x = bit_xor (bit_xor x (rotl32 x 9)) (rotl32 x 17)

unfoldable pub p1 : ℕ → ℕ
p1 x = bit_xor (bit_xor x (rotl32 x 15)) (rotl32 x 23)

-- The constants `T`.
abbrev pub round_constants : List ℕ
round_constants =
    0x79cc4519 ∷ 0xf3988a32 ∷ 0xe7311465 ∷ 0xce6228cb ∷ 0x9cc45197 ∷ 0x3988a32f ∷ 0x7311465e
    ∷ 0xe6228cbc ∷ 0xcc451979 ∷ 0x988a32f3 ∷ 0x311465e7 ∷ 0x6228cbce ∷ 0xc451979c ∷ 0x88a32f39
    ∷ 0x11465e73 ∷ 0x228cbce6 ∷ 0x9d8a7a87 ∷ 0x3b14f50f ∷ 0x7629ea1e ∷ 0xec53d43c ∷ 0xd8a7a879
    ∷ 0xb14f50f3 ∷ 0x629ea1e7 ∷ 0xc53d43ce ∷ 0x8a7a879d ∷ 0x14f50f3b ∷ 0x29ea1e76 ∷ 0x53d43cec
    ∷ 0xa7a879d8 ∷ 0x4f50f3b1 ∷ 0x9ea1e762 ∷ 0x3d43cec5 ∷ 0x7a879d8a ∷ 0xf50f3b14 ∷ 0xea1e7629
    ∷ 0xd43cec53 ∷ 0xa879d8a7 ∷ 0x50f3b14f ∷ 0xa1e7629e ∷ 0x43cec53d ∷ 0x879d8a7a ∷ 0x0f3b14f5
    ∷ 0x1e7629ea ∷ 0x3cec53d4 ∷ 0x79d8a7a8 ∷ 0xf3b14f50 ∷ 0xe7629ea1 ∷ 0xcec53d43 ∷ 0x9d8a7a87
    ∷ 0x3b14f50f ∷ 0x7629ea1e ∷ 0xec53d43c ∷ 0xd8a7a879 ∷ 0xb14f50f3 ∷ 0x629ea1e7 ∷ 0xc53d43ce
    ∷ 0x8a7a879d ∷ 0x14f50f3b ∷ 0x29ea1e76 ∷ 0x53d43cec ∷ 0xa7a879d8 ∷ 0x4f50f3b1 ∷ 0x9ea1e762
    ∷ 0x3d43cec5 ∷ []

-- The words from `W[i]` on, `n` of them.
unfoldable pub expand : ℕ → ℕ → List ℕ → List ℕ
expand zero i w = w
expand (suc n) i w =
    let mixed =
      bit_xor (bit_xor (byte_at w (i - 16)) (byte_at w (i - 9))) (rotl32 (byte_at w (i - 3)) 15) in
    let next = bit_xor (bit_xor (p1 mixed) (rotl32 (byte_at w (i - 13)) 7)) (byte_at w (i - 6)) in
    expand n (i + 1) (w ++ (next ∷ []))

-- The body of the loop over the rounds, with `T[i]`, `W[i]` and `W1[i]`.
unfoldable pub round : ℕ → ℕ → ℕ → ℕ → Registers → Registers
round i t w w1 r =
    let ss1 = rotl32 (u32 (rotl32 r.a 12 + r.e + t)) 7 in
    let ss2 = bit_xor ss1 (rotl32 r.a 12) in
    let f = if ltb i 16 then ff0 r.a r.b r.c else ff1 r.a r.b r.c in
    let g = if ltb i 16 then gg0 r.e r.f r.g else gg1 r.e r.f r.g in
    let tt1 = u32 (f + r.d + ss2 + w1) in
    let tt2 = u32 (g + r.h + ss1 + w) in
    record {
      a = tt1;
      b = r.a;
      c = rotl32 r.b 9;
      d = r.c;
      e = p0 tt2;
      f = r.e;
      g = rotl32 r.f 19;
      h = r.g;
    }

-- The rounds from `i` on, whose constants are `ts`; `W1[i]` is `W[i] ^ W[i+4]`.
unfoldable pub rounds : List ℕ → ℕ → List ℕ → Registers → Registers
rounds [] i w r = r
rounds (t ∷ ts) i w r =
    rounds ts (i + 1) w (round i t (byte_at w i) (bit_xor (byte_at w i) (byte_at w (i + 4))) r)

-- `sm3_transform`, on the state.
unfoldable pub compress : List ℕ → List ℕ → List ℕ
unfolding load_words expand rounds round ff0 ff1 gg0 gg1 p0 p1 rotl32 not32 load32_be load_state
    mix_state
compress state block =
    let w = expand 52 16 (load_words 16 block) in
    mix_state bit_xor state (rounds round_constants 0 w (load_state state))

abbrev pub iv : List ℕ
iv =
    0x7380166f ∷ 0x4914b2b9 ∷ 0x172442d7 ∷ 0xda8a0600 ∷ 0xa96f30bc ∷ 0x163138aa ∷ 0xe38dee4d
    ∷ 0xb0fb0e4e ∷ []

-- `sdc_sm3_init`, which leaves the buffer as it is.
unfoldable pub init : Ctx ℕ → Ctx ℕ
init c = record c { state = iv; count = 0; len = 0 }

-- `sdc_sm3_update`.
unfoldable pub update : Ctx ℕ → List ℕ → Ctx ℕ
update c input = absorb 64 compress (count_bits c input) input

-- `sdc_sm3_final`: the context, and the 32 bytes of `out`. The test is on the position behind the
-- mark.
unfoldable pub final : Ctx ℕ → Ctx ℕ × List ℕ
final c =
    let c' = finish 64 compress (ltb 56 (c.len + 1)) (store64_be c.count) c in
    (c', store_words store32_be c'.state)

-- `sdc_sm3_hash`. `c` is the local context, not initialised.
unfoldable pub hash : Ctx ℕ → List ℕ → List ℕ
hash c input = (final (update (init c) input)).1
