-- ===== src/Hash/Tests.antt =====
-- Known digests, and the theorems on the hashes at concrete inputs.
use slim_data_crypt.Common.{
  ℕ, ◌*◌, ◌^◌, ◌<◌, All, IsByte, length, ◌≡◌, refl, List, [], ◌∷◌, replicate, take, arith,
}
use slim_data_crypt.Common.Words.{store32_be, store64_be}
use slim_data_crypt.Hash.{
  Ctx, absorb, take_blocks, whole_blocks, keep_rest, fill, wanted, transform, finish, flush,
  place_length, count_bits,
}
use slim_data_crypt.Hash.Registers.{store_words}
use slim_data_crypt.Hash.Streams.{feed, joined}
use slim_data_crypt.Hash.Sha256
use slim_data_crypt.Hash.Sha256.Standard.{feed-fips_sha256}
use slim_data_crypt.Hash.Sha256.Fips.{
  fips_sha256, preprocessed, octets, octets_of, hash_blocks, hash_block, words_of, extend, steps,
  step, variables_of, added, round_constants, initial_hash, cube_fractions, square_fractions, root,
  choose, majority, upper_sigma0, upper_sigma1, lower_sigma0, lower_sigma1, rotate_right,
}
use slim_data_crypt.Hash.Sha512
use slim_data_crypt.Hash.Sha512.Streams.{sha512, sha384}
use slim_data_crypt.Hash.Sm3
use slim_data_crypt.Hash.Sm3.Streams.{sm3}

abbrev blank : Ctx ℕ
blank = record { state = []; count = 0; buffer = replicate 64 7; len = 0 }

abbrev blank_512 : Ctx (ℕ × ℕ)
blank_512 = record { state = []; count = (0, 0); buffer = replicate 128 7; len = 0 }

-- "abc", whose digests the standards give.
abbrev abc : List ℕ
abc = 0x61 ∷ 0x62 ∷ 0x63 ∷ []

sha256_abc : take 4 (Sha256.hash blank abc) ≡ 0xba ∷ 0x78 ∷ 0x16 ∷ 0xbf ∷ []
unfolding Sha256.hash Sha256.init Sha256.update Sha256.final Sha256.compress absorb take_blocks
    whole_blocks keep_rest fill wanted transform finish flush place_length store_words count_bits
    store32_be store64_be
sha256_abc = refl

sha224_abc : take 4 (Sha256.hash_224 blank abc) ≡ 0x23 ∷ 0x09 ∷ 0x7d ∷ 0x22 ∷ []
unfolding Sha256.hash_224 Sha256.init_224 Sha256.update_224 Sha256.final_224 Sha256.update
    Sha256.compress absorb take_blocks whole_blocks keep_rest fill wanted transform finish flush
    place_length store_words count_bits store32_be store64_be
sha224_abc = refl

sha512_abc : take 4 (Sha512.hash blank_512 abc) ≡ 0xdd ∷ 0xaf ∷ 0x35 ∷ 0xa1 ∷ []
unfolding Sha512.hash Sha512.init Sha512.update Sha512.final Sha512.compress absorb take_blocks
    whole_blocks keep_rest fill wanted transform finish flush place_length store_words
    Sha512.count_bits Sha512.length_field store64_be
sha512_abc = refl

sha384_abc : take 4 (Sha512.hash_384 blank_512 abc) ≡ 0xcb ∷ 0x00 ∷ 0x75 ∷ 0x3f ∷ []
unfolding Sha512.hash_384 Sha512.init_384 Sha512.update_384 Sha512.final_384 Sha512.update
    Sha512.compress absorb take_blocks whole_blocks keep_rest fill wanted transform finish flush
    place_length store_words Sha512.count_bits Sha512.length_field store64_be
sha384_abc = refl

sm3_abc : take 4 (Sm3.hash blank abc) ≡ 0x66 ∷ 0xc7 ∷ 0xf0 ∷ 0xf4 ∷ []
unfolding Sm3.hash Sm3.init Sm3.update Sm3.final Sm3.compress absorb take_blocks whole_blocks
    keep_rest fill wanted transform finish flush place_length store_words count_bits store32_be
    store64_be
sm3_abc = refl

-- A piece that ends a block exactly, and one that leaves no room for the length.
abbrev pieces : List (List ℕ)
pieces = (abc ∷ replicate 61 1 ∷ [] ∷ replicate 60 2 ∷ [])

pieces-IsByte : All IsByte (joined pieces)
unfolding joined
pieces-IsByte = omega arith

pieces_short : length (joined pieces) * 8 < 2 ^ 64
unfolding joined
pieces_short = omega arith

feed-fips_sha256_example :
    (Sha256.final (feed Sha256.update (Sha256.init blank) pieces)).1 ≡ fips_sha256 (joined pieces)
feed-fips_sha256_example = feed-fips_sha256 blank pieces refl pieces-IsByte pieces_short

-- "abc" by the definition of the standard.
fips_abc : take 4 (fips_sha256 abc) ≡ 0xba ∷ 0x78 ∷ 0x16 ∷ 0xbf ∷ []
unfolding fips_sha256 preprocessed octets octets_of hash_blocks hash_block words_of extend steps
    step variables_of added round_constants initial_hash cube_fractions square_fractions root choose
    majority upper_sigma0 upper_sigma1 lower_sigma0 lower_sigma1 rotate_right
fips_abc = refl

feed-sha512_example :
    (Sha512.final (feed Sha512.update (Sha512.init blank_512) pieces)).1 ≡ sha512 (joined pieces)
feed-sha512_example = Sha512.Streams.feed-sha512 blank_512 pieces refl (omega arith)

feed-sm3_example : (Sm3.final (feed Sm3.update (Sm3.init blank) pieces)).1 ≡ sm3 (joined pieces)
feed-sm3_example = Sm3.Streams.feed-sm3 blank pieces refl
