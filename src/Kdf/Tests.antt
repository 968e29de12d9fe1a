-- ===== src/Kdf/Tests.antt =====
-- Known values, and the theorems on src/kdf at concrete inputs.
use slim_data_crypt.Common.{
  ℕ, ◌+◌, ◌/◌, ◌≡◌, refl, List, [], ◌∷◌, ◌++◌, replicate, take, drop, arith,
}
use slim_data_crypt.Common.Words.{store32_be, store64_be}
use slim_data_crypt.Modes.{xor_bytes}
use slim_data_crypt.Hash.{
  Ctx, absorb, take_blocks, whole_blocks, keep_rest, fill, wanted, transform, finish, flush,
  place_length, count_bits,
}
use slim_data_crypt.Hash.Registers.{store_words}
use slim_data_crypt.Hash.Streams.{joined}
use slim_data_crypt.Hash.Sha256
use slim_data_crypt.Kdf.Hmac.{key_block, mask_key, hmac, init, update, final}
use slim_data_crypt.Kdf.Hmac.Rfc.{feed, feed-hmac_sha256, hmac_sha256}
use slim_data_crypt.Kdf.Pbkdf2.{iterate, derive_block, derive_loop, pbkdf2}
use slim_data_crypt.Kdf.Pbkdf2.Rfc.{pbkdf2_lem, blocks_of}

abbrev local : Ctx ℕ
local = record { state = []; count = 5; buffer = replicate 64 7; len = 9 }

-- "Jefe" and "what do ya want for nothing?", of RFC 4231.
abbrev jefe : List ℕ
jefe = 0x4a ∷ 0x65 ∷ 0x66 ∷ 0x65 ∷ []

abbrev question : List ℕ
question =
    0x77 ∷ 0x68 ∷ 0x61 ∷ 0x74 ∷ 0x20 ∷ 0x64 ∷ 0x6f ∷ 0x20 ∷ 0x79 ∷ 0x61 ∷ 0x20 ∷ 0x77 ∷ 0x61 ∷ 0x6e
    ∷ 0x74 ∷ 0x20 ∷ 0x66 ∷ 0x6f ∷ 0x72 ∷ 0x20 ∷ 0x6e ∷ 0x6f ∷ 0x74 ∷ 0x68 ∷ 0x69 ∷ 0x6e ∷ 0x67
    ∷ 0x3f ∷ []

jefe_known : take 4 (hmac local jefe question) ≡ 0x5b ∷ 0xdc ∷ 0xc1 ∷ 0x46 ∷ []
unfolding hmac init update final key_block mask_key absorb take_blocks whole_blocks keep_rest fill
    wanted transform finish flush place_length store_words count_bits store32_be store64_be
    Sha256.hash Sha256.init Sha256.update Sha256.final Sha256.compress
jefe_known = refl

-- "passwd", "salt" and one iteration, of RFC 7914.
abbrev password : List ℕ
password = 0x70 ∷ 0x61 ∷ 0x73 ∷ 0x73 ∷ 0x77 ∷ 0x64 ∷ []

abbrev salt : List ℕ
salt = 0x73 ∷ 0x61 ∷ 0x6c ∷ 0x74 ∷ []

pbkdf2_passwd :
    take 4 (pbkdf2 local (replicate 40 0) 40 password salt 1) ≡ 0x55 ∷ 0xac ∷ 0x04 ∷ 0x6e ∷ []
unfolding pbkdf2 derive_loop derive_block iterate xor_bytes hmac init update final key_block
    mask_key absorb take_blocks whole_blocks keep_rest fill wanted transform finish flush
    place_length store_words count_bits store32_be store64_be Sha256.hash Sha256.init Sha256.update
    Sha256.final Sha256.compress
pbkdf2_passwd = refl

feed-hmac_sha256_example :
    (final (feed (init local (replicate 70 3)) (jefe ∷ question ∷ []))).1
    ≡ hmac_sha256 (replicate 70 3) (joined (jefe ∷ question ∷ []))
feed-hmac_sha256_example = feed-hmac_sha256 local (replicate 70 3) (jefe ∷ question ∷ []) refl

pbkdf2_lem_example :
    pbkdf2 local (replicate 50 1) 40 password salt 2
    ≡ take 40 (blocks_of password salt 2 ((40 + 31) / 32) 1) ++ drop 40 (replicate 50 1)
pbkdf2_lem_example =
    pbkdf2_lem local refl password (replicate 50 1) salt 40 2 (omega arith) (omega arith)
      (omega arith)
