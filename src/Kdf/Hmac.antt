-- ===== src/Kdf/Hmac.antt =====
-- src/kdf/hmac.c. The first argument `local` of a function is the context of `sdc_sha256_hash`,
-- a local variable that is not initialised.
pub mod Rfc
use slim_data_crypt.Common.{
  ℕ, List, [], ◌∷◌, length, write_at, replicate, bit_xor, ltb, if◌then◌else◌,
}
use slim_data_crypt.Hash.{Ctx}
use slim_data_crypt.Hash.Sha256

-- `sdc_hmac_sha256_ctx` of include/sdcrypt/hmac.h.
pub record HmacCtx : Type 0 where
  pub inner : Ctx ℕ
  pub outer : Ctx ℕ
  pub ipad : List ℕ
  pub opad : List ℕ

-- A context of zeros, as `memset` leaves it.
abbrev pub zero_ctx : Ctx ℕ
zero_ctx = record { state = replicate 8 0; count = 0; buffer = replicate 64 0; len = 0 }

abbrev pub zero_hmac : HmacCtx
zero_hmac = record {
  inner = zero_ctx;
  outer = zero_ctx;
  ipad = replicate 64 0;
  opad = replicate 64 0;
}

-- The key in an array of 64 bytes, hashed if it is longer.
unfoldable pub key_block : Ctx ℕ → List ℕ → List ℕ
key_block local key =
    if ltb 64 (length key)
    then write_at 0 (Sha256.hash local key) (replicate 64 0)
    else write_at 0 key (replicate 64 0)

-- `pad[i] = k[i] ^ b;`
unfoldable pub mask_key : ℕ → List ℕ → List ℕ
mask_key b [] = []
mask_key b (k ∷ ks) = bit_xor k b ∷ mask_key b ks

-- `sdc_hmac_sha256_init`.
unfoldable pub init : Ctx ℕ → List ℕ → HmacCtx
init local key =
    let k = key_block local key in
    let ipad = mask_key 0x36 k in
    record zero_hmac {
      ipad = ipad;
      opad = mask_key 0x5c k;
      inner = Sha256.update (Sha256.init zero_ctx) ipad;
    }

-- `sdc_hmac_sha256_update`.
unfoldable pub update : HmacCtx → List ℕ → HmacCtx
update c input = record c { inner = Sha256.update c.inner input }

-- `sdc_hmac_sha256_final`: the cleared context, and the 32 bytes of `out`.
unfoldable pub final : HmacCtx → HmacCtx × List ℕ
final c =
    let inner_hash = (Sha256.final c.inner).1 in
    let outer = Sha256.update (Sha256.update (Sha256.init c.outer) c.opad) inner_hash in
    (zero_hmac, (Sha256.final outer).1)

-- `sdc_hmac_sha256`.
unfoldable pub hmac : Ctx ℕ → List ℕ → List ℕ → List ℕ
hmac local key input = (final (update (init local key) input)).1
