-- ===== src/Kdf/Pbkdf2.antt =====
-- src/kdf/pbkdf2.c. `local` is the context of `sdc_sha256_hash`, as in Kdf/Hmac.
pub mod Rfc
use slim_data_crypt.Common.{
  ℕ, zero, suc, ◌+◌, ◌-◌, List, [], ◌∷◌, take, length, write_at, ltb, ◌==◌, ◌||◌, if◌then◌else◌,
  u32,
}
use slim_data_crypt.Common.Words.{store32_be}
use slim_data_crypt.Modes.{xor_bytes}
use slim_data_crypt.Hash.{Ctx}
use slim_data_crypt.Kdf.Hmac

-- The loop over `i`, `n` rounds: `u` and `t`, of which `t` is the result.
unfoldable pub iterate : Ctx ℕ → List ℕ → ℕ → List ℕ → List ℕ → List ℕ
iterate local password zero u t = t
iterate local password (suc n) u t =
    let u' = Hmac.hmac local password u in iterate local password n u' (xor_bytes t u')

-- The block with the number `block`.
unfoldable pub derive_block : Ctx ℕ → List ℕ → List ℕ → ℕ → ℕ → List ℕ
derive_block local password salt iterations block =
    let c = Hmac.update (Hmac.init local password) salt in
    let u = (Hmac.final (Hmac.update c (store32_be block))).1 in
    iterate local password (iterations - 1) u u

-- `while (pos < outlen)`. Each round writes a byte at least, so that `outlen` is enough fuel.
unfoldable pub derive_loop : Ctx ℕ → List ℕ → List ℕ → ℕ → ℕ → ℕ → ℕ → ℕ → List ℕ → List ℕ
derive_loop local password salt iterations outlen zero block pos out = out
derive_loop local password salt iterations outlen (suc fuel) block pos out =
    let t = derive_block local password salt iterations block in
    let copy = if ltb 32 (outlen - pos) then 32 else outlen - pos in
    let rest =
      derive_loop local password salt iterations outlen fuel (u32 (block + 1)) (pos + copy)
        (write_at pos (take copy t) out) in
    if ltb pos outlen then rest else out

-- `sdc_kdf_pbkdf2_sha256`: what it makes of the bytes at `out`.
unfoldable pub pbkdf2 : Ctx ℕ → List ℕ → ℕ → List ℕ → List ℕ → ℕ → List ℕ
pbkdf2 local out outlen password salt iterations =
    if outlen == 0 || iterations == 0
    then out
    else derive_loop local password salt iterations outlen outlen 1 0 out
