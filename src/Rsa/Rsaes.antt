-- ===== src/Rsa/Rsaes.antt =====
-- Encryption and decryption of src/rsa/pkcs1v15.c. `allocated` tells whether `sdc_malloc` returns an
-- array. The state of encryption is the generator and `*out_len`; what a call that fails leaves in
-- the array of the result is not kept.
use slim_data_crypt.Common.{
  ℕ, ◌*◌, ◌-◌, List, [], length, Option, none, some, Bool, sub64, ltb, ◌==◌, not, if◌then◌else◌,
  Call, Outcome, next, done, fail, fault,
}
use slim_data_crypt.Common.{invalid_param, buffer_too_small, mem_allocate_fail, key_invalid}
use slim_data_crypt.Integer.Bytes.{frombytes_be, tobytes_be}
use slim_data_crypt.Rsa.Padding.{pad, unpad_decryption}
use slim_data_crypt.Rsa.Inner.{PublicKey, PrivateKey, rsa_public, rsa_private}
pub mod RoundTrip
mod Tests

-- A call that takes bytes from the generator, beside the rest of the state.
abbrev pub beside {ℓ κ} :
    {S : Type ℓ} {A : Type κ} → Outcome (List ℕ) A → S → Outcome (List ℕ × S) A
beside (done a rng) s = done a (rng, s)
beside (fail e rng) s = fail e (rng, s)
beside fault s = fault

-- `sdc_rsaes_pkcs1v15_encrypt`: the bytes at `out`.
unfoldable pub encrypt : Bool → PublicKey → List ℕ → Call (List ℕ × ℕ) (List ℕ)
encrypt allocated pub_key msg (rng, out_len) =
    let mod_bytes = length pub_key.n * 8 in
    if ltb (sub64 mod_bytes 11) (length msg)
    then fail invalid_param (rng, out_len)
    else if ltb out_len mod_bytes
    then fail buffer_too_small (rng, mod_bytes)
    else next (beside (pad mod_bytes msg 2 rng) out_len) λ em (rng1, len1).
      if not allocated
      then fail mem_allocate_fail (rng1, len1)
      else next (beside (rsa_public pub_key (frombytes_be (length pub_key.n) em) rng1) len1)
          λ c (rng2, len2). done (tobytes_be c) (rng2, mod_bytes)

-- What decryption makes of the outcome of unpadding: `*out_len` is written on success only.
unfoldable pub unpadded :
    Outcome (Option (List ℕ) × ℕ) (Unit {0}) → Call (List ℕ × (List ℕ × ℕ)) (Unit {0})
unpadded (done u (some out', len)) (rng, (out, out_len)) = done u (rng, (out', len))
unpadded (done u (none, len)) (rng, (out, out_len)) = done u (rng, (out, len))
unpadded (fail e s) (rng, (out, out_len)) = fail key_invalid (rng, (out, out_len))
unpadded fault s = fault

-- `sdc_rsaes_pkcs1v15_decrypt`. The state is the generator, the array `out` and `*out_len`.
unfoldable pub decrypt : Bool → PrivateKey → List ℕ → Call (List ℕ × (List ℕ × ℕ)) (Unit {0})
decrypt allocated key cipher (rng, (out, out_len)) =
    let mod_bytes = length key.n * 8 in
    if not (length cipher == mod_bytes)
    then fail invalid_param (rng, (out, out_len))
    else if not allocated
    then fail mem_allocate_fail (rng, (out, out_len))
    else next
        (beside {S = List ℕ × ℕ} (rsa_private key (frombytes_be (length key.n) cipher) rng)
          (out, out_len))
        λ em s. unpadded (unpad_decryption (tobytes_be em) (some s.1.0, s.1.1)) s
