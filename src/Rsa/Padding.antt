-- ===== src/Rsa/Padding.antt =====
-- The padding of src/rsa/pkcs1v15.c: `pad_pkcs1v15`, and `unpad_pkcs1v15`, which takes the same
-- steps whatever the secret bytes are.
pub mod Bytes
pub mod Scan
pub mod Encryption
pub mod RoundTrip
pub mod Signature
use slim_data_crypt.Common.{
  ℕ, zero, suc, ◌+◌, ◌-◌, ◌*◌, ◌/◌, ◌%◌, ◌^◌, List, [], ◌∷◌, ◌++◌, Option, none, some, Bool, length,
  take, drop, write_at, replicate, bit_and, bit_or, bit_xor, u8, u64, sub64, ltb, leb, ◌==◌, ◌||◌,
  if◌then◌else◌, not, Call, Outcome, ◌>>=◌, ◌>>◌, return, throw, require, next, done, fail,
}
use slim_data_crypt.Common.{invalid_param, key_invalid, random_fail}
use slim_data_crypt.Common.Words.{byte_at}

-- `NEQ`: 1 for different bytes, else 0.
unfoldable pub neq : ℕ → ℕ → ℕ
neq a b = let diff = bit_xor a b in bit_or diff (u8 (256 - diff)) / 2 ^ 7

-- `EQ`.
unfoldable pub eq : ℕ → ℕ → ℕ
eq a b = bit_xor (neq a b) 1

-- The generator of random bytes: those that it hands out before it fails. One `sdc_rng_generate`
-- of a byte, called again while it gives 0.
unfoldable pub nonzero_byte : List ℕ → Option (ℕ × List ℕ)
nonzero_byte [] = none
nonzero_byte (b ∷ rng) = if b == 0 then nonzero_byte rng else some (b, rng)

-- A byte of the padding, and what follows it.
unfoldable pub after_byte : Option (ℕ × List ℕ) → Call (List ℕ) (List ℕ) → Outcome (List ℕ) (List ℕ)
after_byte none rest = fail random_fail []
after_byte (some (b, rng)) rest = next (rest rng) (λ bs rng'. done (b ∷ bs) rng')

-- The loop that fills `n` bytes of the padding.
unfoldable pub random_padding : ℕ → Call (List ℕ) (List ℕ)
random_padding zero rng = done [] rng
random_padding (suc n) rng = after_byte (nonzero_byte rng) (random_padding n)

-- The padding string.
unfoldable pub padding_string : ℕ → ℕ → Call (List ℕ) (List ℕ)
padding_string type ps_len =
    if type == 1 then return (replicate ps_len 0xff) else random_padding ps_len

-- `pad_pkcs1v15`: the bytes of `out`.
unfoldable pub pad : ℕ → List ℕ → ℕ → Call (List ℕ) (List ℕ)
pad out_len di type = do
  require (leb (u64 (11 + length di)) out_len) invalid_param
  require (type == 1 || type == 2) invalid_param
  let ps_len = out_len - 3 - length di
  require (leb 8 ps_len) invalid_param
  ps ← padding_string type ps_len
  return (0 ∷ type ∷ (ps ++ (0 ∷ di)))

-- `~mask`
unfoldable pub not64 : ℕ → ℕ
not64 x = 2 ^ 64 - 1 - x

-- The scan for the first zero from the index `i` on: `found` and `scan_end`.
unfoldable pub scan : List ℕ → ℕ → ℕ → ℕ → ℕ × ℕ
scan [] i found scan_end = (found, scan_end)
scan (b ∷ bs) i found scan_end =
    let is_zero = eq b 0 in
    let taken = bit_and is_zero (bit_xor found 1) in
    let mask = sub64 0 taken in
    scan bs (i + 1) (bit_or found is_zero) (bit_or (bit_and scan_end (not64 mask)) (bit_and i mask))

-- `i < ps_end` for numbers of at most 63 bits.
unfoldable pub below : ℕ → ℕ → ℕ
below i ps_end = u8 (sub64 i ps_end / 2 ^ 63)

-- The loop over the padding string, from the index `i` on.
unfoldable pub check_padding : ℕ → ℕ → ℕ → List ℕ → ℕ → ℕ → ℕ
check_padding t1 t2 ps_end [] i ps_ok = ps_ok
check_padding t1 t2 ps_end (b ∷ bs) i ps_ok =
    let byte_ok = bit_xor (neq b t1) t2 in
    check_padding t1 t2 ps_end bs (i + 1)
      (bit_and ps_ok (bit_or byte_ok (bit_xor (below i ps_end) 1)))

-- `t1` and `t2`.
unfoldable pub padding_ok : ℕ → ℕ → List ℕ → ℕ
padding_ok type ps_end em =
    check_padding (u8 (256 - bit_and type 1)) (bit_and type 1) ps_end (drop 2 em) 2 1

-- The test of eight bytes at least, on 16 bits.
unfoldable pub length_ok : ℕ → ℕ
length_ok ps_len = bit_xor ((ps_len % 2 ^ 16 + 2 ^ 16 - 8) % 2 ^ 16 / 2 ^ 15) 1

-- The comparison of the digest info.
unfoldable pub same_bytes : List ℕ → List ℕ → ℕ → ℕ
same_bytes [] out di_ok = di_ok
same_bytes (b ∷ bs) [] di_ok = same_bytes bs [] (bit_and di_ok (eq b 0))
same_bytes (b ∷ bs) (x ∷ xs) di_ok = same_bytes bs xs (bit_and di_ok (eq b x))

-- `unpad_pkcs1v15` for signatures, type 1: the array `out` holds what is expected, `*out_len` of
-- it. The result is whether the function returns 0; else it returns -1.
unfoldable pub unpad_signature : List ℕ → List ℕ → Call ℕ Bool
unpad_signature em out = do
  require (leb 11 (length em)) invalid_param
  out_len ← λ s. done s s
  require (leb (u64 (11 + out_len)) (length em)) invalid_param
  let ps_end = length em - out_len - 1
  let ok = bit_and (bit_and (eq (byte_at em 0) 0) (eq (byte_at em 1) 1)) (eq (byte_at em ps_end) 0)
  let di_len = length em - (ps_end + 1)
  require (di_len == out_len) key_invalid
  let di_ok = same_bytes (drop (ps_end + 1) em) out 1
  let checks = bit_and (bit_and (padding_ok 1 ps_end em) (length_ok (sub64 ps_end 2))) di_ok
  return (bit_and ok checks == 1)

-- Whether the array `out`, if there is one, has room for the plaintext.
unfoldable pub fits : Option (List ℕ) → ℕ → ℕ → ℕ
fits none out_len di_len = 1
fits (some bytes) out_len di_len = bit_xor (u8 (sub64 out_len di_len / 2 ^ 63)) 1

-- `if (out) memcpy(out, em + di_start, di_len);`
unfoldable pub copy_out : List ℕ → Option (List ℕ) → Option (List ℕ)
copy_out m none = none
copy_out m (some bytes) = some (write_at 0 m bytes)

-- `unpad_pkcs1v15` for decryption, type 2. The state is the array `out`, if there is one, and
-- `*out_len`.
unfoldable pub unpad_decryption : List ℕ → Call (Option (List ℕ) × ℕ) (Unit {0})
unpad_decryption em (out, out_len) =
    let scanned = scan (drop 2 em) 2 0 2 in
    let ps_end = scanned.1 in
    let ok = bit_and (bit_and (eq (byte_at em 0) 0) (eq (byte_at em 1) 2)) scanned.0 in
    let di_len = length em - (ps_end + 1) in
    let checks =
      bit_and (bit_and (padding_ok 2 ps_end em) (length_ok (sub64 ps_end 2)))
        (fits out out_len di_len) in
    if ltb (length em) 11
    then fail invalid_param (out, out_len)
    else if bit_and ok checks == 0
    then fail key_invalid (out, out_len)
    else done tt (copy_out (drop (ps_end + 1) em) out, di_len)
