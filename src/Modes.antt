-- ===== src/Modes.antt =====
-- src/block_cipher.c: CTR and CBC over any block cipher. The table of function pointers
-- `ctx->ops` of include/sdcrypt/block_cipher.h is the record `Cipher`, with the key of one context
-- in it: a cipher such as SM4 has one context that encrypts and one that decrypts.
use slim_data_crypt.Common.{
  ℕ, zero, suc, ◌+◌, ◌-◌, ◌*◌, ◌/◌, ◌^◌, List, [], ◌∷◌, ◌++◌, length, take, drop, bit_xor, ltb,
  ◌==◌, if◌then◌else◌, u8, u32,
}
pub mod Cbc
pub mod Ctr
mod Tests

-- The operations on blocks of 16 bytes: one block each way, and `n` blocks at once.
pub record Cipher : Type 0 where
  pub encrypt_block : List ℕ → List ℕ
  pub decrypt_block : List ℕ → List ℕ
  pub encrypt_blocks : ℕ → List ℕ → List ℕ

-- `out[i] = in[i] ^ ks[i]`.
unfoldable pub xor_bytes : List ℕ → List ℕ → List ℕ
xor_bytes [] ks = []
xor_bytes (x ∷ xs) [] = []
xor_bytes (x ∷ xs) (k ∷ ks) = bit_xor x k ∷ xor_bytes xs ks

-- The loop of `sdc_block_cipher_cbc_encrypt` over `n` blocks.
unfoldable pub cbc_encrypt_loop : Cipher → ℕ → List ℕ → List ℕ → List ℕ
cbc_encrypt_loop cipher zero prev input = []
cbc_encrypt_loop cipher (suc n) prev input =
    let out = cipher.encrypt_block (xor_bytes (take 16 input) prev) in
    out ++ cbc_encrypt_loop cipher n out (drop 16 input)

-- `sdc_block_cipher_cbc_encrypt`, whose loop takes one block for each 16 bytes begun.
unfoldable pub cbc_encrypt : Cipher → List ℕ → List ℕ → List ℕ
cbc_encrypt cipher iv input = cbc_encrypt_loop cipher ((length input + 15) / 16) iv input

-- The loop of `sdc_block_cipher_cbc_decrypt`.
unfoldable pub cbc_decrypt_loop : Cipher → ℕ → List ℕ → List ℕ → List ℕ
cbc_decrypt_loop cipher zero prev input = []
cbc_decrypt_loop cipher (suc n) prev input =
    xor_bytes (cipher.decrypt_block (take 16 input)) prev
    ++ cbc_decrypt_loop cipher n (take 16 input) (drop 16 input)

-- `sdc_block_cipher_cbc_decrypt`.
unfoldable pub cbc_decrypt : Cipher → List ℕ → List ℕ → List ℕ
cbc_decrypt cipher iv input = cbc_decrypt_loop cipher ((length input + 15) / 16) iv input

-- The counter block: the nonce and the counter, its highest byte first.
unfoldable pub counter_block : List ℕ → ℕ → List ℕ
counter_block nonce c =
    take 12 nonce ++ (u8 (c / 2 ^ 24) ∷ u8 (c / 2 ^ 16) ∷ u8 (c / 2 ^ 8) ∷ u8 c ∷ [])

-- The loop that fills `ctrblk`, for the counters from `c` on.
unfoldable pub counter_blocks : List ℕ → ℕ → ℕ → List ℕ
counter_blocks nonce zero c = []
counter_blocks nonce (suc n) c = counter_block nonce c ++ counter_blocks nonce n (u32 (c + 1))

-- The blocks of one batch, 8 at most, for `remain` bytes.
unfoldable pub batch_blocks : ℕ → ℕ
batch_blocks remain = let nb = (remain + 15) / 16 in if ltb 8 nb then 8 else nb

-- The loop of `sdc_block_cipher_ctr`. Each round takes a byte at least.
unfoldable pub ctr_loop : Cipher → List ℕ → ℕ → ℕ → List ℕ → List ℕ
ctr_loop cipher nonce zero ctr input = []
ctr_loop cipher nonce (suc fuel) ctr input =
    let remain = length input in
    let nb = batch_blocks remain in
    let ks = cipher.encrypt_blocks nb (counter_blocks nonce nb ctr) in
    let bytes = if ltb remain (nb * 16) then remain else nb * 16 in
    let rest = ctr_loop cipher nonce fuel (u32 (ctr + nb)) (drop bytes input) in
    if remain == 0 then [] else xor_bytes (take bytes input) ks ++ rest

-- `sdc_block_cipher_ctr`.
unfoldable pub ctr : Cipher → List ℕ → List ℕ → List ℕ
ctr cipher nonce input = ctr_loop cipher nonce (length input) 0 input
