-- ===== src/Modes/Cbc.antt =====
-- CBC of src/block_cipher.c: decryption of an encryption, with the two contexts that a cipher may
-- need for it.
use slim_data_crypt.Common.{
  ℕ, zero, suc, ◌+◌, ◌*◌, ◌/◌, ◌≤◌, ◌≡◌, refl, ap, sym, List, [], ◌∷◌, ◌++◌, length, length-take,
  length-drop, length-append, take, drop, take_of_append, drop_of_append, take-append-drop, All,
  All-take, All-drop, IsByte, arith,
}
use slim_data_crypt.Common.Bits.{xor_twice, xor-IsByte}
use slim_data_crypt.Modes.{
  Cipher, xor_bytes, cbc_encrypt_loop, cbc_encrypt, cbc_decrypt_loop, cbc_decrypt,
}

-- Decryption with `dec` is inverse to encryption with `enc` on a block of bytes, and encryption
-- gives such a block.
pub record IsInverse (enc dec : Cipher) : Type 0 where
  pub size : (block : List ℕ) → length block ≡ 16 → length (enc.encrypt_block block) ≡ 16
  pub bytes :
      (block : List ℕ) → length block ≡ 16 → All IsByte block → All IsByte (enc.encrypt_block block)
  pub inverse :
      (block : List ℕ)
      → length block ≡ 16
      → All IsByte block
      → dec.decrypt_block (enc.encrypt_block block) ≡ block

pub xor_bytes_twice : (xs ks : List ℕ) → length xs ≤ length ks → xor_bytes (xor_bytes xs ks) ks ≡ xs
unfolding xor_bytes
xor_bytes_twice [] ks h = refl
xor_bytes_twice (x ∷ xs) [] h = absurd (omega arith)
xor_bytes_twice (x ∷ xs) (k ∷ ks) h =
    rw (xor_twice x k) (ap (λ t. x ∷ t) (xor_bytes_twice xs ks (omega arith)))

pub length-xor_bytes :
    (xs ks : List ℕ) → length xs ≤ length ks → length (xor_bytes xs ks) ≡ length xs
unfolding xor_bytes
length-xor_bytes [] ks h = refl
length-xor_bytes (x ∷ xs) [] h = absurd (omega arith)
length-xor_bytes (x ∷ xs) (k ∷ ks) h = omega (arith, length-xor_bytes xs ks (omega arith))

pub xor_bytes-IsByte :
    (xs ks : List ℕ) → All IsByte xs → All IsByte ks → All IsByte (xor_bytes xs ks)
unfolding xor_bytes
xor_bytes-IsByte [] ks p q = tt
xor_bytes-IsByte (x ∷ xs) [] p q = tt
xor_bytes-IsByte (x ∷ xs) (k ∷ ks) p q = (xor-IsByte x k p.0 q.0, xor_bytes-IsByte xs ks p.1 q.1)

module _ (enc dec : Cipher) (law : IsInverse enc dec) where
  cbc_loops :
      (n : ℕ) (prev input : List ℕ)
      → length prev ≡ 16
      → All IsByte prev
      → length input ≡ n * 16
      → All IsByte input
      → (cbc_decrypt_loop dec n prev (cbc_encrypt_loop enc n prev input) ≡ input)
        × (length (cbc_encrypt_loop enc n prev input) ≡ n * 16)
  unfolding cbc_encrypt_loop cbc_decrypt_loop
  cbc_loops zero prev [] e p s b = (refl, refl)
  cbc_loops zero prev (x ∷ xs) e p s b = absurd (omega arith)
  cbc_loops (suc n) prev input e p s b =
      let block = take 16 input in
      let full : length block ≡ 16 = omega (arith, length-take 16 input) in
      let mixed = xor_bytes block prev in
      let mixed_size : length mixed ≡ 16 =
        omega (arith, length-xor_bytes block prev (omega arith)) in
      let mixed_bytes = xor_bytes-IsByte block prev (All-take IsByte 16 input b) p in
      let out = enc.encrypt_block mixed in
      let out_size = law.size mixed mixed_size in
      let rest = cbc_encrypt_loop enc n out (drop 16 input) in
      let (back, long) =
        cbc_loops n out (drop 16 input) out_size (law.bytes mixed mixed_size mixed_bytes)
          (omega (arith, length-drop 16 input)) (All-drop IsByte 16 input b) in
      let first : take 16 (out ++ rest) ≡ out = take_of_append out rest 16 (sym out_size) in
      let later : drop 16 (out ++ rest) ≡ rest = drop_of_append out rest 16 (sym out_size) in
      (
        rw
            (
              first,
              later,
              law.inverse mixed mixed_size mixed_bytes,
              back,
              xor_bytes_twice block prev (omega arith),
            )
            (take-append-drop 16 input),
        omega (arith, length-append out rest, long, out_size),
      )

  -- For a message of whole blocks and an IV of 16 bytes, with a context that encrypts and
  -- one that decrypts (or one that does both), inverse on blocks: decryption of the encryption gives the message back.
  pub cbc_decrypt-cbc_encrypt :
      (n : ℕ) (iv input : List ℕ)
      → length iv ≡ 16
      → All IsByte iv
      → length input ≡ n * 16
      → All IsByte input
      → cbc_decrypt dec iv (cbc_encrypt enc iv input) ≡ input
  unfolding cbc_encrypt cbc_decrypt
  cbc_decrypt-cbc_encrypt n iv input e p s b =
      let (back, long) = cbc_loops n iv input e p s b in
      let rounds : (length input + 15) / 16 ≡ n = omega arith in
      let again : (length (cbc_encrypt_loop enc n iv input) + 15) / 16 ≡ n = omega (arith, long) in
      rw (rounds, again) back
