-- ===== src/Rsa/Rsaes/RoundTrip.antt =====
-- `sdc_rsaes_pkcs1v15_encrypt`, then `sdc_rsaes_pkcs1v15_decrypt`.
use slim_data_crypt.Common.{
  ℕ, ◌+◌, ◌-◌, ◌*◌, ◌^◌, ◌<◌, ◌≤◌, ◌≡◌, refl, ap, sym, ◌∙◌, true, false, List, ◌∷◌, length, All,
  IsByte, some, write_at, sub64, ltb, leb, ◌==◌, done, arith,
}
use slim_data_crypt.Asn1.Der.{be_value, be_value-lt}
use slim_data_crypt.Integer.{value}
use slim_data_crypt.Integer.Bytes.{
  frombytes_be, tobytes_be, be_value-tobytes_be, frombytes_be-tobytes_be,
}
use slim_data_crypt.Integer.Bytes.Back.{tobytes_be-frombytes_be, length-tobytes_be}
use slim_data_crypt.Rsa.Padding.{pad, unpad_decryption, copy_out}
use slim_data_crypt.Rsa.Padding.RoundTrip.{nonzeros, padded_message}
use slim_data_crypt.Rsa.Inner.{PublicKey, PrivateKey, draw, rsa_public, rsa_private}
use slim_data_crypt.Rsa.Inner.Private.{IsFermat, HasRoom}
use slim_data_crypt.Rsa.Inner.RoundTrip.{IsKeyPair, rsa_private-rsa_public}
use slim_data_crypt.Rsa.Rsaes.{encrypt, decrypt, unpadded}

-- Encryption whose parts succeed.
encrypt_run :
    (pub_key : PublicKey) (msg rng em rest c : List ℕ) (out_len bytes : ℕ)
    → length pub_key.n * 8 ≡ bytes
    → 11 + length msg ≤ bytes
    → bytes < 2 ^ 15
    → bytes ≤ out_len
    → pad bytes msg 2 rng ≡ done em rest
    → rsa_public pub_key (frombytes_be (length pub_key.n) em) rest ≡ done c rest
    → encrypt true pub_key msg (rng, out_len) ≡ done (tobytes_be c) (rest, bytes)
unfolding encrypt
encrypt_run pub_key msg rng em rest c out_len bytes same long short room run run_public =
    let no_excess : ltb (sub64 bytes 11) (length msg) ≡ false = ground arith in
    let array : ltb out_len bytes ≡ false = ground arith in
    rw (same, no_excess, array, run, run_public) refl

-- Decryption whose parts succeed.
decrypt_run :
    (key : PrivateKey) (cipher rng o rng2 out out' : List ℕ) (capacity len : ℕ)
    → length cipher ≡ length key.n * 8
    → rsa_private key (frombytes_be (length key.n) cipher) rng ≡ done o rng2
    → unpad_decryption (tobytes_be o) (some out, capacity) ≡ done tt (some out', len)
    → decrypt true key cipher (rng, (out, capacity)) ≡ done tt (rng2, (out', len))
unfolding decrypt unpadded
decrypt_run key cipher rng o rng2 out out' capacity len size run back =
    let whole : (length cipher == length key.n * 8) ≡ true = ground arith in
    rw (whole, run, back) refl

-- For a pair of keys with primes of four words at least, whose modulus has a top byte that is not 0 and less than 2 ^ 15 bytes, a
-- message that leaves room for eleven bytes, an array for the ciphertext, enough random bytes that
-- are not zero, and arrays from the allocator: encryption returns a ciphertext of the modulus'
-- length. If the generator then hands out the numbers for blinding, whatever stands where its words go, of which none makes the carry
-- wrap, the array for the plaintext is big enough, and Fermat's little theorem holds for the padded
-- message and both primes, decryption writes the message and its length.
pub decrypt-encrypt :
    (pub_key : PublicKey) (key : PrivateKey)
    (msg rng out rng' regions rp rng1 regions1 rq rng2 regions2 : List ℕ) (out_len capacity : ℕ)
    → IsKeyPair pub_key key
    → 256 ^ (length key.n * 8 - 1) ≤ value key.n
    → length key.n * 8 < 2 ^ 15
    → 11 + length msg ≤ length key.n * 8
    → length key.n * 8 ≤ out_len
    → All IsByte msg
    → All IsByte rng
    → length key.n * 8 - 3 - length msg ≤ nonzeros rng
    → length msg ≤ capacity
    → capacity < 2 ^ 63
    → All IsByte rng'
    → draw (length rng') 0 key.p (rng', regions) ≡ done rp (rng1, regions1)
    → draw (length rng1) (length key.p) key.q (rng1, regions1) ≡ done rq (rng2, regions2)
    → HasRoom rp key.p
    → HasRoom rq key.q
    → ((em rest : List ℕ)
        → pad (length key.n * 8) msg 2 rng ≡ done em rest
        → IsFermat (value key.p) (be_value 0 em) × IsFermat (value key.q) (be_value 0 em))
    → (cipher : List ℕ) × (rest : List ℕ) × (encrypt true pub_key msg (rng, out_len)
        ≡ done cipher (rest, length key.n * 8))
      × (decrypt true key cipher (rng', (out, capacity))
          ≡ done tt (rng2, (write_at 0 msg out, length msg)))
unfolding copy_out
decrypt-encrypt pub_key key msg rng out rng' regions rp rng1 regions1 rq rng2 regions2 out_len
      capacity k top short room long bytes random enough fits small random' first second room1 room2
      f =
    let same = ap length k.same_modulus in
    let has_room : leb (length msg) capacity ≡ true = ground arith in
    let (tail, rest, run, size, back, tail_bytes) =
      padded_message (length key.n * 8) msg rng (some out) capacity bytes random room short enough
        has_room small in
    let em = 0 ∷ tail in
    let ws = frombytes_be (length key.n) em in
    let (w_size, w_words, w_back) =
      tobytes_be-frombytes_be (length key.n) em (omega (arith, size)) (omega arith, tail_bytes) in
    let number : value ws ≡ be_value 0 em =
      sym (be_value-tobytes_be ws w_words) ∙ ap (be_value 0) w_back in
    let fermat = f em rest run in
    let bound = be_value-lt 0 tail tail_bytes in
    let width : 256 ^ length tail ≡ 256 ^ (length key.n * 8 - 1) =
      ap (λ t. 256 ^ t) (omega (arith, size)) in
    let below : value ws < value key.n = omega (arith, number, bound, width, top) in
    let (c, o, run_public, run_private, o_same, c_size, c_words) =
      rsa_private-rsa_public pub_key key ws rest rng' regions rp rng1 regions1 rq rng2 regions2 k
        w_size w_words below random' first second room1 room2 (rw number fermat.0)
        (rw number fermat.1) in
    let again : frombytes_be (length key.n) (tobytes_be c) ≡ c =
      ap (λ t. frombytes_be t (tobytes_be c)) (sym c_size) ∙ frombytes_be-tobytes_be c c_words in
    (
      tobytes_be c,
      rest,
      encrypt_run pub_key msg rng em rest c out_len (length key.n * 8) (ap (λ t. t * 8) same) room
          short long run (ap (λ t. rsa_public pub_key (frombytes_be t em) rest) same ∙ run_public),
      decrypt_run key (tobytes_be c) rng' o rng2 out (write_at 0 msg out) capacity (length msg)
          (length-tobytes_be c ∙ omega (arith, c_size))
          (ap (λ t. rsa_private key t rng') again ∙ run_private)
          (ap (λ t. unpad_decryption t (some out, capacity)) (ap tobytes_be o_same ∙ w_back)
            ∙ back),
    )
