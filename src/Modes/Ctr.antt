-- ===== src/Modes/Ctr.antt =====
-- CTR of src/block_cipher.c in batches of eight blocks, and one key stream.
use slim_data_crypt.Common.{
  ℕ, zero, suc, ◌+◌, ◌*◌, ◌/◌, ◌^◌, ◌≤◌, ◌<◌, ◌≡◌, refl, ap, sym, ◌∙◌, List, [], ◌∷◌, ◌++◌,
  append_assoc, append-nil, length, length-take, length-drop, length-append, take, drop, take_all,
  bit_xor, ltb, ◌==◌, if◌then◌else◌, true, false, Bool-cases, inl, inr, u32, arith,
}
use slim_data_crypt.Modes.{
  Cipher, xor_bytes, counter_block, counter_blocks, batch_blocks, ctr_loop, ctr,
}
use slim_data_crypt.Modes.Cbc.{xor_bytes_twice, length-xor_bytes}

-- Many blocks at once are encrypted like one after the other, to 16 bytes each.
pub record IsBlockwise (cipher : Cipher) : Type 0 where
  pub none : cipher.encrypt_blocks 0 [] ≡ []
  pub each :
      (n : ℕ) (block rest : List ℕ)
      → length block ≡ 16
      → cipher.encrypt_blocks (suc n) (block ++ rest)
        ≡ cipher.encrypt_block block ++ cipher.encrypt_blocks n rest
  pub size : (block : List ℕ) → length block ≡ 16 → length (cipher.encrypt_block block) ≡ 16

-- The key stream of `n` blocks from the counter `c` on.
unfoldable pub keystream : Cipher → List ℕ → ℕ → ℕ → List ℕ
keystream cipher nonce zero c = []
keystream cipher nonce (suc n) c =
    cipher.encrypt_block (counter_block nonce c) ++ keystream cipher nonce n (u32 (c + 1))

xor_bytes-append :
    (ks ls xs : List ℕ)
    → xor_bytes xs (ks ++ ls)
      ≡ xor_bytes (take (length ks) xs) ks ++ xor_bytes (drop (length ks) xs) ls
unfolding xor_bytes
xor_bytes-append [] ls xs = refl
xor_bytes-append (k ∷ ks) ls [] = refl
xor_bytes-append (k ∷ ks) ls (x ∷ xs) = ap (λ t. bit_xor x k ∷ t) (xor_bytes-append ks ls xs)

xor_bytes-nil : (ks : List ℕ) → xor_bytes [] ks ≡ []
unfolding xor_bytes
xor_bytes-nil ks = refl

not_less : (a b : ℕ) → b ≤ a → ltb a b ≡ false
not_less a b h = ground arith

empty : (xs : List ℕ) → length xs ≡ 0 → xs ≡ []
empty [] e = refl
empty (x ∷ xs) e = absurd (omega arith)

module _ (cipher : Cipher) (law : IsBlockwise cipher) (nonce : List ℕ)
    (twelve : 12 ≤ length nonce) where
  length-counter_block : (c : ℕ) → length (counter_block nonce c) ≡ 16
  unfolding counter_block
  length-counter_block c = omega (arith, length-append (take 12 nonce) _, length-take 12 nonce)

  batch_keystream :
      (n c : ℕ) → cipher.encrypt_blocks n (counter_blocks nonce n c) ≡ keystream cipher nonce n c
  unfolding counter_blocks keystream
  batch_keystream zero c = law.none
  batch_keystream (suc n) c =
      law.each n (counter_block nonce c) (counter_blocks nonce n (u32 (c + 1)))
        (length-counter_block c)
      ∙ ap (λ t. cipher.encrypt_block (counter_block nonce c) ++ t)
          (batch_keystream n (u32 (c + 1)))

  pub length-keystream : (n c : ℕ) → length (keystream cipher nonce n c) ≡ n * 16
  unfolding keystream
  length-keystream zero c = refl
  length-keystream (suc n) c = omega (
    arith,
    length-append (cipher.encrypt_block (counter_block nonce c))
        (keystream cipher nonce n (u32 (c + 1))),
    law.size (counter_block nonce c) (length-counter_block c),
    length-keystream n (u32 (c + 1)),
  )

  keystream-add :
      (n m c : ℕ)
      → c < 2 ^ 32
      → keystream cipher nonce (n + m) c
        ≡ keystream cipher nonce n c ++ keystream cipher nonce m (u32 (c + n))
  unfolding keystream
  keystream-add zero m c h =
      ap (λ k. keystream cipher nonce k c) (let e : 0 + m ≡ m = omega arith in e)
      ∙ ap (keystream cipher nonce m) (let e : c ≡ u32 (c + 0) = omega arith in e)
  keystream-add (suc n) m c h =
      let block = cipher.encrypt_block (counter_block nonce c) in
      ap (λ k. keystream cipher nonce k c) (let e : suc n + m ≡ suc (n + m) = omega arith in e)
      ∙ ap (λ t. block ++ t) (keystream-add n m (u32 (c + 1)) (omega arith))
      ∙ ap (λ k. block ++ (keystream cipher nonce n (u32 (c + 1)) ++ keystream cipher nonce m k))
          (let e : u32 (u32 (c + 1) + n) ≡ u32 (c + suc n) = omega arith in e)
      ∙ sym (append_assoc block _ _)

  ctr_loop-nil : (fuel c : ℕ) → ctr_loop cipher nonce fuel c [] ≡ []
  unfolding ctr_loop
  ctr_loop-nil zero c = refl
  ctr_loop-nil (suc fuel) c = refl

  -- One round of the loop.
  ctr_round :
      (fuel c bytes : ℕ) (x : ℕ) (xs : List ℕ) (nb : ℕ)
      → batch_blocks (length (x ∷ xs)) ≡ nb
      → (if ltb (length (x ∷ xs)) (nb * 16) then length (x ∷ xs) else nb * 16) ≡ bytes
      → ctr_loop cipher nonce (suc fuel) c (x ∷ xs)
        ≡ xor_bytes (take bytes (x ∷ xs)) (keystream cipher nonce nb c)
          ++ ctr_loop cipher nonce fuel (u32 (c + nb)) (drop bytes (x ∷ xs))
  unfolding ctr_loop
  ctr_round fuel c bytes x xs nb batch size =
      let positive : (length (x ∷ xs) == 0) ≡ false = ground arith in
      rw (batch, size, positive, batch_keystream nb c) refl

  -- A whole batch, with more to come.
  many :
      (fuel c x : ℕ) (xs : List ℕ)
      → 8 < (length (x ∷ xs) + 15) / 16
      → c < 2 ^ 32
      → ((d : ℕ)
          → d < 2 ^ 32
          → ctr_loop cipher nonce fuel d (drop 128 (x ∷ xs))
            ≡ xor_bytes
                (drop 128 (x ∷ xs))
                (keystream cipher nonce ((length (drop 128 (x ∷ xs)) + 15) / 16) d))
      → ctr_loop cipher nonce (suc fuel) c (x ∷ xs)
        ≡ xor_bytes (x ∷ xs) (keystream cipher nonce ((length (x ∷ xs) + 15) / 16) c)
  many fuel c x xs h s later =
      let input = x ∷ xs in
      let beyond : ltb 8 ((length input + 15) / 16) ≡ true = ground arith in
      let batch : batch_blocks (length input) ≡ 8 = unfold batch_blocks in rw beyond refl in
      let more = (length (drop 128 input) + 15) / 16 in
      let all : 8 + more ≡ (length input + 15) / 16 = omega (arith, length-drop 128 input) in
      let full : (if ltb (length input) (8 * 16) then length input else 8 * 16) ≡ 128 =
        rw (not_less (length input) (8 * 16) (omega arith)) refl in
      ctr_round fuel c 128 x xs 8 batch full
      ∙ ap (λ t. xor_bytes (take 128 input) (keystream cipher nonce 8 c) ++ t)
          (later (u32 (c + 8)) (omega arith))
      ∙ ap
          (λ k.
            xor_bytes (take k input) (keystream cipher nonce 8 c)
            ++ xor_bytes (drop k input) (keystream cipher nonce more (u32 (c + 8))))
          (sym (length-keystream 8 c))
      ∙ sym (
          xor_bytes-append (keystream cipher nonce 8 c) (keystream cipher nonce more (u32 (c + 8)))
            input)
      ∙ ap (xor_bytes input) (sym (keystream-add 8 more c s))
      ∙ ap (λ k. xor_bytes input (keystream cipher nonce k c)) all

  -- The last batch.
  few :
      (fuel c x : ℕ) (xs : List ℕ)
      → (length (x ∷ xs) + 15) / 16 ≤ 8
      → ctr_loop cipher nonce (suc fuel) c (x ∷ xs)
        ≡ xor_bytes (x ∷ xs) (keystream cipher nonce ((length (x ∷ xs) + 15) / 16) c)
  few fuel c x xs h =
      let input = x ∷ xs in
      let n = (length input + 15) / 16 in
      let within : ltb 8 n ≡ false = ground arith in
      let batch : batch_blocks (length input) ≡ n = unfold batch_blocks in rw within refl in
      let size : (if ltb (length input) (n * 16) then length input else n * 16) ≡ length input =
        ground arith in
      let nothing : drop (length input) input ≡ [] =
        empty (drop (length input) input) (omega (arith, length-drop (length input) input)) in
      ctr_round fuel c (length input) x xs n batch size
      ∙ rw (take_all input (length input) (omega arith), nothing, ctr_loop-nil fuel (u32 (c + n)))
          (append-nil _)

  ctr_loop-keystream :
      (fuel c : ℕ) (input : List ℕ)
      → length input ≤ fuel
      → c < 2 ^ 32
      → ctr_loop cipher nonce fuel c input
        ≡ xor_bytes input (keystream cipher nonce ((length input + 15) / 16) c)
  ctr_loop-keystream fuel c [] h s = ctr_loop-nil fuel c ∙ sym (xor_bytes-nil _)
  ctr_loop-keystream zero c (x ∷ xs) h s = absurd (omega arith)
  ctr_loop-keystream (suc fuel) c (x ∷ xs) h s =
      elim (Bool-cases (ltb 8 ((length (x ∷ xs) + 15) / 16))) [
        | inl e ↦ many fuel c x xs (ground arith) s λ d t.
            ctr_loop-keystream fuel d (drop 128 (x ∷ xs)) (omega (arith, length-drop 128 (x ∷ xs)))
              t
        | inr e ↦ few fuel c x xs (ground arith)
      ]

  -- Over a cipher whose batches are its blocks, and with a nonce of 12 bytes: the output is the
  -- input, exclusive or the key stream of the counters from 0 on, whatever the length.
  pub ctr-keystream :
      (input : List ℕ)
      → ctr cipher nonce input
        ≡ xor_bytes input (keystream cipher nonce ((length input + 15) / 16) 0)
  unfolding ctr
  ctr-keystream input = ctr_loop-keystream (length input) 0 input (omega arith) (omega arith)

  -- Over a cipher whose batches are its blocks, and with a nonce of 12 bytes, CTR undoes itself.
  pub ctr-ctr : (input : List ℕ) → ctr cipher nonce (ctr cipher nonce input) ≡ input
  ctr-ctr input =
      let n = (length input + 15) / 16 in
      let stream = keystream cipher nonce n 0 in
      let enough : length input ≤ length stream = omega (arith, length-keystream n 0) in
      let same : (length (xor_bytes input stream) + 15) / 16 ≡ n =
        omega (arith, length-xor_bytes input stream enough) in
      ctr-keystream (ctr cipher nonce input)
      ∙ ap (λ o. xor_bytes o (keystream cipher nonce ((length o + 15) / 16) 0))
          (ctr-keystream input)
      ∙ ap (λ k. xor_bytes (xor_bytes input stream) (keystream cipher nonce k 0)) same
      ∙ xor_bytes_twice input stream enough
