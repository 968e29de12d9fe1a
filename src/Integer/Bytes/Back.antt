-- ===== src/Integer/Bytes/Back.antt =====
-- Words from big-endian bytes, and back.
use slim_data_crypt.Common.{
  ℕ, zero, suc, ◌+◌, ◌*◌, ◌/◌, ◌%◌, ◌^◌, ◌≡◌, refl, ap, sym, ◌∙◌, List, [], ◌∷◌, ◌++◌, length,
  length-append, append-nil, append_assoc, All, All-append, IsByte, arith,
}
use slim_data_crypt.Common.Words.{load64_be, store64_be}
use slim_data_crypt.Common.Words.Load.{load64_be-weigh, load64_be-lt, weigh}
use slim_data_crypt.Integer.{IsWord}
use slim_data_crypt.Integer.Bytes.{tobytes_be, frombytes_be, frombytes_be_loop}

store64_be-load64_be :
    (b0 b1 b2 b3 b4 b5 b6 b7 : ℕ) (rest : List ℕ)
    → All IsByte (b0 ∷ b1 ∷ b2 ∷ b3 ∷ b4 ∷ b5 ∷ b6 ∷ b7 ∷ [])
    → store64_be (load64_be (b0 ∷ b1 ∷ b2 ∷ b3 ∷ b4 ∷ b5 ∷ b6 ∷ b7 ∷ rest))
      ≡ b0 ∷ b1 ∷ b2 ∷ b3 ∷ b4 ∷ b5 ∷ b6 ∷ b7 ∷ []
unfolding store64_be
store64_be-load64_be b0 b1 b2 b3 b4 b5 b6 b7 rest h =
    let w = weigh b7 b6 b5 b4 b3 b2 b1 b0 in
    let e0 : w / 2 ^ 56 % 2 ^ 8 ≡ b0 = omega arith in
    let e1 : w / 2 ^ 48 % 2 ^ 8 ≡ b1 = omega arith in
    let e2 : w / 2 ^ 40 % 2 ^ 8 ≡ b2 = omega arith in
    let e3 : w / 2 ^ 32 % 2 ^ 8 ≡ b3 = omega arith in
    let e4 : w / 2 ^ 24 % 2 ^ 8 ≡ b4 = omega arith in
    let e5 : w / 2 ^ 16 % 2 ^ 8 ≡ b5 = omega arith in
    let e6 : w / 2 ^ 8 % 2 ^ 8 ≡ b6 = omega arith in
    let e7 : w % 2 ^ 8 ≡ b7 = omega arith in
    rw (load64_be-weigh b0 b1 b2 b3 b4 b5 b6 b7 rest h, e0, e1, e2, e3, e4, e5, e6, e7) refl

-- The words that are filled, and their bytes.
frombytes_be_loop_lem :
    (len : ℕ) (bytes filled : List ℕ)
    → length bytes ≡ 8 * len
    → All IsByte bytes
    → All IsWord filled
    → (length (frombytes_be_loop len bytes filled) ≡ len + length filled)
      × All IsWord (frombytes_be_loop len bytes filled)
      × (tobytes_be (frombytes_be_loop len bytes filled) ≡ tobytes_be filled ++ bytes)
unfolding frombytes_be_loop tobytes_be
frombytes_be_loop_lem zero [] filled e h p = (omega arith, p, sym (append-nil (tobytes_be filled)))
frombytes_be_loop_lem zero (b ∷ bs) filled e h p = absurd (omega (arith, e))
frombytes_be_loop_lem (suc len) [] filled e h p = absurd (omega (arith, e))
frombytes_be_loop_lem (suc len) (_ ∷ []) filled e h p = absurd (omega (arith, e))
frombytes_be_loop_lem (suc len) (_ ∷ _ ∷ []) filled e h p = absurd (omega (arith, e))
frombytes_be_loop_lem (suc len) (_ ∷ _ ∷ _ ∷ []) filled e h p = absurd (omega (arith, e))
frombytes_be_loop_lem (suc len) (_ ∷ _ ∷ _ ∷ _ ∷ []) filled e h p = absurd (omega (arith, e))
frombytes_be_loop_lem (suc len) (_ ∷ _ ∷ _ ∷ _ ∷ _ ∷ []) filled e h p = absurd (omega (arith, e))
frombytes_be_loop_lem (suc len) (_ ∷ _ ∷ _ ∷ _ ∷ _ ∷ _ ∷ []) filled e h p =
    absurd (omega (arith, e))
frombytes_be_loop_lem (suc len) (_ ∷ _ ∷ _ ∷ _ ∷ _ ∷ _ ∷ _ ∷ []) filled e h p =
    absurd (omega (arith, e))
frombytes_be_loop_lem (suc len) (b0 ∷ b1 ∷ b2 ∷ b3 ∷ b4 ∷ b5 ∷ b6 ∷ b7 ∷ rest) filled e h p =
    let input = b0 ∷ b1 ∷ b2 ∷ b3 ∷ b4 ∷ b5 ∷ b6 ∷ b7 ∷ rest in
    let block = b0 ∷ b1 ∷ b2 ∷ b3 ∷ b4 ∷ b5 ∷ b6 ∷ b7 ∷ [] in
    let (size, words, bytes) =
      frombytes_be_loop_lem len rest (load64_be input ∷ filled) (omega (arith, e)) h.1.1.1.1.1.1.1.1
        (load64_be-lt input h, p) in
    (
      omega (arith, size),
      words,
      bytes
          ∙ ap (λ t. (tobytes_be filled ++ t) ++ rest)
              (store64_be-load64_be b0 b1 b2 b3 b4 b5 b6 b7 rest (omega arith))
          ∙ append_assoc (tobytes_be filled) block rest,
    )

-- Bytes for a whole number of words: `sdc_int_frombytes_be` makes words of them, from which
-- `sdc_int_tobytes_be` writes the same bytes.
pub tobytes_be-frombytes_be :
    (len : ℕ) (bytes : List ℕ)
    → length bytes ≡ 8 * len
    → All IsByte bytes
    → (length (frombytes_be len bytes) ≡ len)
      × All IsWord (frombytes_be len bytes)
      × (tobytes_be (frombytes_be len bytes) ≡ bytes)
unfolding frombytes_be tobytes_be
tobytes_be-frombytes_be len bytes e h =
    let (size, words, same) = frombytes_be_loop_lem len bytes [] e h tt in
    (omega (arith, size), words, same)

pub length-tobytes_be : (ws : List ℕ) → length (tobytes_be ws) ≡ 8 * length ws
unfolding tobytes_be store64_be
length-tobytes_be [] = refl
length-tobytes_be (w ∷ ws) =
    length-append (tobytes_be ws) (store64_be w) ∙ omega (arith, length-tobytes_be ws)

pub tobytes_be-IsByte : (ws : List ℕ) → All IsByte (tobytes_be ws)
unfolding tobytes_be store64_be
tobytes_be-IsByte [] = tt
tobytes_be-IsByte (w ∷ ws) =
    All-append IsByte (tobytes_be ws) (store64_be w) (tobytes_be-IsByte ws) (omega arith)
