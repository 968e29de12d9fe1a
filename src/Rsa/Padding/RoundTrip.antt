-- ===== src/Rsa/Padding/RoundTrip.antt =====
-- `pad_pkcs1v15` for encryption, then `unpad_pkcs1v15`.
use slim_data_crypt.Common.{
  ℕ, zero, suc, ◌+◌, ◌-◌, ◌^◌, ◌≤◌, ◌<◌, ◌≡◌, refl, ap, ◌∙◌, true, List, [], ◌∷◌, ◌++◌, length,
  length-append, All, All-append, IsByte, Option, some, u64, leb, ◌==◌, if◌then◌else◌, Bool-cases,
  inl, inr, done, arith,
}
use slim_data_crypt.Rsa.Padding.{
  nonzero_byte, after_byte, random_padding, padding_string, pad, unpad_decryption, copy_out,
}
use slim_data_crypt.Rsa.Padding.Scan.{Nonzero, split_zero}
use slim_data_crypt.Rsa.Padding.Encryption.{
  plaintext, has_room, decrypted, unpad_decryption-plaintext,
}

-- How many bytes the generator hands out that are not zero.
unfoldable pub nonzeros : List ℕ → ℕ
nonzeros [] = 0
nonzeros (b ∷ bs) = (if b == 0 then 0 else 1) + nonzeros bs

nonzero_byte-some :
    (rng : List ℕ) (n : ℕ)
    → All IsByte rng
    → suc n ≤ nonzeros rng
    → (b : ℕ) × (rest : List ℕ) × (nonzero_byte rng ≡ some (b, rest))
      × Nonzero b
      × (b < 256)
      × All IsByte rest
      × (n ≤ nonzeros rest)
unfolding nonzero_byte nonzeros
nonzero_byte-some [] n h l = absurd (omega arith)
nonzero_byte-some (b ∷ bs) n h l = elim (Bool-cases (b == 0)) [
  | inl z ↦
      let (c, rest, e, p, q, r, s) = nonzero_byte-some bs n h.1 (ground arith) in
      (c, rest, rw z e, p, q, r, s)
  | inr z ↦ (b, bs, rw z refl, z, h.0, h.1, ground arith)
]

random_padding_some :
    (n : ℕ) (rng : List ℕ)
    → All IsByte rng
    → n ≤ nonzeros rng
    → (ps : List ℕ) × (rest : List ℕ) × (random_padding n rng ≡ done ps rest)
      × (length ps ≡ n)
      × All Nonzero ps
      × All IsByte ps
unfolding random_padding after_byte
random_padding_some zero rng h l = ([], rng, refl, refl, tt, tt)
random_padding_some (suc n) rng h l =
    let (b, rest, e, p, q, r, s) = nonzero_byte-some rng n h l in
    let (ps, rest', e', size, nz, bytes) = random_padding_some n rest r s in
    (b ∷ ps, rest', rw (e, e') refl, ap suc size, (p, nz), (q, bytes))

split_padded : (ps m : List ℕ) → All Nonzero ps → split_zero (ps ++ (0 ∷ m)) ≡ some (ps, m)
unfolding split_zero
split_padded [] m h = refl
split_padded (p ∷ ps) m h = rw (h.0, split_padded ps m h.1) refl

-- The encoded message, its bytes and its length.
pub padded_message :
    (out_len : ℕ) (m rng : List ℕ) (out : Option (List ℕ)) (capacity : ℕ)
    → All IsByte m
    → All IsByte rng
    → 11 + length m ≤ out_len
    → out_len < 2 ^ 15
    → out_len - 3 - length m ≤ nonzeros rng
    → has_room out (length m) capacity ≡ true
    → capacity < 2 ^ 63
    → (tail : List ℕ) × (rest : List ℕ) × (pad out_len m 2 rng ≡ done (0 ∷ tail) rest)
      × (length (0 ∷ tail) ≡ out_len)
      × (unpad_decryption (0 ∷ tail) (out, capacity) ≡ done tt (copy_out m out, length m))
      × All IsByte tail
unfolding pad padding_string
padded_message out_len m rng out capacity bytes random long short enough room small =
    let (ps, rest, e, size, nz, ps_bytes) =
      random_padding_some (out_len - 3 - length m) rng random enough in
    let em = 0 ∷ 2 ∷ (ps ++ (0 ∷ m)) in
    let total : length em ≡ out_len = omega (arith, size, length-append ps (0 ∷ m)) in
    let fits : leb (u64 (11 + length m)) out_len ≡ true = ground arith in
    let eight : leb 8 (out_len - 3 - length m) ≡ true = ground arith in
    let eight' : leb 8 (length ps) ≡ true = ground arith in
    let text : plaintext em ≡ some m = unfold plaintext in rw (split_padded ps m nz, eight') refl in
    let tail_bytes : All IsByte (2 ∷ (ps ++ (0 ∷ m))) =
      (omega arith, All-append IsByte ps (0 ∷ m) ps_bytes (omega arith, bytes)) in
    (
      2 ∷ (ps ++ (0 ∷ m)),
      rest,
      rw (fits, eight, e) refl,
      total,
      unpad_decryption-plaintext em out capacity (omega arith, tail_bytes) (omega (arith, total))
            (omega (arith, total)) small
          ∙ ap (λ t. decrypted t out capacity) text
          ∙ rw room refl,
      tail_bytes,
    )

-- For a message with room for eleven bytes more, while the generator hands out enough bytes that
-- are not zero: padding returns an encoded message of the length asked for, and unpadding it with a
-- big enough array gives the message back.
pub unpad_decryption-pad :
    (out_len : ℕ) (m rng : List ℕ) (out : Option (List ℕ)) (capacity : ℕ)
    → All IsByte m
    → All IsByte rng
    → 11 + length m ≤ out_len
    → out_len < 2 ^ 15
    → out_len - 3 - length m ≤ nonzeros rng
    → has_room out (length m) capacity ≡ true
    → capacity < 2 ^ 63
    → (em : List ℕ) × (rest : List ℕ) × (pad out_len m 2 rng ≡ done em rest)
      × (length em ≡ out_len)
      × (unpad_decryption em (out, capacity) ≡ done tt (copy_out m out, length m))
unpad_decryption-pad out_len m rng out capacity bytes random long short enough room small =
    let (tail, rest, run, size, back, tail_bytes) =
      padded_message out_len m rng out capacity bytes random long short enough room small in
    (0 ∷ tail, rest, run, size, back)
