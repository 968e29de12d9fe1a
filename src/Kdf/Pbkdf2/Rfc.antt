-- ===== src/Kdf/Pbkdf2/Rfc.antt =====
-- src/kdf/pbkdf2.c against RFC 8018.

use slim_data_crypt.Common.{
  ℕ, zero, suc, ◌+◌, ◌-◌, ◌*◌, ◌/◌, ◌%◌, ◌^◌, ◌≤◌, ◌<◌, ◌≡◌, refl, ap, sym, ◌∙◌, true, false, List,
  [], ◌∷◌, ◌++◌, append-nil, append_assoc, length, length-write_at, take-append-drop, take-write_at,
  length-take, take_all, take_over-append, drop_above-write_at, take, drop, write_at, ltb,
  if◌then◌else◌, ◌==◌, Bool-cases, inl, inr, u32, arith,
}
use slim_data_crypt.Common.Words.{store32_be}
use slim_data_crypt.Modes.{xor_bytes}
use slim_data_crypt.Modes.Cbc.{length-xor_bytes}
use slim_data_crypt.Hash.{Ctx}
use slim_data_crypt.Hash.Streams.{joined}
use slim_data_crypt.Kdf.Hmac
use slim_data_crypt.Kdf.Hmac.Rfc.{hmac_sha256, hmac_lem, length-hmac_sha256, feed-hmac_sha256, feed}
use slim_data_crypt.Kdf.Pbkdf2.{iterate, derive_block, derive_loop, pbkdf2}

-- U_1 is the HMAC of the salt with the number of the block, U_(n+1) that of U_n.
unfoldable pub chain : List ℕ → List ℕ → ℕ → List ℕ
chain password first zero = first
chain password first (suc n) = hmac_sha256 password (chain password first n)

-- U_1 ^ ... ^ U_(n+1)
unfoldable pub chain_xor : List ℕ → List ℕ → ℕ → List ℕ
chain_xor password first zero = first
chain_xor password first (suc n) =
    xor_bytes (chain_xor password first n) (chain password first (suc n))

-- INT (i): the number of a block, which is below 2 ^ 32, in four octets.
unfoldable pub index_octets : ℕ → List ℕ
index_octets i = i / 2 ^ 24 ∷ i / 2 ^ 16 % 2 ^ 8 ∷ i / 2 ^ 8 % 2 ^ 8 ∷ i % 2 ^ 8 ∷ []

-- The function F: the block `i`, from 1 on.
unfoldable pub block_of : List ℕ → List ℕ → ℕ → ℕ → List ℕ
block_of password salt iterations i =
    chain_xor password (hmac_sha256 password (salt ++ index_octets i)) (iterations - 1)

-- `n` blocks from `i` on.
unfoldable pub blocks_of : List ℕ → List ℕ → ℕ → ℕ → ℕ → List ℕ
blocks_of password salt iterations zero i = []
blocks_of password salt iterations (suc n) i =
    block_of password salt iterations i ++ blocks_of password salt iterations n (i + 1)

length-chain :
    (password first : List ℕ) (n : ℕ) → length first ≡ 32 → length (chain password first n) ≡ 32
unfolding chain
length-chain password first zero e = e
length-chain password first (suc n) e = length-hmac_sha256 password (chain password first n)

length-chain_xor :
    (password first : List ℕ) (n : ℕ) → length first ≡ 32 → length (chain_xor password first n) ≡ 32
unfolding chain_xor
length-chain_xor password first zero e = e
length-chain_xor password first (suc n) e =
    let shorter = length-chain_xor password first n e in
    omega (
      arith,
      length-xor_bytes (chain_xor password first n) (chain password first (suc n))
          (omega (arith, shorter, length-chain password first (suc n) e)),
      shorter,
    )

length-block_of :
    (password salt : List ℕ) (iterations i : ℕ) → length (block_of password salt iterations i) ≡ 32
unfolding block_of
length-block_of password salt iterations i =
    length-chain_xor password _ (iterations - 1)
      (length-hmac_sha256 password (salt ++ index_octets i))

store32_be-index_octets : (i : ℕ) → i < 2 ^ 32 → store32_be i ≡ index_octets i
unfolding store32_be index_octets
store32_be-index_octets i h = let top : i / 2 ^ 24 % 2 ^ 8 ≡ i / 2 ^ 24 = omega arith in rw top refl

-- The end of the loop.
nothing_left :
    (outlen pos : ℕ) (out bytes : List ℕ)
    → pos ≡ outlen
    → out ≡ take pos out ++ (take (outlen - pos) bytes ++ drop outlen out)
nothing_left outlen pos out bytes e =
    let z : outlen - pos ≡ 0 = omega arith in rw (z, e) (sym (take-append-drop outlen out))

-- The bytes that one round copies.
copied :
    (left : ℕ) (t : List ℕ) (copy : ℕ)
    → length t ≡ 32
    → copy ≡ (if ltb 32 left then 32 else left)
    → take copy t ≡ take left t
copied left t copy l c = elim (Bool-cases (ltb 32 left)) [
  | inl many ↦ take_all t copy (ground arith) ∙ sym (take_all t left (ground arith))
  | inr few ↦ ap (λ k. take k t) (ground arith)
]

-- One round writes its part of the block, and leaves the rest as it is.
block_written :
    (outlen pos : ℕ) (t rest out : List ℕ) (copy : ℕ)
    → length t ≡ 32
    → pos < outlen
    → outlen ≤ length out
    → copy ≡ (if ltb 32 (outlen - pos) then 32 else outlen - pos)
    → take (pos + copy) (write_at pos (take copy t) out)
        ++ (take (outlen - (pos + copy)) rest ++ drop outlen (write_at pos (take copy t) out))
      ≡ take pos out ++ (take (outlen - pos) (t ++ rest) ++ drop outlen out)
block_written outlen pos t rest out copy l p o c =
    let fits : (copy ≤ 32) × (pos + copy ≤ outlen) = ground arith in
    let long : length (take copy t) ≡ copy = omega (arith, length-take copy t) in
    let left : outlen - (pos + copy) ≡ outlen - pos - length t = ground arith in
    rw
      (
        take-write_at pos (take copy t) out (pos + copy) (omega arith) (omega arith),
        drop_above-write_at outlen pos (take copy t) out (omega arith),
        take_over-append (outlen - pos) t rest,
        left,
        copied (outlen - pos) t copy l c,
      )
      (simp append_assoc)

module _ (local : Ctx ℕ) (r : length local.buffer ≡ 64) (password : List ℕ) where
  -- The loop from the round `k` on.
  iterate_lem :
      (first : List ℕ) (n k : ℕ)
      → iterate local password n (chain password first k) (chain_xor password first k)
        ≡ chain_xor password first (k + n)
  unfolding iterate chain chain_xor
  iterate_lem first zero k = ap (chain_xor password first) (let e : k ≡ k + 0 = omega arith in e)
  iterate_lem first (suc n) k =
      ap (λ u. iterate local password n u (xor_bytes (chain_xor password first k) u))
        (hmac_lem local password (chain password first k) r)
      ∙ iterate_lem first n (suc k)
      ∙ ap (chain_xor password first) (let e : suc k + n ≡ k + suc n = omega arith in e)

  derive_block_lem :
      (salt : List ℕ) (iterations i : ℕ)
      → i < 2 ^ 32
      → derive_block local password salt iterations i ≡ block_of password salt iterations i
  unfolding derive_block block_of
  derive_block_lem salt iterations i word =
      let first = hmac_sha256 password (salt ++ store32_be i) in
      let u : (Hmac.final
            (Hmac.update (Hmac.update (Hmac.init local password) salt) (store32_be i))).1
          ≡ first =
        unfold feed joined in
        (feed-hmac_sha256 local password (salt ∷ store32_be i ∷ []) r
          ∙ ap (λ t. hmac_sha256 password (salt ++ t)) (append-nil (store32_be i))) in
      ap (λ v. iterate local password (iterations - 1) v v) u
      ∙ unfold chain chain_xor in
        (iterate_lem first (iterations - 1) 0
          ∙ ap (chain_xor password first)
              (let e : 0 + (iterations - 1) ≡ iterations - 1 = omega arith in e)
          ∙ ap (λ b. chain_xor password (hmac_sha256 password (salt ++ b)) (iterations - 1))
              (store32_be-index_octets i word))

  derive_loop_lem :
      (salt : List ℕ) (iterations outlen fuel i pos n : ℕ) (out : List ℕ)
      → outlen - pos ≤ fuel
      → pos ≤ outlen
      → outlen ≤ length out
      → n ≡ (outlen - pos + 31) / 32
      → i + n ≤ 2 ^ 32
      → derive_loop local password salt iterations outlen fuel (u32 i) pos out
        ≡ take pos out
          ++ (take (outlen - pos) (blocks_of password salt iterations n i) ++ drop outlen out)
  unfolding derive_loop blocks_of
  derive_loop_lem salt iterations outlen zero i pos n out f p o e w =
      nothing_left outlen pos out _ (omega arith)
  derive_loop_lem salt iterations outlen (suc fuel) i pos zero out f p o e w =
      let stop : ltb pos outlen ≡ false = ground arith in
      rw stop (nothing_left outlen pos out _ (omega arith))
  derive_loop_lem salt iterations outlen (suc fuel) i pos (suc n) out f p o e w =
      let same : u32 i ≡ i = omega arith in
      let go : ltb pos outlen ≡ true = ground arith in
      let t = block_of password salt iterations i in
      let copy = if ltb 32 (outlen - pos) then 32 else outlen - pos in
      let size = length-block_of password salt iterations i in
      let part = take copy t in
      let later = take (outlen - (pos + copy)) (blocks_of password salt iterations n (i + 1)) in
      rw (go, same, derive_block_lem salt iterations i (omega arith))
        (ap
            (λ b.
              derive_loop local password salt iterations outlen fuel b (pos + copy)
                (write_at pos part out))
            (refl)
          ∙ derive_loop_lem salt iterations outlen fuel (i + 1) (pos + copy) n
              (write_at pos part out) (ground arith) (ground arith)
              (omega (arith, length-write_at pos part out)) (ground arith) (omega arith)
          ∙ block_written outlen pos t (blocks_of password salt iterations n (i + 1)) out copy size
              (ground arith) o refl)

  -- Whatever the local context holds in its buffer of 64 bytes, with at least one iteration, room
  -- for the key, and a key of at most 2 ^ 32 - 1 blocks, as RFC 8018 asks for: the first `outlen` bytes of the output become those of T_1, T_2 and so on,
  -- as RFC 8018 has them, and the rest stays as it was.
  pub pbkdf2_lem :
      (out salt : List ℕ) (outlen iterations : ℕ)
      → outlen ≤ length out
      → 0 < iterations
      → outlen ≤ (2 ^ 32 - 1) * 32
      → pbkdf2 local out outlen password salt iterations
        ≡ take outlen (blocks_of password salt iterations ((outlen + 31) / 32) 1) ++ drop outlen out
  unfolding pbkdf2
  pbkdf2_lem out salt outlen iterations o p short =
      let some_rounds : (iterations == 0) ≡ false = ground arith in
      let n = (outlen + 31) / 32 in
      let loop =
        derive_loop_lem salt iterations outlen outlen 1 0 n out (omega arith) (omega arith) o
          (omega arith) (omega arith) in
      elim (Bool-cases (outlen == 0)) [
        | inl none_wanted ↦ let z : outlen ≡ 0 = ground arith in rw z refl
        | inr some_wanted ↦
            rw (some_wanted, some_rounds)
              (loop
                ∙ ap (λ k. take k (blocks_of password salt iterations n 1) ++ drop outlen out)
                    (let e : outlen - 0 ≡ outlen = omega arith in e))
      ]
