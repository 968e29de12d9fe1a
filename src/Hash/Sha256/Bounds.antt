-- ===== src/Hash/Sha256/Bounds.antt =====
-- The length and the bytes of the digests of SHA-256 and SHA-224.
use slim_data_crypt.Common.{
  ℕ, zero, suc, ◌*◌, ◌≡◌, refl, List, [], ◌∷◌, length, length-take, take, drop, All, IsByte, arith,
}
use slim_data_crypt.Common.Words.{store32_be}
use slim_data_crypt.Hash.Blocks.{fold_blocks}
use slim_data_crypt.Hash.Final.{digest_state}
use slim_data_crypt.Hash.Registers.{store_words}
use slim_data_crypt.Hash.Count.{bit_length}
use slim_data_crypt.Hash.Sha256.{compress, iv256, iv224}
use slim_data_crypt.Hash.Sha256.Streams.{sha256, sha224}

length-compress : (s block : List ℕ) → length (compress s block) ≡ 8
unfolding compress
length-compress s block = refl

length-fold_blocks :
    (n : ℕ) (s bytes : List ℕ) → length s ≡ 8 → length (fold_blocks 64 compress n s bytes) ≡ 8
unfolding fold_blocks
length-fold_blocks zero s bytes e = e
length-fold_blocks (suc n) s bytes e =
    length-fold_blocks n (compress s (take 64 bytes)) (drop 64 bytes)
      (length-compress s (take 64 bytes))

length-digest_state :
    (iv trailer message : List ℕ)
    → length iv ≡ 8
    → length (digest_state 64 compress iv trailer message) ≡ 8
unfolding digest_state
length-digest_state iv trailer message e = length-fold_blocks _ iv _ e

pub store_words_bytes :
    (ws : List ℕ)
    → (length (store_words store32_be ws) ≡ 4 * length ws) × All IsByte (store_words store32_be ws)
unfolding store_words store32_be
store_words_bytes [] = (refl, tt)
store_words_bytes (w ∷ ws) =
    let (l, b) = store_words_bytes ws in
    (omega (arith, l), (omega arith, (omega arith, (omega arith, (omega arith, b)))))

pub length-sha256 : (message : List ℕ) → length (sha256 message) ≡ 32
unfolding sha256
length-sha256 message = omega (
  arith,
  (store_words_bytes (digest_state 64 compress iv256 (bit_length message) message)).0,
  length-digest_state iv256 (bit_length message) message refl,
)

pub sha256-IsByte : (message : List ℕ) → All IsByte (sha256 message)
unfolding sha256
sha256-IsByte message =
    (store_words_bytes (digest_state 64 compress iv256 (bit_length message) message)).1

pub length-sha224 : (message : List ℕ) → length (sha224 message) ≡ 28
unfolding sha224
length-sha224 message =
    let s = digest_state 64 compress iv224 (bit_length message) message in
    omega (
      arith,
      (store_words_bytes (take 7 s)).0,
      length-take 7 s,
      length-digest_state iv224 (bit_length message) message refl,
    )
