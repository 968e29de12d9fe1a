-- ===== src/Hash/Sha256/Streams.antt =====
-- The functions of src/sha/sha256.c on a message in pieces, and at once.
use slim_data_crypt.Common.{ℕ, ◌≡◌, refl, ap, ◌∙◌, List, [], ◌∷◌, ◌++◌, append-nil, length, take}
use slim_data_crypt.Common.Words.{store32_be}
use slim_data_crypt.Hash.{Ctx}
use slim_data_crypt.Hash.Count.{Took, start-Took, update-Took, finish-Took, bit_length}
use slim_data_crypt.Hash.Final.{digest_state}
use slim_data_crypt.Hash.Registers.{store_words}
use slim_data_crypt.Hash.Streams.{feed, joined, feed-joined, Any, All-Any}
use slim_data_crypt.Hash.Sha256.{
  compress, iv256, iv224, init, update, final, hash, init_224, update_224, final_224, hash_224,
}

-- The padded message, compressed block by block, and the words of the last state as bytes: all of
-- it for SHA-256, seven words for SHA-224.
unfoldable pub sha256 : List ℕ → List ℕ
sha256 message =
    store_words store32_be (digest_state 64 compress iv256 (bit_length message) message)

unfoldable pub sha224 : List ℕ → List ℕ
sha224 message =
    store_words store32_be (take 7 (digest_state 64 compress iv224 (bit_length message) message))

pub init-Took : (c : Ctx ℕ) → length c.buffer ≡ 64 → Took compress iv256 (init c) []
unfolding init
init-Took c r = start-Took compress iv256 _ refl refl refl r

init_224-Took : (c : Ctx ℕ) → length c.buffer ≡ 64 → Took compress iv224 (init_224 c) []
unfolding init_224
init_224-Took c r = start-Took compress iv224 _ refl refl refl r

pub update_lem :
    (iv : List ℕ) (c : Ctx ℕ) (message input : List ℕ)
    → Took compress iv c message
    → Took compress iv (update c input) (message ++ input)
unfolding update
update_lem iv c message input t = update-Took compress iv c message input t

pub final_lem :
    (c : Ctx ℕ) (message : List ℕ) → Took compress iv256 c message → (final c).1 ≡ sha256 message
unfolding final sha256
final_lem c message t = ap (store_words store32_be) (finish-Took compress iv256 c message _ t refl)

final_224_lem :
    (c : Ctx ℕ) (message : List ℕ)
    → Took compress iv224 c message
    → (final_224 c).1 ≡ sha224 message
unfolding final_224 sha224
final_224_lem c message t =
    ap (λ s. store_words store32_be (take 7 s)) (finish-Took compress iv224 c message _ t refl)

-- On a context with a buffer of 64 bytes, whatever it holds: initialise, update with any pieces,
-- and finish; that gives the SHA-256 of the pieces put together.
pub feed-sha256 :
    (c : Ctx ℕ) (pieces : List (List ℕ))
    → length c.buffer ≡ 64
    → (final (feed update (init c) pieces)).1 ≡ sha256 (joined pieces)
feed-sha256 c pieces r = final_lem (feed update (init c) pieces) (joined pieces) (
    feed-joined update (Took compress iv256) Any (λ c m i q. update_lem iv256 c m i) (init c) []
      pieces (All-Any pieces) (init-Took c r))

-- On a context with a buffer of 64 bytes: SHA-224 of the pieces put together.
pub feed-sha224 :
    (c : Ctx ℕ) (pieces : List (List ℕ))
    → length c.buffer ≡ 64
    → (final_224 (feed update_224 (init_224 c) pieces)).1 ≡ sha224 (joined pieces)
unfolding update_224
feed-sha224 c pieces r = final_224_lem (feed update_224 (init_224 c) pieces) (joined pieces) (
    feed-joined update_224 (Took compress iv224) Any (λ c m i q. update_lem iv224 c m i)
      (init_224 c) [] pieces (All-Any pieces) (init_224-Took c r))

pub hash_lem : (c : Ctx ℕ) (input : List ℕ) → length c.buffer ≡ 64 → hash c input ≡ sha256 input
unfolding hash feed joined
hash_lem c input r = feed-sha256 c (input ∷ []) r ∙ ap sha256 (append-nil input)

pub hash_224_lem :
    (c : Ctx ℕ) (input : List ℕ) → length c.buffer ≡ 64 → hash_224 c input ≡ sha224 input
unfolding hash_224 feed joined
hash_224_lem c input r = feed-sha224 c (input ∷ []) r ∙ ap sha224 (append-nil input)
