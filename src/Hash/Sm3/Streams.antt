-- ===== src/Hash/Sm3/Streams.antt =====
-- The functions of src/sm3/sm3.c on a message in pieces.
use slim_data_crypt.Common.{ℕ, ◌+◌, ◌≡◌, refl, ap, List, [], length, ltb, arith}
use slim_data_crypt.Common.Words.{store32_be}
use slim_data_crypt.Hash.{Ctx}
use slim_data_crypt.Hash.Count.{Took, start-Took, update-Took, finish-Took, bit_length}
use slim_data_crypt.Hash.Final.{digest_state}
use slim_data_crypt.Hash.Registers.{store_words}
use slim_data_crypt.Hash.Streams.{feed, joined, feed-joined, Any, All-Any}
use slim_data_crypt.Hash.Sm3.{compress, iv, init, update, final}

-- The padded message, compressed block by block, and the words of the last state as bytes.
unfoldable pub sm3 : List ℕ → List ℕ
sm3 message = store_words store32_be (digest_state 64 compress iv (bit_length message) message)

same_test : (n : ℕ) → ltb 56 (n + 1) ≡ ltb 55 n
same_test n = ground arith

-- On a context with a buffer of 64 bytes, whatever it holds: initialise, update with any pieces,
-- and finish; that gives the SM3 of the pieces put together.
pub feed-sm3 :
    (c : Ctx ℕ) (pieces : List (List ℕ))
    → length c.buffer ≡ 64
    → (final (feed update (init c) pieces)).1 ≡ sm3 (joined pieces)
unfolding final init update sm3
feed-sm3 c pieces r =
    let c' = feed update (init c) pieces in
    ap (store_words store32_be) (
      finish-Took compress iv c' (joined pieces) _
        (feed-joined update (Took compress iv) Any (λ c m i q. update-Took compress iv c m i)
          (init c) [] pieces (All-Any pieces) (start-Took compress iv _ refl refl refl r))
        (same_test c'.len))
