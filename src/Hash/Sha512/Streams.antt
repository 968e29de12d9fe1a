-- ===== src/Hash/Sha512/Streams.antt =====
-- The functions of src/sha/sha512.c on a message in pieces.
use slim_data_crypt.Common.{
  ℕ, ◌*◌, ◌/◌, ◌%◌, ◌^◌, ◌<◌, ◌≡◌, refl, ap, ◌∙◌, List, [], ◌++◌, length, length-append, take, All,
  ltb, arith,
}
use slim_data_crypt.Common.Words.{store64_be}
use slim_data_crypt.Hash.{Ctx, finish}
use slim_data_crypt.Hash.Update.{Holds, start-Holds, absorb-Holds, absorb-count}
use slim_data_crypt.Hash.Final.{digest_state, finish-digest_state}
use slim_data_crypt.Hash.Registers.{store_words}
use slim_data_crypt.Hash.Streams.{feed, joined, feed-joined}
use slim_data_crypt.Hash.Sha512.{
  compress, iv512, iv384, init, update, final, init_384, update_384, final_384, count_bits,
  length_field,
}

-- The number of bits of a message, as 128 bits.
unfoldable pub bit_count : List ℕ → ℕ
bit_count message = length message * 8 % 2 ^ 128

unfoldable pub bit_length : List ℕ → List ℕ
bit_length message =
    store64_be (bit_count message / 2 ^ 64) ++ store64_be (bit_count message % 2 ^ 64)

-- The padded message, compressed block by block, and the words of the last state as bytes: all of
-- it for SHA-512, six words for SHA-384.
unfoldable pub sha512 : List ℕ → List ℕ
sha512 message =
    store_words store64_be (digest_state 128 compress iv512 (bit_length message) message)

unfoldable pub sha384 : List ℕ → List ℕ
sha384 message =
    store_words store64_be (take 6 (digest_state 128 compress iv384 (bit_length message) message))

-- The context has taken the message and counted its bits.
pub record Took (iv : List ℕ) (c : Ctx (ℕ × ℕ)) (message : List ℕ) : Type 0 where
  pub holds : Holds 128 compress iv c message
  pub low : c.count.0 ≡ bit_count message % 2 ^ 64
  pub high : c.count.1 ≡ bit_count message / 2 ^ 64

-- A piece whose bits are counted by a `uint64_t`.
abbrev pub IsCounted : List ℕ → Type 0
IsCounted piece = length piece < 2 ^ 61

count_low :
    (c : Ctx (ℕ × ℕ)) (message input : List ℕ)
    → IsCounted input
    → c.count.0 ≡ bit_count message % 2 ^ 64
    → (count_bits c input).count.0 ≡ bit_count (message ++ input) % 2 ^ 64
unfolding count_bits bit_count
count_low c message input short l = omega (arith, length-append message input)

count_high :
    (c : Ctx (ℕ × ℕ)) (message input : List ℕ)
    → IsCounted input
    → c.count.0 ≡ bit_count message % 2 ^ 64
    → c.count.1 ≡ bit_count message / 2 ^ 64
    → (count_bits c input).count.1 ≡ bit_count (message ++ input) / 2 ^ 64
unfolding count_bits bit_count
count_high c message input short l h = ground (arith, length-append message input)

pub update_lem :
    (iv : List ℕ) (c : Ctx (ℕ × ℕ)) (message input : List ℕ)
    → IsCounted input
    → Took iv c message
    → Took iv (update c input) (message ++ input)
unfolding update
update_lem iv c message input short t =
    let kept = absorb-count 128 compress (count_bits c input) input in
    record {
      holds = absorb-Holds 128 compress iv (omega arith) (count_bits c input) message input (
          unfold count_bits in
          (let h = t.holds in
            record {
              blocks = h.blocks;
              front = h.front;
              tail = h.tail;
              parts = h.parts;
              whole = h.whole;
              state = h.state;
              buffered = h.buffered;
              rest = h.rest;
              room = h.room;
            }));
      low = ap (λ p. p.0) kept ∙ count_low c message input short t.low;
      high = ap (λ p. p.1) kept ∙ count_high c message input short t.low t.high;
    }

start :
    (iv : List ℕ) (c : Ctx (ℕ × ℕ))
    → length c.buffer ≡ 128
    → Took iv (record c { state = iv; count = (0, 0); len = 0 }) []
unfolding bit_count
start iv c r = record {
  holds = start-Holds 128 compress iv (omega arith) _ refl refl r;
  low = refl;
  high = refl;
}

finish_lem :
    (iv : List ℕ) (c : Ctx (ℕ × ℕ)) (message : List ℕ)
    → Took iv c message
    → (finish 128 compress (ltb 111 c.len) (length_field c.count) c).state
      ≡ digest_state 128 compress iv (bit_length message) message
unfolding length_field bit_length
finish_lem iv c message t =
    finish-digest_state 128 compress iv (store64_be c.count.1 ++ store64_be c.count.0)
      (unfold store64_be in omega arith) c message (ltb 111 c.len) t.holds
      (unfold store64_be in refl)
    ∙ ap (λ n. digest_state 128 compress iv (store64_be n ++ store64_be c.count.0) message) t.high
    ∙ ap
        (λ n.
          digest_state 128 compress iv (store64_be (bit_count message / 2 ^ 64) ++ store64_be n)
            message)
        t.low

-- On a context with a buffer of 128 bytes, whatever it holds: initialise, update with any pieces
-- of less than 2 ^ 61 bytes each, and finish; that gives the SHA-512 of the pieces put together.
pub feed-sha512 :
    (c : Ctx (ℕ × ℕ)) (pieces : List (List ℕ))
    → length c.buffer ≡ 128
    → All IsCounted pieces
    → (final (feed update (init c) pieces)).1 ≡ sha512 (joined pieces)
unfolding final init sha512
feed-sha512 c pieces r short = ap (store_words store64_be) (
    finish_lem iv512 _ (joined pieces) (
      feed-joined update (Took iv512) IsCounted (update_lem iv512) _ [] pieces short
        (start iv512 c r)))

-- On a context with a buffer of 128 bytes, with pieces of less than 2 ^ 61 bytes each: SHA-384 of
-- the pieces put together.
pub feed-sha384 :
    (c : Ctx (ℕ × ℕ)) (pieces : List (List ℕ))
    → length c.buffer ≡ 128
    → All IsCounted pieces
    → (final_384 (feed update_384 (init_384 c) pieces)).1 ≡ sha384 (joined pieces)
unfolding final_384 init_384 update_384 sha384
feed-sha384 c pieces r short =
    ap (λ s. store_words store64_be (take 6 s))
      (finish_lem iv384 _ (joined pieces) (
        feed-joined update_384 (Took iv384) IsCounted (update_lem iv384) _ [] pieces short
          (start iv384 c r)))
