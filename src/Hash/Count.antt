-- ===== src/Hash/Count.antt =====
-- The counter of bits of SHA-256 and SM3 beside the buffer.
use slim_data_crypt.Common.{
  ℕ, ◌*◌, ◌^◌, ◌%◌, ◌≡◌, ap, ◌∙◌, List, [], ◌++◌, Bool, length, length-append, ltb, arith,
}
use slim_data_crypt.Common.Words.{store64_be}
use slim_data_crypt.Hash.{Ctx, absorb, finish, count_bits}
use slim_data_crypt.Hash.Update.{Holds, start-Holds, absorb-Holds, absorb-count}
use slim_data_crypt.Hash.Final.{digest_state, finish-digest_state}

-- The context has taken the message and counted its bits, modulo 2 ^ 64.
pub record Took (compress : List ℕ → List ℕ → List ℕ) (iv : List ℕ) (c : Ctx ℕ) (message : List ℕ)
    : Type 0 where
  pub holds : Holds 64 compress iv c message
  pub counted : c.count ≡ length message * 8 % 2 ^ 64

-- The length field of the padding.
unfoldable pub bit_length : List ℕ → List ℕ
bit_length message = store64_be (length message * 8 % 2 ^ 64)

module _ (compress : List ℕ → List ℕ → List ℕ) (iv : List ℕ) where
  pub update-Took :
      (c : Ctx ℕ) (message input : List ℕ)
      → Took compress iv c message
      → Took compress iv (absorb 64 compress (count_bits c input) input) (message ++ input)
  unfolding count_bits
  update-Took c message input t = record {
    holds = absorb-Holds 64 compress iv (omega arith) (count_bits c input) message input (
        let h = t.holds in
        record {
          blocks = h.blocks;
          front = h.front;
          tail = h.tail;
          parts = h.parts;
          whole = h.whole;
          state = h.state;
          buffered = h.buffered;
          rest = h.rest;
          room = h.room;
        });
    counted =
        absorb-count 64 compress (count_bits c input) input
        ∙ omega (arith, t.counted, length-append message input);
  }

  pub finish-Took :
      (c : Ctx ℕ) (message : List ℕ) (full : Bool)
      → Took compress iv c message
      → full ≡ ltb 55 c.len
      → (finish 64 compress full (store64_be c.count) c).state
        ≡ digest_state 64 compress iv (bit_length message) message
  unfolding bit_length
  finish-Took c message full t e =
      let at = λ (n : ℕ).
        finish-digest_state 64 compress iv (store64_be n) (unfold store64_be in omega arith) c
          message full t.holds (unfold store64_be in e) in
      at c.count ∙ ap (λ n. digest_state 64 compress iv (store64_be n) message) t.counted

  -- A context that has just been initialised.
  pub start-Took :
      (c : Ctx ℕ)
      → c.state ≡ iv
      → c.count ≡ 0
      → c.len ≡ 0
      → length c.buffer ≡ 64
      → Took compress iv c []
  start-Took c s n z r = record {
    holds = start-Holds 64 compress iv (omega arith) c s z r;
    counted = n;
  }
