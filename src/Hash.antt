-- ===== src/Hash.antt =====
-- The buffering that src/sha/sha256.c, src/sha/sha512.c and src/sm3/sm3.c share: a context takes
-- data in pieces of any size and compresses whole blocks. The functions of the three files differ
-- in the size of the block, the compression and the counter, which are arguments here.
use slim_data_crypt.Common.{
  ℕ, zero, suc, ◌+◌, ◌-◌, List, Bool, [], ◌∷◌, length, take, drop, write_at, replicate, ltb, ◌==◌,
  if◌then◌else◌, ◌*◌, ◌^◌, ◌%◌, u64,
}
pub mod Blocks
pub mod Update
pub mod Final
pub mod Count
pub mod Registers
pub mod Streams
pub mod Sha256
pub mod Sha512
pub mod Sm3
pub mod Dispatch
mod Tests

-- `sdc_sha256_ctx` of include/sdcrypt/sha.h, over the type of its counter.
pub record Ctx (C : Type 0) : Type 0 where
  pub state : List ℕ
  pub count : C
  pub buffer : List ℕ
  pub len : ℕ

module _ {C : Type 0} (size : ℕ) (compress : List ℕ → List ℕ → List ℕ) where
  -- `transform` on the block at the front of `block`.
  unfoldable pub transform : Ctx C → List ℕ → Ctx C
  transform c block = record c { state = compress c.state (take size block) }

  -- `if (want > len) want = len;`
  unfoldable pub wanted : Ctx C → List ℕ → ℕ
  wanted c input = let want = size - c.len in if ltb (length input) want then length input else want

  -- The copy to the end of the buffer, and the transform of a full buffer.
  unfoldable pub fill : Ctx C → List ℕ → ℕ → Ctx C
  fill c input want =
      let c' = record c {
        buffer = write_at c.len (take want input) c.buffer;
        len = c.len + want;
      } in
      if c'.len == size then record (transform c' c'.buffer) { len = 0 } else c'

  -- `while (len >= size)`. Each round takes a block, so that the length is enough fuel.
  unfoldable pub whole_blocks : ℕ → Ctx C → List ℕ → Ctx C × List ℕ
  whole_blocks zero c input = (c, input)
  whole_blocks (suc fuel) c input =
      let rest = whole_blocks fuel (transform c input) (drop size input) in
      if ltb (length input) size then (c, input) else rest

  -- `if (len)`: what is left goes to the buffer.
  unfoldable pub keep_rest : Ctx C → List ℕ → Ctx C
  keep_rest c input =
      if length input == 0
      then c
      else record c { buffer = write_at 0 input c.buffer; len = length input }

  -- What follows the buffer.
  unfoldable pub take_blocks : Ctx C → List ℕ → Ctx C
  take_blocks c input = let rest = whole_blocks (length input) c input in keep_rest rest.0 rest.1

  -- The body of `update` after the counter.
  unfoldable pub absorb : Ctx C → List ℕ → Ctx C
  absorb c input =
      if c.len == 0
      then take_blocks c input
      else let want = wanted c input in take_blocks (fill c input want) (drop want input)

  -- The rest of the buffer is zeroed from `i` on, and the buffer is compressed.
  unfoldable pub flush : Ctx C → ℕ → Ctx C
  flush c i =
      let zeroed = record c { buffer = write_at i (replicate (size - i) 0) c.buffer } in
      transform zeroed zeroed.buffer

  -- The zeros from `i` on, the length at the end, and the last transform.
  unfoldable pub place_length : List ℕ → ℕ → Ctx C → Ctx C
  place_length trailer i c =
      let room = size - length trailer in
      let zeros = record c { buffer = write_at i (replicate (room - i) 0) c.buffer } in
      let last = record zeros { buffer = write_at room trailer zeros.buffer } in
      transform last last.buffer

  -- The body of `final` before the output. `full` tells whether the buffer has no room for the
  -- length, which takes the bytes `trailer` at its end.
  unfoldable pub finish : Bool → List ℕ → Ctx C → Ctx C
  finish full trailer c =
      let i = c.len + 1 in
      let marked = record c { buffer = write_at c.len (0x80 ∷ []) c.buffer } in
      if full then place_length trailer 0 (flush marked i) else place_length trailer i marked

-- `ctx->count += (uint64_t)len * 8;`
unfoldable pub count_bits : Ctx ℕ → List ℕ → Ctx ℕ
count_bits c input = record c { count = u64 (c.count + u64 (length input * 8)) }
