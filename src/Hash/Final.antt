-- ===== src/Hash/Final.antt =====
-- `final` of the hashes, and the padding of FIPS 180-4 and GB/T 32905.
use native.Mathlib.Nat.{mul-div_cancel, add-mul-mod_self_right, mod-eq_of_lt, add-mod_right}
use slim_data_crypt.Common.{
  ℕ, zero, suc, ◌+◌, ◌-◌, ◌*◌, ◌/◌, ◌%◌, ◌≤◌, ◌<◌, ◌≡◌, refl, ap, sym, ◌∙◌, Bool, true, false, List,
  [], ◌∷◌, ◌++◌, length, take, write_at, replicate, length-append, length-take, length-write_at,
  length-replicate, take-write_at, take_all, append_assoc, ltb, arith,
}
use slim_data_crypt.Hash.{Ctx, transform, flush, place_length, finish}
use slim_data_crypt.Hash.Blocks.{fold_blocks, fold_blocks-add, fold_blocks_two}
use slim_data_crypt.Hash.Update.{Holds, piled}

-- The fewest zeros that, behind the octet 0x80, fill up to a whole number of blocks with a length
-- field of `field` bytes.
unfoldable pub zeros_after : ℕ → ℕ → ℕ → ℕ
zeros_after size field n = (2 * size - field - 1 - n % size) % size

unfoldable pub padded : ℕ → List ℕ → List ℕ → List ℕ
padded size trailer message =
    message
    ++ (0x80 ∷ (replicate (zeros_after size (length trailer) (length message)) 0 ++ trailer))

-- The state after a padded message.
unfoldable pub digest_state : ℕ → (List ℕ → List ℕ → List ℕ) → List ℕ → List ℕ → List ℕ → List ℕ
digest_state size compress iv trailer message =
    let bytes = padded size trailer message in
    fold_blocks size compress (length bytes / size) iv bytes

replicate-add {ℓ} :
    {A : Type ℓ} (m n : ℕ) (a : A) → replicate (m + n) a ≡ replicate m a ++ replicate n a
replicate-add zero n a = ap (λ k. replicate k a) (let e : 0 + n ≡ n = omega arith in e)
replicate-add (suc m) n a =
    ap (λ k. replicate k a) (let e : suc m + n ≡ suc (m + n) = omega arith in e)
    ∙ ap (λ t. a ∷ t) (replicate-add m n a)

module _ (size field : ℕ) (fits : field < size) where
  -- How many zeros the padding has, with and without room in the block that has been begun.
  zeros_one :
      (k b : ℕ)
      → k + 1 + field ≤ size
      → zeros_after size (field) (k + b * size) ≡ size - field - (k + 1)
  unfolding zeros_after
  zeros_one k b h =
      let r : (k + b * size) % size ≡ k =
        add-mul-mod_self_right k b size ∙ mod-eq_of_lt (omega arith) in
      let z = size - field - (k + 1) in
      ap (λ t. (2 * size - field - 1 - t) % size) r
      ∙ ap (λ t. t % size) (let e : 2 * size - field - 1 - k ≡ z + size = omega arith in e)
      ∙ add-mod_right z size
      ∙ mod-eq_of_lt (omega arith)

  zeros_two :
      (k b : ℕ)
      → k < size
      → size < k + 1 + field
      → zeros_after size (field) (k + b * size) ≡ (size - (k + 1)) + (size - field - 0)
  unfolding zeros_after
  zeros_two k b l h =
      let r : (k + b * size) % size ≡ k = add-mul-mod_self_right k b size ∙ mod-eq_of_lt l in
      ap (λ t. (2 * size - field - 1 - t) % size) r ∙ mod-eq_of_lt (omega arith) ∙ omega arith

module _ {C : Type 0} (size : ℕ) (compress : List ℕ → List ℕ → List ℕ) where
  flush_lem :
      (c : Ctx C) (i : ℕ) (xs : List ℕ)
      → length c.buffer ≡ size
      → i ≤ size
      → take i c.buffer ≡ xs
      → (flush size compress c i).state ≡ compress c.state (xs ++ replicate (size - i) 0)
  unfolding flush transform
  flush_lem c i xs r h e = ap (compress c.state) (
      take-write_at i (replicate (size - i) 0) c.buffer size
        (omega (arith, length-replicate {A = ℕ} (size - i) 0)) (omega arith)
      ∙ ap (λ t. t ++ replicate (size - i) 0) e)

  flush_room :
      (c : Ctx C) (i : ℕ) → length c.buffer ≡ size → length (flush size compress c i).buffer ≡ size
  unfolding flush transform
  flush_room c i r = length-write_at i (replicate (size - i) 0) c.buffer ∙ r

  place_length_lem :
      (trailer : List ℕ) (c : Ctx C) (i : ℕ) (xs : List ℕ)
      → length c.buffer ≡ size
      → length trailer ≤ size
      → i ≤ size - length trailer
      → take i c.buffer ≡ xs
      → (place_length size compress trailer i c).state
        ≡ compress c.state ((xs ++ replicate (size - length trailer - i) 0) ++ trailer)
  unfolding place_length transform
  place_length_lem trailer c i xs r t h e =
      let room = size - length trailer in
      let zeros = replicate (room - i) 0 in
      let zeroed = write_at i zeros c.buffer in
      ap (compress c.state) (
        take-write_at room trailer zeroed size (omega arith)
          (omega (arith, length-write_at i zeros c.buffer))
        ∙ ap (λ s. s ++ trailer)
            (take-write_at i zeros c.buffer room
                (omega (arith, length-replicate {A = ℕ} (room - i) 0)) (omega arith)
              ∙ ap (λ s. s ++ zeros) e))

  module _ (iv : List ℕ) (trailer : List ℕ) (fits : length trailer < size) where
    -- The message with its padding, as what the context has compressed and the last blocks.
    padding :
        (c : Ctx C) (message : List ℕ) (h : Holds size compress iv c message) (k : ℕ)
        → zeros_after size (length trailer) (length message) ≡ k
        → padded size trailer message ≡ h.front ++ (h.tail ++ (0x80 ∷ (replicate k 0 ++ trailer)))
    unfolding padded
    padding c message h k e =
        rw e (
          ap (λ m. m ++ (0x80 ∷ (replicate k 0 ++ trailer))) h.parts
          ∙ append_assoc h.front h.tail _)

    length_parts :
        (c : Ctx C) (message : List ℕ) (h : Holds size compress iv c message)
        → (length h.tail ≡ c.len) × (length message ≡ c.len + h.blocks * size)
    length_parts c message h =
        let t : length h.tail ≡ c.len =
          sym (ap length h.buffered) ∙ omega (arith, length-take c.len c.buffer, h.room, h.rest) in
        (t, ap length h.parts ∙ omega (arith, length-append h.front h.tail, h.whole, t))

    -- The blocks that are left, compressed behind those that the context has compressed.
    digest_blocks :
        (c : Ctx C) (message : List ℕ) (h : Holds size compress iv c message) (n : ℕ)
        (last : List ℕ)
        → padded size trailer message ≡ h.front ++ last
        → length last ≡ n * size
        → digest_state size compress iv trailer message ≡ fold_blocks size compress n c.state last
    unfolding digest_state
    digest_blocks c message h n last e l =
        let count : length (padded size trailer message) ≡ (h.blocks + n) * size =
          ap length e ∙ grind (arith, length-append h.front last, h.whole) in
        let blocks : length (padded size trailer message) / size ≡ h.blocks + n =
          ap (λ k. k / size) count ∙ mul-div_cancel (h.blocks + n) (omega arith) in
        ap (λ k. fold_blocks size compress k iv (padded size trailer message)) blocks
        ∙ ap (fold_blocks size compress (h.blocks + n) iv) e
        ∙ fold_blocks-add size compress h.blocks n iv h.front last h.whole
        ∙ ap (λ s. fold_blocks size compress n s last) (sym h.state)

    -- The buffer with the mark behind the message.
    marked :
        (c : Ctx C) (message : List ℕ) (h : Holds size compress iv c message)
        → take (c.len + 1) (write_at c.len (0x80 ∷ []) c.buffer) ≡ h.tail ++ (0x80 ∷ [])
    marked c message h =
        piled size compress iv (omega arith) c message (0x80 ∷ []) h (c.len + 1) (omega arith)
          (omega (arith, h.rest))

    -- `final` with room for the length in the last block.
    finish_one :
        (c : Ctx C) (message : List ℕ)
        → Holds size compress iv c message
        → c.len + 1 + length trailer ≤ size
        → (finish size compress false trailer c).state
          ≡ digest_state size compress iv trailer message
    unfolding finish fold_blocks
    finish_one c message h fit =
        let (t, m) = length_parts c message h in
        let mark = write_at c.len (0x80 ∷ []) c.buffer in
        let zeros = size - length trailer - (c.len + 1) in
        let last = ((h.tail ++ (0x80 ∷ [])) ++ replicate zeros 0) ++ trailer in
        let size_last : length last ≡ size =
          simp (length-append, length-replicate) (omega (arith, t)) in
        place_length_lem trailer (record c { buffer = mark }) (c.len + 1) (h.tail ++ (0x80 ∷ []))
          (length-write_at c.len (0x80 ∷ []) c.buffer ∙ h.room) (omega arith) (omega arith)
          (marked c message h)
        ∙ sym (
            digest_blocks c message h 1 last
              (padding c message h zeros (
                  ap (zeros_after size (length trailer)) m
                  ∙ zeros_one size (length trailer) fits c.len h.blocks fit)
                ∙ simp append_assoc)
              (size_last ∙ omega arith)
            ∙ ap (compress c.state) (take_all last size (omega (arith, size_last))))

    -- `final` where the mark leaves no room for it.
    finish_two :
        (c : Ctx C) (message : List ℕ)
        → Holds size compress iv c message
        → size < c.len + 1 + length trailer
        → (finish size compress true trailer c).state
          ≡ digest_state size compress iv trailer message
    unfolding finish fold_blocks
    finish_two c message h over =
        let (t, m) = length_parts c message h in
        let mark = write_at c.len (0x80 ∷ []) c.buffer in
        let long = length-write_at c.len (0x80 ∷ []) c.buffer ∙ h.room in
        let flushed = flush size compress (record c { buffer = mark }) (c.len + 1) in
        let z1 = size - (c.len + 1) in
        let z2 = size - length trailer - 0 in
        let block1 = (h.tail ++ (0x80 ∷ [])) ++ replicate z1 0 in
        let block2 = replicate z2 0 ++ trailer in
        let size1 : length block1 ≡ size =
          simp (length-append, length-replicate) (omega (arith, t, h.rest)) in
        let size2 : length block2 ≡ size = simp (length-append, length-replicate) (omega arith) in
        place_length_lem trailer flushed 0 []
          (flush_room (record c { buffer = mark }) (c.len + 1) long) (omega arith) (omega arith)
          refl
        ∙ ap (λ s. compress s block2)
            (flush_lem (record c { buffer = mark }) (c.len + 1) (h.tail ++ (0x80 ∷ [])) long
              (omega (arith, h.rest)) (marked c message h))
        ∙ sym (
            digest_blocks c message h 2 (block1 ++ block2)
              (padding c message h (z1 + z2) (
                  ap (zeros_after size (length trailer)) m
                  ∙ zeros_two size (length trailer) fits c.len h.blocks h.rest over)
                ∙ ap (λ z. h.front ++ (h.tail ++ (0x80 ∷ (z ++ trailer)))) (replicate-add z1 z2 0)
                ∙ simp append_assoc)
              (length-append block1 block2 ∙ omega (arith, size1, size2))
            ∙ fold_blocks_two size compress c.state block1 block2 size1 size2)

    -- `final`, told rightly whether the block has room: the state after the padded message.
    pub finish-digest_state :
        (c : Ctx C) (message : List ℕ) (full : Bool)
        → Holds size compress iv c message
        → full ≡ ltb (size - length trailer - 1) c.len
        → (finish size compress full trailer c).state
          ≡ digest_state size compress iv trailer message
    finish-digest_state c message true h e = finish_two c message h (ground arith)
    finish-digest_state c message false h e = finish_one c message h (ground (arith, h.rest))
