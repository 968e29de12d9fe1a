-- ===== src/Hash/Update.antt =====
-- `update` of the hashes: the compression of the whole blocks of a message, and its rest in the
-- buffer.
use mathlib.Core.Path.{subst}
use slim_data_crypt.Common.{
  ℕ, zero, suc, ◌+◌, ◌-◌, ◌*◌, ◌≤◌, ◌<◌, ◌≡◌, refl, ap, sym, ◌∙◌, true, false, List, [], ◌∷◌, ◌++◌,
  length, take, drop, write_at, length-append, length-take, length-drop, length-write_at,
  take-write_at, take_all, take-append-drop, empty_of_length, append_assoc, append-nil, ltb, ◌==◌,
  Bool-cases, inl, inr, arith,
}
use slim_data_crypt.Hash.{
  Ctx, transform, wanted, fill, whole_blocks, keep_rest, take_blocks, absorb,
}
use slim_data_crypt.Hash.Blocks.{fold_blocks, fold_blocks-next}

-- `c` has taken `message`, from the initial state `iv` on.
pub record Holds {C : Type 0} (size : ℕ) (compress : List ℕ → List ℕ → List ℕ) (iv : List ℕ)
    (c : Ctx C) (message : List ℕ) : Type 0 where
  pub blocks : ℕ
  pub front : List ℕ
  pub tail : List ℕ
  pub parts : message ≡ front ++ tail
  pub whole : length front ≡ blocks * size
  pub state : c.state ≡ fold_blocks size compress blocks iv front
  pub buffered : take c.len c.buffer ≡ tail
  pub rest : c.len < size
  pub room : length c.buffer ≡ size

module _ {C : Type 0} (size : ℕ) (compress : List ℕ → List ℕ → List ℕ) (iv : List ℕ)
    (positive : 0 < size) where
  pub start-Holds :
      (c : Ctx C) → c.state ≡ iv → c.len ≡ 0 → length c.buffer ≡ size → Holds size compress iv c []
  unfolding fold_blocks
  start-Holds c s z r = record {
    blocks = 0;
    front = [];
    tail = [];
    parts = refl;
    whole = omega arith;
    state = s;
    buffered = ap (λ k. take k c.buffer) z;
    rest = omega arith;
    room = r;
  }

  -- `keep_rest` on less than a block.
  keep_rest-Holds :
      (c : Ctx C) (n : ℕ) (front input : List ℕ)
      → length front ≡ n * size
      → c.state ≡ fold_blocks size compress n iv front
      → c.len ≡ 0
      → length c.buffer ≡ size
      → length input < size
      → Holds size compress iv (keep_rest size compress c input) (front ++ input)
  unfolding keep_rest
  keep_rest-Holds c n front [] e s z r h = record {
    blocks = n;
    front = front;
    tail = [];
    parts = refl;
    whole = e;
    state = s;
    buffered = ap (λ k. take k c.buffer) z;
    rest = omega arith;
    room = r;
  }
  keep_rest-Holds c n front (x ∷ xs) e s z r h =
      let some_left : (length (x ∷ xs) == 0) ≡ false = ground arith in
      rw some_left (record {
        blocks = n;
        front = front;
        tail = x ∷ xs;
        parts = refl;
        whole = e;
        state = s;
        buffered = take-write_at 0 (x ∷ xs) c.buffer (length (x ∷ xs)) (omega arith) (omega arith);
        rest = h;
        room = length-write_at 0 (x ∷ xs) c.buffer ∙ r;
      })

  take_blocks-Holds :
      (fuel : ℕ) (c : Ctx C) (n : ℕ) (front input : List ℕ)
      → length input ≤ fuel
      → length front ≡ n * size
      → c.state ≡ fold_blocks size compress n iv front
      → c.len ≡ 0
      → length c.buffer ≡ size
      → let r = whole_blocks size compress fuel c input in
        Holds size compress iv (keep_rest size compress r.0 r.1) (front ++ input)
  unfolding whole_blocks transform
  take_blocks-Holds zero c n front input f e s z r =
      keep_rest-Holds c n front input e s z r (omega arith)
  take_blocks-Holds (suc fuel) c n front input f e s z r =
      elim (Bool-cases (ltb (length input) size)) [
        | inl few ↦ rw few (keep_rest-Holds c n front input e s z r (ground arith))
        | inr many ↦
            let enough : size ≤ length input = ground arith in
            let block = take size input in
            let full : length block ≡ size = omega (arith, length-take size input) in
            rw many (
              subst
                (λ m.
                  Holds size compress iv
                    (let q =
                        whole_blocks size compress fuel (transform size compress c input)
                          (drop size input) in
                      keep_rest size compress q.0 q.1)
                    m)
                (append_assoc front block (drop size input)
                  ∙ ap (λ t. front ++ t) (take-append-drop size input))
                (take_blocks-Holds fuel (transform size compress c input) (n + 1) (front ++ block)
                  (drop size input) (omega (arith, length-drop size input))
                  (grind (arith, length-append front block))
                  (ap (λ t. compress t block) s
                    ∙ sym (fold_blocks-next size compress n iv front block e full))
                  z r))
      ]

  -- A context whose buffer is empty.
  from_empty :
      (c : Ctx C) (n : ℕ) (front input : List ℕ)
      → length front ≡ n * size
      → c.state ≡ fold_blocks size compress n iv front
      → c.len ≡ 0
      → length c.buffer ≡ size
      → Holds size compress iv (take_blocks size compress c input) (front ++ input)
  unfolding take_blocks
  from_empty c n front input = take_blocks-Holds (length input) c n front input (omega arith)

  -- A copy behind what the buffer holds.
  pub piled :
      (c : Ctx C) (message vs : List ℕ) (h : Holds size compress iv c message) (k : ℕ)
      → k ≡ c.len + length vs
      → k ≤ size
      → take k (write_at c.len vs c.buffer) ≡ h.tail ++ vs
  piled c message vs h k e fits =
      take-write_at c.len vs c.buffer k e (omega (arith, h.room)) ∙ ap (λ t. t ++ vs) h.buffered

  -- Too little to fill the buffer.
  fill_few :
      (c : Ctx C) (message input : List ℕ)
      → Holds size compress iv c message
      → length input < size - c.len
      → Holds size compress iv (fill size compress c input (length input)) (message ++ input)
  unfolding fill
  fill_few c message input h few =
      let not_full : (c.len + length input == size) ≡ false = ground (arith, h.rest) in
      rw not_full (record {
        blocks = h.blocks;
        front = h.front;
        tail = h.tail ++ input;
        parts = ap (λ t. t ++ input) h.parts ∙ append_assoc h.front h.tail input;
        whole = h.whole;
        state = h.state;
        buffered =
            ap (λ t. take (c.len + length input) (write_at c.len t c.buffer))
              (take_all input (length input) (omega arith))
            ∙ piled c message input h (c.len + length input) refl (omega arith);
        rest = omega arith;
        room = length-write_at c.len (take (length input) input) c.buffer ∙ h.room;
      })

  -- Enough to fill it.
  fill_enough :
      (c : Ctx C) (message input : List ℕ)
      → Holds size compress iv c message
      → size - c.len ≤ length input
      → Holds size compress iv
          (take_blocks size compress
            (fill size compress c input (size - c.len))
            (drop (size - c.len) input))
          (message ++ input)
  unfolding fill transform
  fill_enough c message input h enough =
      let want = size - c.len in
      let full : (c.len + want == size) ≡ true = ground (arith, h.rest) in
      let vs = take want input in
      let copied : length vs ≡ want = omega (arith, length-take want input) in
      let block = write_at c.len vs c.buffer in
      let size_of_tail : length h.tail ≡ c.len =
        sym (ap length h.buffered) ∙ omega (arith, length-take c.len c.buffer, h.room, h.rest) in
      let filled : take size block ≡ h.tail ++ vs =
        piled c message vs h size (omega (arith, h.rest)) (omega arith) in
      let whole_block : length (h.tail ++ vs) ≡ size =
        omega (arith, length-append h.tail vs, h.rest) in
      let joined : (h.front ++ (h.tail ++ vs)) ++ drop want input ≡ message ++ input =
        simp (append_assoc, take-append-drop want input, h.parts) in
      rw full (
        subst
          (λ m.
            Holds size compress iv
              (take_blocks size compress
                (record c { state = compress c.state (take size block); buffer = block; len = 0 })
                (drop want input))
              m)
          joined
          (from_empty _ (h.blocks + 1) (h.front ++ (h.tail ++ vs)) (drop want input)
            (grind (arith, length-append h.front (h.tail ++ vs), h.whole))
            (ap (compress c.state) filled
              ∙ ap (λ t. compress t (h.tail ++ vs)) h.state
              ∙ sym (
                  fold_blocks-next size compress h.blocks iv h.front (h.tail ++ vs) h.whole
                    whole_block))
            refl (length-write_at c.len vs c.buffer ∙ h.room)))

  nothing_held :
      (c : Ctx C) (message : List ℕ) (h : Holds size compress iv c message)
      → c.len ≡ 0
      → h.tail ≡ []
  nothing_held c message h e = sym h.buffered ∙ ap (λ k. take k c.buffer) e

  take_blocks-nil : (c : Ctx C) → take_blocks size compress c [] ≡ c
  unfolding take_blocks whole_blocks keep_rest
  take_blocks-nil c = refl

  -- `update` after the counter: the context has then taken the message and the input.
  pub absorb-Holds :
      (c : Ctx C) (message input : List ℕ)
      → Holds size compress iv c message
      → Holds size compress iv (absorb size compress c input) (message ++ input)
  unfolding absorb wanted
  absorb-Holds c message input h = elim (Bool-cases (c.len == 0)) [
    | inl none_held ↦ rw none_held (
        subst (λ m. Holds size compress iv (take_blocks size compress c input) (m ++ input))
          (sym (
            h.parts
            ∙ ap (λ t. h.front ++ t) (nothing_held c message h (ground arith))
            ∙ append-nil h.front))
          (from_empty c h.blocks h.front input h.whole h.state (ground arith) h.room))
    | inr some_held ↦ rw some_held (elim (Bool-cases (ltb (length input) (size - c.len))) [
      | inl few ↦ rw few (
          subst
            (λ d.
              Holds size compress iv
                (take_blocks size compress (fill size compress c input (length input)) d)
                (message ++ input))
            (sym (
              empty_of_length (drop (length input) input)
                (omega (arith, length-drop (length input) input))))
            (rw (take_blocks-nil (fill size compress c input (length input)))
              (fill_few c message input h (ground arith))))
      | inr many ↦ rw many (fill_enough c message input h (ground arith))
    ])
  ]

module _ {C : Type 0} (size : ℕ) (compress : List ℕ → List ℕ → List ℕ) where
  take_blocks-count :
      (fuel : ℕ) (c : Ctx C) (input : List ℕ)
      → let r = whole_blocks size compress fuel c input in
        (keep_rest size compress r.0 r.1).count ≡ c.count
  unfolding whole_blocks keep_rest transform
  take_blocks-count zero c [] = refl
  take_blocks-count zero c (x ∷ xs) = ground arith
  take_blocks-count (suc fuel) c input =
      ground (arith, take_blocks-count fuel (transform size compress c input) (drop size input))

  fill-count :
      (c : Ctx C) (input : List ℕ) (want : ℕ) → (fill size compress c input want).count ≡ c.count
  unfolding fill transform
  fill-count c input want = ground arith

  -- The counter is left alone.
  pub absorb-count : (c : Ctx C) (input : List ℕ) → (absorb size compress c input).count ≡ c.count
  unfolding absorb take_blocks
  absorb-count c input =
      let want = wanted size compress c input in
      let first = take_blocks-count (length input) c input in
      let later =
        take_blocks-count (length (drop want input)) (fill size compress c input want)
          (drop want input)
        ∙ fill-count c input want in
      elim (Bool-cases (c.len == 0)) [ inl e ↦ rw e first | inr e ↦ rw e later ]
