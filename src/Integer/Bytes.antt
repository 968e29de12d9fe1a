-- ===== src/Integer/Bytes.antt =====
-- src/integer/integer.c: arrays of words from and to bytes, in either order.
pub mod Back
use slim_data_crypt.Common.{
  ℕ, zero, suc, ◌+◌, ◌*◌, ◌^◌, ◌≡◌, refl, ap, sym, ◌∙◌, List, [], ◌∷◌, ◌++◌, append_assoc,
  append-nil, length, drop, All, arith,
}
use slim_data_crypt.Common.Words.{load64_be, load64_le, store64_be, store64_le}
use slim_data_crypt.Common.Words.Load.{load64_be-store64_be, load64_le-store64_le}
use slim_data_crypt.Asn1.Der.{be_value, be_value-append}
use slim_data_crypt.Integer.{IsWord, value}

-- `sdc_int_frombytes_le`, of `len` words.
unfoldable pub frombytes_le : ℕ → List ℕ → List ℕ
frombytes_le zero input = []
frombytes_le (suc len) input = load64_le input ∷ frombytes_le len (drop 8 input)

-- `sdc_int_tobytes_le`.
unfoldable pub tobytes_le : List ℕ → List ℕ
tobytes_le [] = []
tobytes_le (w ∷ ws) = store64_le w ++ tobytes_le ws

-- The loop of `sdc_int_frombytes_be`, which fills the array from its end; `filled` is what it has.
unfoldable pub frombytes_be_loop : ℕ → List ℕ → List ℕ → List ℕ
frombytes_be_loop zero input filled = filled
frombytes_be_loop (suc len) input filled =
    frombytes_be_loop len (drop 8 input) (load64_be input ∷ filled)

-- `sdc_int_frombytes_be`.
unfoldable pub frombytes_be : ℕ → List ℕ → List ℕ
frombytes_be len input = frombytes_be_loop len input []

-- `sdc_int_tobytes_be`, which takes the words from the last one down.
unfoldable pub tobytes_be : List ℕ → List ℕ
tobytes_be [] = []
tobytes_be (w ∷ ws) = tobytes_be ws ++ store64_be w

load64_le-store64_le_front :
    (w : ℕ) (rest : List ℕ) → load64_le (store64_le w ++ rest) ≡ load64_le (store64_le w)
unfolding load64_le store64_le
load64_le-store64_le_front w rest = refl

load64_be-store64_be_front :
    (w : ℕ) (rest : List ℕ) → load64_be (store64_be w ++ rest) ≡ load64_be (store64_be w)
unfolding load64_be store64_be
load64_be-store64_be_front w rest = refl

drop_word_le : (w : ℕ) (rest : List ℕ) → drop 8 (store64_le w ++ rest) ≡ rest
unfolding store64_le
drop_word_le w rest = refl

drop_word_be : (w : ℕ) (rest : List ℕ) → drop 8 (store64_be w ++ rest) ≡ rest
unfolding store64_be
drop_word_be w rest = refl

-- Words come back from their bytes, the lowest byte first.
pub frombytes_le-tobytes_le :
    (ws : List ℕ) → All IsWord ws → frombytes_le (length ws) (tobytes_le ws) ≡ ws
unfolding frombytes_le tobytes_le
frombytes_le-tobytes_le [] h = refl
frombytes_le-tobytes_le (w ∷ ws) h =
    rw
      (
        load64_le-store64_le_front w (tobytes_le ws),
        load64_le-store64_le w h.0,
        drop_word_le w (tobytes_le ws),
      )
      (ap (λ t. w ∷ t) (frombytes_le-tobytes_le ws h.1))

frombytes_be_loop-tobytes_be :
    (ws : List ℕ) (n : ℕ) (rest filled : List ℕ)
    → All IsWord ws
    → frombytes_be_loop (length ws + n) (tobytes_be ws ++ rest) filled
      ≡ frombytes_be_loop n rest (ws ++ filled)
unfolding frombytes_be_loop tobytes_be
frombytes_be_loop-tobytes_be [] n rest filled h =
    ap (λ k. frombytes_be_loop k rest filled) (let e : 0 + n ≡ n = omega arith in e)
frombytes_be_loop-tobytes_be (w ∷ ws) n rest filled h =
    ap (λ k. frombytes_be_loop k ((tobytes_be ws ++ store64_be w) ++ rest) filled)
      (let e : suc (length ws) + n ≡ length ws + suc n = omega arith in e)
    ∙ ap (λ t. frombytes_be_loop (length ws + suc n) t filled)
        (append_assoc (tobytes_be ws) (store64_be w) rest)
    ∙ frombytes_be_loop-tobytes_be ws (suc n) (store64_be w ++ rest) filled h.1
    ∙ rw (load64_be-store64_be_front w rest, load64_be-store64_be w h.0, drop_word_be w rest) refl

-- What `sdc_int_tobytes_be` writes for words, `sdc_int_frombytes_be` reads as the same words.
pub frombytes_be-tobytes_be :
    (ws : List ℕ) → All IsWord ws → frombytes_be (length ws) (tobytes_be ws) ≡ ws
unfolding frombytes_be frombytes_be_loop
frombytes_be-tobytes_be ws h =
    ap (λ k. frombytes_be_loop k (tobytes_be ws) [])
      (let e : length ws ≡ length ws + 0 = omega arith in e)
    ∙ ap (λ t. frombytes_be_loop (length ws + 0) t []) (sym (append-nil (tobytes_be ws)))
    ∙ frombytes_be_loop-tobytes_be ws 0 [] [] h
    ∙ append-nil ws

be_value-store64_be : (acc w : ℕ) → IsWord w → be_value acc (store64_be w) ≡ acc * 2 ^ 64 + w
unfolding store64_be
be_value-store64_be acc w h = omega arith

-- What `sdc_int_tobytes_be` writes for words, read with the highest byte first, is the number of
-- the words.
pub be_value-tobytes_be : (ws : List ℕ) → All IsWord ws → be_value 0 (tobytes_be ws) ≡ value ws
unfolding tobytes_be
be_value-tobytes_be [] h = refl
be_value-tobytes_be (w ∷ ws) h =
    be_value-append 0 (tobytes_be ws) (store64_be w)
    ∙ be_value-store64_be (be_value 0 (tobytes_be ws)) w h.0
    ∙ omega (arith, be_value-tobytes_be ws h.1)
