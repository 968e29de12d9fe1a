-- ===== src/Hash/Blocks.antt =====
-- A message cut into blocks and compressed, apart from any buffer.
use slim_data_crypt.Common.{
  ℕ, zero, suc, ◌+◌, ◌*◌, ◌≡◌, ap, ◌∙◌, List, [], ◌∷◌, ◌++◌, length, take, drop, length-drop,
  take-append, drop-append, take_all, arith,
}

module _ (size : ℕ) (compress : List ℕ → List ℕ → List ℕ) where
  -- The first `n` blocks of `bytes`, compressed one after the other.
  unfoldable pub fold_blocks : ℕ → List ℕ → List ℕ → List ℕ
  fold_blocks zero s bytes = s
  fold_blocks (suc n) s bytes = fold_blocks n (compress s (take size bytes)) (drop size bytes)

  pub fold_blocks-add :
      (m n : ℕ) (s front back : List ℕ)
      → length front ≡ m * size
      → fold_blocks (m + n) s (front ++ back) ≡ fold_blocks n (fold_blocks m s front) back
  unfolding fold_blocks
  fold_blocks-add zero n s [] back e =
      ap (λ k. fold_blocks k s back) (let z : 0 + n ≡ n = omega arith in z)
  fold_blocks-add zero n s (x ∷ front) back e = absurd (omega arith)
  fold_blocks-add (suc m) n s front back e =
      ap (λ k. fold_blocks k s (front ++ back)) (let z : suc m + n ≡ suc (m + n) = omega arith in z)
      ∙ ap (λ t. fold_blocks (m + n) (compress s t) (drop size (front ++ back)))
          (take-append size front back (grind arith))
      ∙ ap (λ t. fold_blocks (m + n) (compress s (take size front)) t)
          (drop-append size front back (grind arith))
      ∙ fold_blocks-add m n (compress s (take size front)) (drop size front) back
          (grind (arith, length-drop size front))

  -- One more block.
  pub fold_blocks-next :
      (n : ℕ) (s front block : List ℕ)
      → length front ≡ n * size
      → length block ≡ size
      → fold_blocks (n + 1) s (front ++ block) ≡ compress (fold_blocks n s front) block
  unfolding fold_blocks
  fold_blocks-next n s front block e f =
      fold_blocks-add n 1 s front block e
      ∙ ap (compress (fold_blocks n s front)) (take_all block size (omega arith))

  pub fold_blocks_two :
      (s first second : List ℕ)
      → length first ≡ size
      → length second ≡ size
      → fold_blocks 2 s (first ++ second) ≡ compress (compress s first) second
  unfolding fold_blocks
  fold_blocks_two s first second e f =
      fold_blocks-add 1 1 s first second (omega arith)
      ∙ ap (λ t. compress (compress s t) (take size second)) (take_all first size (omega arith))
      ∙ ap (compress (compress s first)) (take_all second size (omega arith))
