-- ===== src/Hash/Streams.antt =====
-- Data that is handed to `update` in pieces.
use slim_data_crypt.Common.{ℕ, sym, List, [], ◌∷◌, ◌++◌, append_assoc, append-nil, All}
use mathlib.Core.Path.{subst}
use slim_data_crypt.Hash.{Ctx}

unfoldable pub joined : List (List ℕ) → List ℕ
joined [] = []
joined (piece ∷ pieces) = piece ++ joined pieces

module _ {C : Type 0} (update : Ctx C → List ℕ → Ctx C) where
  -- One call of `update` after the other.
  unfoldable pub feed : Ctx C → List (List ℕ) → Ctx C
  feed c [] = c
  feed c (piece ∷ pieces) = feed (update c piece) pieces

  -- What each update with a piece that `Q` holds of keeps, of the message so far, holds of the
  -- pieces together.
  pub feed-joined :
      (P : Ctx C → List ℕ → Type 0) (Q : List ℕ → Type 0)
      → ((c : Ctx C) (message input : List ℕ)
          → Q input
          → P c message
          → P (update c input) (message ++ input))
      → (c : Ctx C) (message : List ℕ) (pieces : List (List ℕ)) → All Q pieces
      → P c message
      → P (feed c pieces) (message ++ joined pieces)
  unfolding feed joined
  feed-joined P Q keep c message [] q h = subst (P c) (sym (append-nil message)) h
  feed-joined P Q keep c message (piece ∷ pieces) q h =
      subst (P (feed (update c piece) pieces)) (append_assoc message piece (joined pieces)) (
        feed-joined P Q keep (update c piece) (message ++ piece) pieces q.1
          (keep c message piece q.0 h))

-- No condition on the pieces.
abbrev pub Any : List ℕ → Type 0
Any piece = Unit {0}

pub All-Any : (pieces : List (List ℕ)) → All Any pieces
All-Any [] = tt
All-Any (piece ∷ pieces) = (tt, All-Any pieces)
