-- ===== src/Hash/Registers.antt =====
-- The eight working variables of the compressions, and the digest as the words of a state.
use slim_data_crypt.Common.{ℕ, List, [], ◌∷◌, ◌++◌}
use slim_data_crypt.Common.Words.{byte_at}

-- `a` to `h`.
pub record Registers : Type 0 where
  pub a : ℕ
  pub b : ℕ
  pub c : ℕ
  pub d : ℕ
  pub e : ℕ
  pub f : ℕ
  pub g : ℕ
  pub h : ℕ

-- `a = ctx->state[0];` and so on.
unfoldable pub load_state : List ℕ → Registers
load_state state = record {
  a = byte_at state 0;
  b = byte_at state 1;
  c = byte_at state 2;
  d = byte_at state 3;
  e = byte_at state 4;
  f = byte_at state 5;
  g = byte_at state 6;
  h = byte_at state 7;
}

-- `ctx->state[0] += a;` and so on, for an operation on words.
unfoldable pub mix_state : (ℕ → ℕ → ℕ) → List ℕ → Registers → List ℕ
mix_state op state r =
    op (byte_at state 0) r.a
    ∷ op (byte_at state 1) r.b
    ∷ op (byte_at state 2) r.c
    ∷ op (byte_at state 3) r.d
    ∷ op (byte_at state 4) r.e
    ∷ op (byte_at state 5) r.f
    ∷ op (byte_at state 6) r.g
    ∷ op (byte_at state 7) r.h
    ∷ []

-- `for (j = 0; j < n; j++) store(out + .. * j, state[j]);`
unfoldable pub store_words : (ℕ → List ℕ) → List ℕ → List ℕ
store_words store [] = []
store_words store (w ∷ ws) = store w ++ store_words store ws
