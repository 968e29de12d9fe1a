-- ===== src/Hash/Dispatch/Tables.antt =====
-- The tables of operations of src/sha/sha256.c, src/sha/sha512.c and src/sm3/sm3.c. `local` is the
-- context that the `hash` of a table keeps on the stack, not initialised.
use slim_data_crypt.Common.{ℕ, ◌≡◌, ◌∙◌, refl, List, [], ◌∷◌, length, ap, append-nil, All}
use slim_data_crypt.Hash.{Ctx}
use slim_data_crypt.Hash.Streams.{feed, joined}
use slim_data_crypt.Hash.Sha512.Streams.{IsCounted}
use slim_data_crypt.Hash.Sha256
use slim_data_crypt.Hash.Sha512
use slim_data_crypt.Hash.Sm3
use slim_data_crypt.Hash.Dispatch.{HashOps, ops_of}
use slim_data_crypt.Hash.Dispatch.Streamed.{Hashing, table}

-- `sdc_sha256_ops`.
unfoldable sha256_ops : Ctx ℕ → HashOps (Ctx ℕ)
sha256_ops local = ops_of 32 Sha256.init Sha256.update Sha256.final (Sha256.hash local)

-- `sdc_sha224_ops`.
unfoldable sha224_ops : Ctx ℕ → HashOps (Ctx ℕ)
sha224_ops local =
    ops_of 28 Sha256.init_224 Sha256.update_224 Sha256.final_224 (Sha256.hash_224 local)

-- `sdc_sha512_ops`.
unfoldable sha512_ops : Ctx (ℕ × ℕ) → HashOps (Ctx (ℕ × ℕ))
sha512_ops local = ops_of 64 Sha512.init Sha512.update Sha512.final (Sha512.hash local)

-- `sdc_sha384_ops`.
unfoldable sha384_ops : Ctx (ℕ × ℕ) → HashOps (Ctx (ℕ × ℕ))
sha384_ops local =
    ops_of 48 Sha512.init_384 Sha512.update_384 Sha512.final_384 (Sha512.hash_384 local)

-- `sdc_sm3_ops`.
unfoldable sm3_ops : Ctx ℕ → HashOps (Ctx ℕ)
sm3_ops local = ops_of 32 Sm3.init Sm3.update Sm3.final (Sm3.hash local)

module _ (local : Ctx ℕ) (r : length local.buffer ≡ 64) where
  sm3_at_once : (input : List ℕ) → Sm3.hash local input ≡ Sm3.Streams.sm3 input
  unfolding Sm3.hash feed joined
  sm3_at_once input =
      Sm3.Streams.feed-sm3 local (input ∷ []) r ∙ ap Sm3.Streams.sm3 (append-nil input)

  unfoldable pub sha256_hashing : Hashing ℕ
  sha256_hashing = record {
    size = 32;
    init = Sha256.init;
    update = Sha256.update;
    final = Sha256.final;
    hash = Sha256.hash local;
    digest = Sha256.Streams.sha256;
    IsReady = λ c. length c.buffer ≡ 64;
    IsCounted = λ pieces. Unit {0};
    in_pieces = λ c pieces ready counted. Sha256.Streams.feed-sha256 c pieces ready;
    at_once = λ input counted. Sha256.Streams.hash_lem local input r;
  }

  unfoldable sha224_hashing : Hashing ℕ
  sha224_hashing = record {
    size = 28;
    init = Sha256.init_224;
    update = Sha256.update_224;
    final = Sha256.final_224;
    hash = Sha256.hash_224 local;
    digest = Sha256.Streams.sha224;
    IsReady = λ c. length c.buffer ≡ 64;
    IsCounted = λ pieces. Unit {0};
    in_pieces = λ c pieces ready counted. Sha256.Streams.feed-sha224 c pieces ready;
    at_once = λ input counted. Sha256.Streams.hash_224_lem local input r;
  }

  unfoldable sm3_hashing : Hashing ℕ
  sm3_hashing = record {
    size = 32;
    init = Sm3.init;
    update = Sm3.update;
    final = Sm3.final;
    hash = Sm3.hash local;
    digest = Sm3.Streams.sm3;
    IsReady = λ c. length c.buffer ≡ 64;
    IsCounted = λ pieces. Unit {0};
    in_pieces = λ c pieces ready counted. Sm3.Streams.feed-sm3 c pieces ready;
    at_once = λ input counted. sm3_at_once input;
  }

  -- The tables of the source are the tables of these.
  table_small :
      (table sha256_hashing ≡ sha256_ops local)
      × ((table sha224_hashing ≡ sha224_ops local) × (table sm3_hashing ≡ sm3_ops local))
  unfolding sha256_hashing sha224_hashing sm3_hashing sha256_ops sha224_ops sm3_ops
  table_small = (refl, (refl, refl))

module _ (local : Ctx (ℕ × ℕ)) (r : length local.buffer ≡ 128) where
  sha512_at_once :
      (input : List ℕ)
      → All IsCounted (input ∷ [])
      → Sha512.hash local input ≡ Sha512.Streams.sha512 input
  unfolding Sha512.hash feed joined
  sha512_at_once input q =
      Sha512.Streams.feed-sha512 local (input ∷ []) r q
      ∙ ap Sha512.Streams.sha512 (append-nil input)

  sha384_at_once :
      (input : List ℕ)
      → All IsCounted (input ∷ [])
      → Sha512.hash_384 local input ≡ Sha512.Streams.sha384 input
  unfolding Sha512.hash_384 feed joined
  sha384_at_once input q =
      Sha512.Streams.feed-sha384 local (input ∷ []) r q
      ∙ ap Sha512.Streams.sha384 (append-nil input)

  unfoldable sha512_hashing : Hashing (ℕ × ℕ)
  sha512_hashing = record {
    size = 64;
    init = Sha512.init;
    update = Sha512.update;
    final = Sha512.final;
    hash = Sha512.hash local;
    digest = Sha512.Streams.sha512;
    IsReady = λ c. length c.buffer ≡ 128;
    IsCounted = All IsCounted;
    in_pieces = Sha512.Streams.feed-sha512;
    at_once = sha512_at_once;
  }

  unfoldable sha384_hashing : Hashing (ℕ × ℕ)
  sha384_hashing = record {
    size = 48;
    init = Sha512.init_384;
    update = Sha512.update_384;
    final = Sha512.final_384;
    hash = Sha512.hash_384 local;
    digest = Sha512.Streams.sha384;
    IsReady = λ c. length c.buffer ≡ 128;
    IsCounted = All IsCounted;
    in_pieces = Sha512.Streams.feed-sha384;
    at_once = sha384_at_once;
  }

  table_large :
      (table sha512_hashing ≡ sha512_ops local) × (table sha384_hashing ≡ sha384_ops local)
  unfolding sha512_hashing sha384_hashing sha512_ops sha384_ops
  table_large = (refl, refl)
