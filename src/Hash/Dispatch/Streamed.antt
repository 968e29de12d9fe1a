-- ===== src/Hash/Dispatch/Streamed.antt =====
-- Calls of src/hash.c: hashing in pieces and at once, through a table.
use slim_data_crypt.Common.{
  ℕ, ◌≡◌, refl, ap, ◌∙◌, List, [], ◌∷◌, Option, some, Bool, true, false, ltb, if◌then◌else◌,
  write_at, Call, Outcome, next, done, fail, arith,
}
use slim_data_crypt.Common.{buffer_too_small}
use slim_data_crypt.Hash.{Ctx}
use slim_data_crypt.Hash.Streams.{feed, joined}
use slim_data_crypt.Hash.Dispatch.{
  Output, in_ctx_output, HashOps, HashCtx, hash_init, update_by, hash_update, final_by, hash_final,
  hash_once, init_wrapper, update_wrapper, final_wrapper, hash_wrapper, ops_of,
}

-- A hash function: its operations, and that they give its digest in pieces and at once, for a
-- context that is ready.
pub record Hashing (K : Type 0) : Type 1 where
  pub size : ℕ
  pub init : Ctx K → Ctx K
  pub update : Ctx K → List ℕ → Ctx K
  pub final : Ctx K → Ctx K × List ℕ
  pub hash : List ℕ → List ℕ
  pub digest : List ℕ → List ℕ
  pub IsReady : Ctx K → Type 0
  pub IsCounted : List (List ℕ) → Type 0
  pub in_pieces :
      (c : Ctx K) (pieces : List (List ℕ))
      → IsReady c
      → IsCounted pieces
      → (final (feed update (init c) pieces)).1 ≡ digest (joined pieces)
  pub at_once : (input : List ℕ) → IsCounted (input ∷ []) → hash input ≡ digest input

-- The updates of a caller, each for one piece.
unfoldable pub update_all : {C : Type 0} → List (List ℕ) → Call (HashCtx C) (Unit {0})
update_all [] ctx = done tt ctx
update_all (piece ∷ pieces) ctx = next (hash_update piece ctx) λ _ ctx1. update_all pieces ctx1

-- `sdc_hash_final` after the updates, unless one of them failed.
unfoldable pub finish_with :
    {C : Type 0} → Output → Outcome (HashCtx C) (Unit {0}) → Outcome (HashCtx C × Output) (Unit {0})
finish_with o (done u ctx) = hash_final (ctx, o)
finish_with o (fail e ctx) = fail e (ctx, o)
finish_with o Outcome.fault = Outcome.fault

-- A caller that initialises, updates with the pieces and finishes.
unfoldable pub hash_pieces :
    {C : Type 0}
    → Option (HashOps C)
    → List (List ℕ)
    → HashCtx C
    → Output
    → Outcome (HashCtx C × Output) (Unit {0})
hash_pieces ops pieces ctx o =
    finish_with o (next (hash_init ops ctx) λ _ ctx1. update_all pieces ctx1)

-- What a caller sees of it.
unfoldable pub seen :
    {C : Type 0} → Outcome (HashCtx C × Output) (Unit {0}) → Outcome Output (Unit {0})
seen (done u s) = done u s.1
seen (fail e s) = fail e s.1
seen Outcome.fault = Outcome.fault

-- What hash.h promises of the output.
unfoldable pub delivered : ℕ → List ℕ → Call Output (Unit {0})
delivered n digest (out, out_len) =
    if ltb out_len n then fail buffer_too_small (out, n) else done tt (write_at 0 digest out, n)

ltb_irreflexive : (n : ℕ) → ltb n n ≡ false
ltb_irreflexive n = ground arith

seen-if :
    {C : Type 0} (t : Bool) (a b : Outcome (HashCtx C × Output) (Unit {0}))
    → seen (if t then a else b) ≡ (if t then seen a else seen b)
seen-if true a b = refl
seen-if false a b = refl

module _ {K : Type 0} (h : Hashing K) where
  -- The table of the hash function.
  abbrev pub table : HashOps (Ctx K)
  table = ops_of h.size h.init h.update h.final h.hash

  update_all-feed :
      (pieces : List (List ℕ)) (c : Ctx K)
      → update_all pieces (record { ops = some table; inner_state = c })
        ≡ done tt (record { ops = some table; inner_state = feed h.update c pieces })
  unfolding update_all feed hash_update update_by ops_of update_wrapper
  update_all-feed [] c = refl
  update_all-feed (piece ∷ pieces) c = update_all-feed pieces (h.update c piece)

  -- The wrapper's own test of the length, which the dispatch has set.
  final_wrapper-fits :
      (c : Ctx K) (out : List ℕ)
      → final_wrapper h.size h.final (c, (out, h.size))
        ≡ done tt ((h.final c).0, (write_at 0 (h.final c).1 out, h.size))
  unfolding final_wrapper
  final_wrapper-fits c out =
      ap
        (λ t.
          if t
          then fail buffer_too_small (c, (out, h.size))
          else done tt ((h.final c).0, (write_at 0 (h.final c).1 out, h.size)))
        (ltb_irreflexive h.size)

  hash_wrapper-fits :
      (input out : List ℕ)
      → h.IsCounted (input ∷ [])
      → hash_wrapper h.size h.hash input (out, h.size)
        ≡ done tt (write_at 0 (h.digest input) out, h.size)
  unfolding hash_wrapper
  hash_wrapper-fits input out q =
      ap
        (λ t.
          if t
          then fail buffer_too_small (out, h.size)
          else done tt (write_at 0 (h.hash input) out, h.size))
        (ltb_irreflexive h.size)
      ∙ ap (λ d. done tt (write_at 0 d out, h.size)) (h.at_once input q)

  final_lem :
      (c : Ctx K) (o : Output)
      → seen (hash_final (record { ops = some table; inner_state = c }, o))
        ≡ delivered h.size (h.final c).1 o
  unfolding hash_final final_by ops_of seen delivered
  final_lem c (out, out_len) =
      seen-if (ltb out_len h.size) _ _
      ∙ ap
          (λ u.
            if ltb out_len h.size
            then fail buffer_too_small (out, h.size)
            else seen (in_ctx_output (some table) u))
          (final_wrapper-fits c out)

  once_lem :
      (input : List ℕ) (o : Output)
      → h.IsCounted (input ∷ [])
      → hash_once (some table) input o ≡ delivered h.size (h.digest input) o
  unfolding hash_once ops_of delivered
  once_lem input (out, out_len) q =
      ap (λ u. if ltb out_len h.size then fail buffer_too_small (out, h.size) else u)
        (hash_wrapper-fits input out q)

  -- For a hash function whose functions give its digest, and a context whose `inner_state` is
  -- ready, whatever table it names, and pieces that, each and joined, the algorithm can count: `sdc_hash_init`, any number of `sdc_hash_update` and
  -- `sdc_hash_final` deliver the digest of the pieces put together, and so does `sdc_hash_once` on
  -- them. That is, the digest at the start of the array and its length in `*out_len`, if the array
  -- is long enough, and otherwise the error `SDC_ERR_BUFFER_TOO_SMALL`, with the length that is
  -- needed in `*out_len` and the array as it was.
  pub hash_pieces-hash_once :
      (ctx : HashCtx (Ctx K)) (pieces : List (List ℕ)) (o : Output)
      → h.IsReady ctx.inner_state
      → h.IsCounted pieces
      → h.IsCounted (joined pieces ∷ [])
      → (seen (hash_pieces (some table) pieces ctx o)
          ≡ delivered h.size (h.digest (joined pieces)) o)
        × (hash_once (some table) (joined pieces) o ≡ delivered h.size (h.digest (joined pieces)) o)
  unfolding hash_pieces hash_init ops_of init_wrapper finish_with
  hash_pieces-hash_once ctx pieces o r q whole = (
    ap (λ u. seen (finish_with o u)) (update_all-feed pieces (h.init ctx.inner_state))
        ∙ final_lem (feed h.update (h.init ctx.inner_state) pieces) o
        ∙ ap (λ d. delivered h.size d o) (h.in_pieces ctx.inner_state pieces r q),
    once_lem (joined pieces) o whole,
  )
