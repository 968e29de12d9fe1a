-- ===== src/Hash/Dispatch.antt =====
-- src/hash.c with src/oid.c and include/sdcrypt/hash.h: calls of a hash function through its table
-- of operations, and the search for a table by object identifier. The pointers `ctx`, `in`, `out`
-- and `out_len` point to objects here. Pointers to tables and to functions can be NULL.
use slim_data_crypt.Common.{
  ℕ, zero, suc, List, [], ◌∷◌, length, Option, none, some, Bool, true, false, ◌&&◌, ltb, ◌==◌,
  if◌then◌else◌, write_at, Call, Outcome, done, fail,
}
use slim_data_crypt.Common.{invalid_param, buffer_too_small}
pub mod Streamed
pub mod Search
pub mod Tables
mod Tests

-- The array `out` and `*out_len`.
abbrev pub Output : Type 0
Output = List ℕ × ℕ

-- `sdc_hash_ops_t`, less the name and the identifier, over what the algorithm keeps in
-- `inner_state`.
pub record HashOps (C : Type 0) : Type 0 where
  pub init : Option (Call C (Unit {0}))
  pub update : Option (List ℕ → Call C (Unit {0}))
  pub final : Option (Call (C × Output) (Unit {0}))
  pub hash : Option (List ℕ → Call Output (Unit {0}))
  pub hash_len : ℕ

-- `sdc_hash_ctx`.
pub record HashCtx (C : Type 0) : Type 0 where
  pub ops : Option (HashOps C)
  pub inner_state : C

module _ {C : Type 0} where
  -- What a function on `inner_state` does to the context.
  abbrev pub in_ctx : Option (HashOps C) → Outcome C (Unit {0}) → Outcome (HashCtx C) (Unit {0})
  in_ctx ops (done u c) = done u (record { ops = ops; inner_state = c })
  in_ctx ops (fail e c) = fail e (record { ops = ops; inner_state = c })
  in_ctx ops Outcome.fault = Outcome.fault

  abbrev pub in_ctx_output :
      Option (HashOps C) → Outcome (C × Output) (Unit {0}) → Outcome (HashCtx C × Output) (Unit {0})
  in_ctx_output ops (done u (c, o)) = done u (record { ops = ops; inner_state = c }, o)
  in_ctx_output ops (fail e (c, o)) = fail e (record { ops = ops; inner_state = c }, o)
  in_ctx_output ops Outcome.fault = Outcome.fault

  -- `sdc_hash_init`.
  unfoldable pub hash_init : Option (HashOps C) → Call (HashCtx C) (Unit {0})
  hash_init none ctx = fail invalid_param ctx
  hash_init (some ops) ctx = elim ops.init [
    | none ↦ fail invalid_param ctx
    | some init ↦ in_ctx (some ops) (init ctx.inner_state)
  ]

  -- What `sdc_hash_update` does with the table of the context.
  unfoldable pub update_by : Option (HashOps C) → List ℕ → Call (HashCtx C) (Unit {0})
  update_by none input ctx = fail invalid_param ctx
  update_by (some ops) input ctx = elim ops.update [
    | none ↦ fail invalid_param ctx
    | some update ↦ in_ctx (some ops) (update input ctx.inner_state)
  ]

  -- `sdc_hash_update`.
  unfoldable pub hash_update : List ℕ → Call (HashCtx C) (Unit {0})
  hash_update input ctx = update_by ctx.ops input ctx

  unfoldable pub final_by : Option (HashOps C) → Call (HashCtx C × Output) (Unit {0})
  final_by none s = fail invalid_param s
  final_by (some ops) (ctx, (out, out_len)) = elim ops.final [
    | none ↦ fail invalid_param (ctx, (out, out_len))
    | some final ↦
        if ltb out_len ops.hash_len
        then fail buffer_too_small (ctx, (out, ops.hash_len))
        else in_ctx_output (some ops) (final (ctx.inner_state, (out, ops.hash_len)))
  ]

  -- `sdc_hash_final`.
  unfoldable pub hash_final : Call (HashCtx C × Output) (Unit {0})
  hash_final s = final_by s.0.ops s

  -- `sdc_hash_once`.
  unfoldable pub hash_once : Option (HashOps C) → List ℕ → Call Output (Unit {0})
  hash_once none input s = fail invalid_param s
  hash_once (some ops) input (out, out_len) = elim ops.hash [
    | none ↦ fail invalid_param (out, out_len)
    | some hash ↦
        if ltb out_len ops.hash_len
        then fail buffer_too_small (out, ops.hash_len)
        else hash input (out, ops.hash_len)
  ]

  -- `sha256_init_wrapper` and the ones like it.
  unfoldable pub init_wrapper : (C → C) → Call C (Unit {0})
  init_wrapper init c = done tt (init c)

  -- `sha256_update_wrapper` and the ones like it.
  unfoldable pub update_wrapper : (C → List ℕ → C) → List ℕ → Call C (Unit {0})
  update_wrapper update input c = done tt (update c input)

  -- `sha256_final_wrapper` and the ones like it, which differ in the length of the digest.
  unfoldable pub final_wrapper : ℕ → (C → C × List ℕ) → Call (C × Output) (Unit {0})
  final_wrapper n final (c, (out, out_len)) =
      if ltb out_len n
      then fail buffer_too_small (c, (out, n))
      else let r = final c in done tt (r.0, (write_at 0 r.1 out, n))

-- `sha256_hash_wrapper` and the ones like it.
unfoldable pub hash_wrapper : ℕ → (List ℕ → List ℕ) → List ℕ → Call Output (Unit {0})
hash_wrapper n hash input (out, out_len) =
    if ltb out_len n
    then fail buffer_too_small (out, n)
    else done tt (write_at 0 (hash input) out, n)

-- `sdc_sha256_ops` and the tables like it.
unfoldable pub ops_of :
    {C : Type 0} → ℕ → (C → C) → (C → List ℕ → C) → (C → C × List ℕ) → (List ℕ → List ℕ) → HashOps C
ops_of n init update final hash = record {
  init = some (init_wrapper init);
  update = some (update_wrapper update);
  final = some (final_wrapper n final);
  hash = some (hash_wrapper n hash);
  hash_len = n;
}

-- The entries of `hash_ops_table`.
pub data Algorithm : Type 0 where
  sha256 sha224 sha384 sha512 sm3 sha3_224 sha3_256 sha3_384 sha3_512 : Algorithm

-- The `oid` of an entry.
unfoldable pub oid : Algorithm → List ℕ
oid sha256 = 0x60 ∷ 0x86 ∷ 0x48 ∷ 0x01 ∷ 0x65 ∷ 0x03 ∷ 0x04 ∷ 0x02 ∷ 0x01 ∷ []
oid sha224 = 0x60 ∷ 0x86 ∷ 0x48 ∷ 0x01 ∷ 0x65 ∷ 0x03 ∷ 0x04 ∷ 0x02 ∷ 0x04 ∷ []
oid sha384 = 0x60 ∷ 0x86 ∷ 0x48 ∷ 0x01 ∷ 0x65 ∷ 0x03 ∷ 0x04 ∷ 0x02 ∷ 0x02 ∷ []
oid sha512 = 0x60 ∷ 0x86 ∷ 0x48 ∷ 0x01 ∷ 0x65 ∷ 0x03 ∷ 0x04 ∷ 0x02 ∷ 0x03 ∷ []
oid sm3 = 0x2A ∷ 0x81 ∷ 0x1C ∷ 0xCF ∷ 0x55 ∷ 0x01 ∷ 0x83 ∷ 0x51 ∷ []
oid sha3_224 = 0x60 ∷ 0x86 ∷ 0x48 ∷ 0x01 ∷ 0x65 ∷ 0x03 ∷ 0x04 ∷ 0x02 ∷ 0x07 ∷ []
oid sha3_256 = 0x60 ∷ 0x86 ∷ 0x48 ∷ 0x01 ∷ 0x65 ∷ 0x03 ∷ 0x04 ∷ 0x02 ∷ 0x08 ∷ []
oid sha3_384 = 0x60 ∷ 0x86 ∷ 0x48 ∷ 0x01 ∷ 0x65 ∷ 0x03 ∷ 0x04 ∷ 0x02 ∷ 0x09 ∷ []
oid sha3_512 = 0x60 ∷ 0x86 ∷ 0x48 ∷ 0x01 ∷ 0x65 ∷ 0x03 ∷ 0x04 ∷ 0x02 ∷ 0x0A ∷ []

-- All tables, as the configuration enables them.
unfoldable pub hash_ops_table : List Algorithm
hash_ops_table =
    sha256 ∷ sha224 ∷ sha384 ∷ sha512 ∷ sm3 ∷ sha3_224 ∷ sha3_256 ∷ sha3_384 ∷ sha3_512 ∷ []

-- `memcmp(a, b, n) == 0`, on the first `n` bytes; where an array is shorter, `false`.
unfoldable pub same_memory : ℕ → List ℕ → List ℕ → Bool
same_memory zero xs ys = true
same_memory (suc n) [] ys = false
same_memory (suc n) (x ∷ xs) [] = false
same_memory (suc n) (x ∷ xs) (y ∷ ys) = x == y && same_memory n xs ys

-- The loop over the table.
unfoldable pub find_in : List Algorithm → List ℕ → Option Algorithm
find_in [] wanted = none
find_in (ops ∷ table) wanted =
    if length (oid ops) == length wanted && same_memory (length wanted) (oid ops) wanted
    then some ops
    else find_in table wanted

-- `sdc_hash_find_by_oid_default`.
unfoldable pub find_by_oid_default : List ℕ → Option Algorithm
find_by_oid_default wanted = if length wanted == 0 then none else find_in hash_ops_table wanted

-- `sdc_hash_find_by_oid`.
unfoldable pub find_by_oid : List ℕ → Option (List ℕ → Option Algorithm) → Option Algorithm
find_by_oid wanted none = if length wanted == 0 then none else find_by_oid_default wanted
find_by_oid wanted (some getter) = if length wanted == 0 then none else getter wanted
