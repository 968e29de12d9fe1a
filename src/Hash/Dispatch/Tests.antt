-- ===== src/Hash/Dispatch/Tests.antt =====
-- The dispatch of src/hash.c at concrete inputs.
use slim_data_crypt.Common.{ℕ, ◌≡◌, ◌↔◌, refl, List, [], ◌∷◌, replicate, some, none}
use slim_data_crypt.Hash.{Ctx}
use slim_data_crypt.Hash.Streams.{joined}
use slim_data_crypt.Hash.Sha256.Streams.{sha256}
use slim_data_crypt.Hash.Dispatch.{
  Algorithm, Output, HashCtx, hash_once, oid, find_by_oid_default, find_by_oid,
}
use slim_data_crypt.Hash.Dispatch.Streamed.{
  Hashing, table, hash_pieces, seen, delivered, hash_pieces-hash_once,
}
use slim_data_crypt.Hash.Dispatch.Tables.{sha256_hashing}
use slim_data_crypt.Hash.Dispatch.Search.{find_by_oid_default_lem}

abbrev local : Ctx ℕ
local = record { state = []; count = 0; buffer = replicate 64 7; len = 0 }

-- SHA-256 over a local context that is not initialised.
abbrev hashing : Hashing ℕ
hashing = sha256_hashing local refl

abbrev ctx : HashCtx (Ctx ℕ)
ctx = record { ops = none; inner_state = local }

-- "abc", in two pieces.
abbrev pieces : List (List ℕ)
pieces = (0x61 ∷ 0x62 ∷ []) ∷ (0x63 ∷ []) ∷ []

abbrev output : Output
output = (replicate 40 0, 40)

hash_pieces-hash_once_example :
    (seen (hash_pieces (some (table hashing)) pieces ctx output)
      ≡ delivered 32 (sha256 (joined pieces)) output)
    × (hash_once (some (table hashing)) (joined pieces) output
        ≡ delivered 32 (sha256 (joined pieces)) output)
unfolding sha256_hashing
hash_pieces-hash_once_example = hash_pieces-hash_once hashing ctx pieces output refl tt tt

-- The identifier of SM3.
abbrev wanted : List ℕ
wanted = 0x2A ∷ 0x81 ∷ 0x1C ∷ 0xCF ∷ 0x55 ∷ 0x01 ∷ 0x83 ∷ 0x51 ∷ []

find_by_oid_default_lem_example :
    find_by_oid_default wanted ≡ some Algorithm.sm3 ↔ wanted ≡ oid Algorithm.sm3
find_by_oid_default_lem_example = find_by_oid_default_lem wanted Algorithm.sm3

-- A getter that finds nothing: the table is not searched.
getter_first : find_by_oid wanted (some (λ o. none)) ≡ none
unfolding find_by_oid
getter_first = refl
