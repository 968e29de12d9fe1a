-- ===== src/Hash/Dispatch/Search.antt =====
-- The search of src/hash.c for a table by object identifier.
use slim_data_crypt.Common.{ℕ, ◌≡◌, ◌↔◌, refl, ap, ◌∙◌, List, length, [], ◌∷◌, some, true, arith}
use slim_data_crypt.Hash.Dispatch.{
  sha256, sha224, sha384, sha512, sm3, sha3_224, sha3_256, sha3_384, sha3_512, Algorithm, oid,
  hash_ops_table, same_memory, find_in, find_by_oid_default,
}

same_memory-same :
    (xs ys : List ℕ) → length xs ≡ length ys → same_memory (length ys) xs ys ≡ true → xs ≡ ys
unfolding same_memory
same_memory-same [] [] l e = refl
same_memory-same [] (y ∷ ys) l e = absurd (omega arith)
same_memory-same (x ∷ xs) [] l e = absurd (omega arith)
same_memory-same (x ∷ xs) (y ∷ ys) l e =
    let tails : length xs ≡ length ys = omega arith in ground (arith, same_memory-same xs ys tails)

find_in_lem :
    (table : List Algorithm) (wanted : List ℕ) (a : Algorithm)
    → find_in table wanted ≡ some a
    → wanted ≡ oid a
unfolding find_in
find_in_lem [] wanted a e = ground arith
find_in_lem (ops ∷ table) wanted a e =
    ground (arith, same_memory-same (oid ops) wanted, find_in_lem table wanted a)

find_by_oid-oid : (a : Algorithm) → find_by_oid_default (oid a) ≡ some a
unfolding find_by_oid_default find_in hash_ops_table oid same_memory
find_by_oid-oid sha256 = refl
find_by_oid-oid sha224 = refl
find_by_oid-oid sha384 = refl
find_by_oid-oid sha512 = refl
find_by_oid-oid sm3 = refl
find_by_oid-oid sha3_224 = refl
find_by_oid-oid sha3_256 = refl
find_by_oid-oid sha3_384 = refl
find_by_oid-oid sha3_512 = refl

-- `sdc_hash_find_by_oid_default` finds each hash function by its identifier, and finds none by
-- anything else.
pub find_by_oid_default_lem :
    (wanted : List ℕ) (a : Algorithm) → find_by_oid_default wanted ≡ some a ↔ wanted ≡ oid a
unfolding find_by_oid_default
find_by_oid_default_lem wanted a = (
  λ e. ground (arith, find_in_lem hash_ops_table wanted a),
  λ e. ap find_by_oid_default e ∙ find_by_oid-oid a,
)
