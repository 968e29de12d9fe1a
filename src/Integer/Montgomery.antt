-- ===== src/Integer/Montgomery.antt =====
-- src/integer/integer.c: Montgomery multiplication and exponentiation.
use mathlib.Core.List.{reverse}
use slim_data_crypt.Common.{
  ℕ, zero, suc, ◌+◌, ◌-◌, ◌*◌, ◌/◌, ◌%◌, ◌^◌, Bool, List, [], ◌∷◌, ◌++◌, length, drop, arith,
  bit_and, bit_or, ◌==◌, if◌then◌else◌, get_or, u64, sub64,
}
use slim_data_crypt.Integer.{u128, zeros, is_nonzero_word, gte, sub_ctl, set_word}
use slim_data_crypt.Integer.Remainders.{to_mont}
pub mod Row
pub mod Multiply
pub mod Inverse
pub mod Form
pub mod Powers

-- The inner loop of `sdc_int_mont_mul`: the low words of the sums, and the last `r1` and `r2`.
unfoldable pub mont_row : ℕ → ℕ → List ℕ → List ℕ → List ℕ → ℕ → ℕ → List ℕ × ℕ × ℕ
mont_row ai f [] bs ns r1 r2 = ([], r1, r2)
mont_row ai f (r ∷ rs) [] ns r1 r2 = ([], r1, r2)
mont_row ai f (r ∷ rs) (b ∷ bs) [] r1 r2 = ([], r1, r2)
mont_row ai f (r ∷ rs) (b ∷ bs) (m ∷ ns) r1 r2 =
    let z1 = u128 (r + ai * b + r1) in
    let z2 = u128 (u64 z1 + f * m + r2) in
    let rest = mont_row ai f rs bs ns (z1 / 2 ^ 64) (z2 / 2 ^ 64) in
    (u64 z2 ∷ rest.0, rest.1, rest.2)

-- The outer loop. The low word of a row's first sum is stored nowhere, the others one place down.
unfoldable pub mont_loop : ℕ → List ℕ → List ℕ → List ℕ → List ℕ → ℕ → List ℕ × ℕ
mont_loop ninv [] bs ns r dh = (r, dh)
mont_loop ninv (ai ∷ xs) bs ns r dh =
    let f = u64 (u64 (get_or r 0 0 + ai * get_or bs 0 0) * ninv) in
    let row = mont_row ai f r bs ns 0 0 in
    let zh = u128 (dh + row.1 + row.2) in
    mont_loop ninv xs bs ns (drop 1 row.0 ++ (u64 zh ∷ [])) (zh / 2 ^ 64)

-- `sdc_int_mont_mul`.
unfoldable pub mont_mul : List ℕ → List ℕ → List ℕ → ℕ → List ℕ
mont_mul xs bs ns ninv =
    let (r, dh) = mont_loop ninv xs bs ns (zeros (length ns)) 0 in
    (sub_ctl r ns (bit_or (is_nonzero_word dh) (gte r ns))).0

-- The inner loop of `sdc_int_from_mont`.
unfoldable pub from_row : ℕ → List ℕ → List ℕ → ℕ → List ℕ × ℕ
from_row f [] ns cc = ([], cc)
from_row f (x ∷ xs) [] cc = ([], cc)
from_row f (x ∷ xs) (m ∷ ns) cc =
    let z = u128 (x + f * m + cc) in
    let rest = from_row f xs ns (z / 2 ^ 64) in (u64 z ∷ rest.0, rest.1)

-- Its outer loop, of `k` rounds.
unfoldable pub from_loop : ℕ → ℕ → List ℕ → List ℕ → List ℕ
from_loop ninv zero ns x = x
from_loop ninv (suc k) ns x =
    let row = from_row (u64 (get_or x 0 0 * ninv)) x ns 0 in
    from_loop ninv k ns (drop 1 row.0 ++ (u64 row.1 ∷ []))

-- `sdc_int_from_mont`.
unfoldable pub from_mont : List ℕ → List ℕ → ℕ → List ℕ
from_mont x ns ninv = let y = from_loop ninv (length ns) ns x in (sub_ctl y ns (gte y ns)).0

-- The inner loop of the two constant-time exponentiations: the lowest `k` bits of `word`, the
-- lowest one first. `ptr_cswap` makes the product the new `res` where the bit is set.
unfoldable pub square_and_multiply : List ℕ → ℕ → ℕ → ℕ → List ℕ → List ℕ → List ℕ × List ℕ
square_and_multiply ns ninv zero word res base = (res, base)
square_and_multiply ns ninv (suc k) word res base =
    let product = mont_mul res base ns ninv in
    square_and_multiply ns ninv k (word / 2) (if bit_and word 1 == 0 then res else product)
      (mont_mul base base ns ninv)

-- Their outer loop, over the digits of the exponent with the lowest one first.
unfoldable pub modexp_loop : List ℕ → ℕ → ℕ → List ℕ → List ℕ → List ℕ → List ℕ
modexp_loop ns ninv width [] res base = res
modexp_loop ns ninv width (d ∷ ds) res base =
    let after = square_and_multiply ns ninv width d res base in
    modexp_loop ns ninv width ds after.0 after.1

-- `sdc_int_mont_modexp_word`.
unfoldable pub mont_modexp_word : List ℕ → List ℕ → List ℕ → ℕ → List ℕ
mont_modexp_word a e ns ninv =
    from_mont (modexp_loop ns ninv 64 e (to_mont (set_word 1 (length ns)) ns) (to_mont a ns)) ns
      ninv

-- `sdc_int_mont_modexp_u8`, whose exponent is given with its highest byte first.
unfoldable pub mont_modexp_u8 : List ℕ → List ℕ → List ℕ → ℕ → List ℕ
mont_modexp_u8 a e ns ninv =
    from_mont
      (modexp_loop ns ninv 8 (reverse e) (to_mont (set_word 1 (length ns)) ns) (to_mont a ns)) ns
      ninv

-- The loop of `sdc_int_mont_modexp_with_ebits_vartime`, the highest of `k` bits first.
unfoldable pub vartime_loop : List ℕ → ℕ → ℕ → ℕ → List ℕ → List ℕ → List ℕ
vartime_loop ns ninv zero e r base = r
vartime_loop ns ninv (suc k) e r base =
    let squared = mont_mul r r ns ninv in
    let product = mont_mul squared base ns ninv in
    vartime_loop ns ninv k e (if bit_and (e / 2 ^ k) 1 == 0 then squared else product) base

-- `sdc_int_mont_modexp_with_ebits_vartime`.
unfoldable pub mont_modexp_with_ebits_vartime : List ℕ → ℕ → ℕ → List ℕ → ℕ → List ℕ
mont_modexp_with_ebits_vartime a e e_bits ns ninv =
    from_mont (vartime_loop ns ninv e_bits e (to_mont (set_word 1 (length ns)) ns) (to_mont a ns))
      ns ninv

-- `inv * (2 - x * inv)`.
unfoldable pub newton : ℕ → ℕ → ℕ
newton x inv = u64 (inv * sub64 2 (u64 (x * inv)))

-- `sdc_int_calculate_ninv`.
unfoldable pub calculate_ninv : ℕ → ℕ
calculate_ninv x =
    if bit_and x 1 == 0
    then 0
    else sub64 0 (newton x (newton x (newton x (newton x (newton x (sub64 2 x))))))
