-- ===== src/Integer.antt =====
-- src/integer/integer.c: unsigned integers as arrays of words, the least significant first. An
-- array of `len` words is the list of them, and two arrays of one call have the same length. The
-- word is 64 bits wide and the double word 128, as in a 64-bit build. A function that writes to
-- an array returns its new words.
use slim_data_crypt.Common.{
  ℕ, zero, suc, ◌+◌, ◌*◌, ◌/◌, ◌%◌, ◌-◌, ◌^◌, ◌<◌, List, [], ◌∷◌, length, bit_and, bit_or, bit_xor,
  u64, sub64, get_or, replicate,
}
pub mod Sums
pub mod Masks
pub mod Compare
pub mod Values
pub mod Products
pub mod Remainders
pub mod Montgomery
pub mod Bytes
pub mod Shifts
pub mod Early
pub mod Division
mod Tests

-- `sdc_dword_t`.
abbrev pub u128 : ℕ → ℕ
u128 n = n % 2 ^ 128

abbrev pub IsWord : ℕ → Type 0
IsWord w = w < 2 ^ 64

-- The number that words stand for.
abbrev pub value : List ℕ → ℕ
value [] = 0
value (w ∷ ws) = w + 2 ^ 64 * value ws

-- `c` in the place behind `n` words.
abbrev pub scale : ℕ → ℕ → ℕ
scale zero c = c
scale (suc n) c = 2 ^ 64 * scale n c

-- `len` words of 0.
abbrev pub zeros : ℕ → List ℕ
zeros len = replicate len 0

-- `is_nonzero_word`.
unfoldable pub is_nonzero_word : ℕ → ℕ
is_nonzero_word x = bit_or x (sub64 0 x) / 2 ^ 63

-- `0ULL - ctl`, also `gen_mask_word`.
unfoldable pub gen_mask_word : ℕ → ℕ
gen_mask_word ctl = sub64 0 ctl

-- `sdc_int_set_word`, on an array of `len` words.
unfoldable pub set_word : ℕ → ℕ → List ℕ
set_word val len = val ∷ replicate (len - 1) 0

-- `sdc_int_ccopy`; `~mask` is `2 ^ 64 - 1 - mask`.
unfoldable pub ccopy : List ℕ → List ℕ → ℕ → List ℕ
ccopy [] src ctl = []
ccopy (d ∷ ds) [] ctl = d ∷ ds
ccopy (d ∷ ds) (s ∷ ss) ctl =
    let mask = gen_mask_word ctl in
    bit_or (bit_and d (2 ^ 64 - 1 - mask)) (bit_and s mask) ∷ ccopy ds ss ctl

-- `sdc_int_cswap`: the new words of both arrays.
unfoldable pub cswap : List ℕ → List ℕ → ℕ → List ℕ × List ℕ
cswap [] bs ctl = ([], bs)
cswap (a ∷ xs) [] ctl = (a ∷ xs, [])
cswap (a ∷ xs) (b ∷ bs) ctl =
    let diff = bit_and (bit_xor a b) (gen_mask_word ctl) in
    let rest = cswap xs bs ctl in (bit_xor a diff ∷ rest.0, bit_xor b diff ∷ rest.1)

-- The loop of `sdc_int_eq_word` over the upper words.
unfoldable pub or_all : List ℕ → ℕ → ℕ
or_all [] result = result
or_all (a ∷ xs) result = or_all xs (bit_or result a)

-- `sdc_int_eq_word`; the array has a word.
unfoldable pub eq_word : List ℕ → ℕ → ℕ
eq_word [] word = 1
eq_word (a ∷ xs) word = bit_xor (is_nonzero_word (or_all xs (bit_xor a word))) 1

-- `sdc_int_is_odd` and `sdc_int_is_even`.
unfoldable pub is_odd : List ℕ → ℕ
is_odd a = bit_and (get_or a 0 0) 1

unfoldable pub is_even : List ℕ → ℕ
is_even a = bit_xor (bit_and (get_or a 0 0) 1) 1

-- `sdc_int_lt`: the loop, with the borrow of the words before. The top bit of the double word
-- difference tells whether it wrapped.
unfoldable pub lt_loop : List ℕ → List ℕ → ℕ → ℕ
lt_loop [] bs borrow = u64 borrow
lt_loop (a ∷ xs) [] borrow = u64 borrow
lt_loop (a ∷ xs) (b ∷ bs) borrow =
    let diff = u128 (a + 2 ^ 128 + 2 ^ 128 - b - borrow) in lt_loop xs bs (diff / 2 ^ 127)

unfoldable pub lt : List ℕ → List ℕ → ℕ
lt xs bs = lt_loop xs bs 0

-- `sdc_int_gte`.
unfoldable pub gte : List ℕ → List ℕ → ℕ
gte xs bs = bit_xor (lt xs bs) 1

-- The loop of `sdc_int_eq`, which goes from the top word down: `diff` of the words above.
unfoldable pub differ : List ℕ → List ℕ → ℕ
differ [] bs = 0
differ (a ∷ xs) [] = 0
differ (a ∷ xs) (b ∷ bs) = bit_or (differ xs bs) (bit_xor a b)

unfoldable pub eq : List ℕ → List ℕ → ℕ
eq xs bs = bit_xor (is_nonzero_word (differ xs bs)) 1

-- `sdc_int_add`: the loop, with the carry of the words before; the sum and the last carry.
unfoldable pub add_loop : List ℕ → List ℕ → ℕ → List ℕ × ℕ
add_loop [] bs tmp = ([], u64 tmp)
add_loop (a ∷ xs) [] tmp = ([], u64 tmp)
add_loop (a ∷ xs) (b ∷ bs) tmp =
    let t = u128 (tmp + (a + b)) in
    let rest = add_loop xs bs (t / 2 ^ 64) in (u64 t ∷ rest.0, rest.1)

unfoldable pub add : List ℕ → List ℕ → List ℕ × ℕ
add xs bs = add_loop xs bs 0

-- `sdc_int_sub`, likewise.
unfoldable pub sub_loop : List ℕ → List ℕ → ℕ → List ℕ × ℕ
sub_loop [] bs borrow = ([], u64 borrow)
sub_loop (a ∷ xs) [] borrow = ([], u64 borrow)
sub_loop (a ∷ xs) (b ∷ bs) borrow =
    let diff = u128 (a + 2 ^ 128 + 2 ^ 128 - b - borrow) in
    let rest = sub_loop xs bs (diff / 2 ^ 127) in (u64 diff ∷ rest.0, rest.1)

unfoldable pub sub : List ℕ → List ℕ → List ℕ × ℕ
sub xs bs = sub_loop xs bs 0

-- `b[i] & mask` over an array.
unfoldable pub masked : ℕ → List ℕ → List ℕ
masked ctl [] = []
masked ctl (b ∷ bs) = bit_and b (gen_mask_word ctl) ∷ masked ctl bs

-- `sdc_int_add_ctl` and `sdc_int_sub_ctl`, whose loops are those of the sum and the difference
-- with masked words.
unfoldable pub add_ctl : List ℕ → List ℕ → ℕ → List ℕ × ℕ
add_ctl xs bs ctl = add_loop xs (masked ctl bs) 0

unfoldable pub sub_ctl : List ℕ → List ℕ → ℕ → List ℕ × ℕ
sub_ctl xs bs ctl = sub_loop xs (masked ctl bs) 0

-- The loop of `sdc_int_add_word` over the upper words.
unfoldable pub carry_loop : List ℕ → ℕ → List ℕ × ℕ
carry_loop [] carry = ([], carry)
carry_loop (a ∷ xs) carry =
    let t = u128 (a + carry) in
    let rest = carry_loop xs (u64 (t / 2 ^ 64)) in (u64 t ∷ rest.0, rest.1)

-- `sdc_int_add_word`, whose first round is like the others.
unfoldable pub add_word : List ℕ → ℕ → List ℕ × ℕ
add_word xs word = carry_loop xs word

-- The loop of `sdc_int_sub_word`.
unfoldable pub borrow_loop : List ℕ → ℕ → List ℕ × ℕ
borrow_loop [] borrow = ([], borrow)
borrow_loop (a ∷ xs) borrow =
    let t = u128 (a + 2 ^ 128 - borrow) in
    let rest = borrow_loop xs (bit_and (t / 2 ^ 64) 1) in (u64 t ∷ rest.0, rest.1)

-- `sdc_int_sub_word`.
unfoldable pub sub_word : List ℕ → ℕ → List ℕ × ℕ
sub_word xs word = borrow_loop xs word
