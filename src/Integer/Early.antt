-- ===== src/Integer/Early.antt =====
-- src/integer/integer.c: the functions that stop early, on numbers that need not be secret.
use slim_data_crypt.Common.{
  ℕ, zero, suc, ◌+◌, ◌-◌, ◌/◌, ◌^◌, List, [], ◌∷◌, length, bit_and, ◌==◌, if◌then◌else◌, u64,
}
use slim_data_crypt.Integer.{u128, set_word}
use slim_data_crypt.Integer.Remainders.{to_mont}
use slim_data_crypt.Integer.Montgomery.{mont_mul, from_mont}

-- The loop of `sdc_int_add_word_vartime`, which leaves the words of `r` once there is no carry.
unfoldable pub carry_while : List ℕ → List ℕ → ℕ → List ℕ × ℕ
carry_while [] xs carry = ([], carry)
carry_while (r ∷ rs) [] carry = (r ∷ rs, carry)
carry_while (r ∷ rs) (a ∷ xs) carry =
    let t = u128 (a + carry) in
    let rest = carry_while rs xs (u64 (t / 2 ^ 64)) in
    if carry == 0 then (r ∷ rs, 0) else (u64 t ∷ rest.0, rest.1)

-- `sdc_int_add_word_vartime`, whose first round is always run.
unfoldable pub add_word_vartime : List ℕ → List ℕ → ℕ → List ℕ × ℕ
add_word_vartime [] xs word = ([], word)
add_word_vartime (r ∷ rs) [] word = (r ∷ rs, word)
add_word_vartime (r ∷ rs) (a ∷ xs) word =
    let t = u128 (a + word) in
    let rest = carry_while rs xs (u64 (t / 2 ^ 64)) in (u64 t ∷ rest.0, rest.1)

-- The loop of `sdc_int_sub_word_vartime`, likewise.
unfoldable pub borrow_while : List ℕ → List ℕ → ℕ → List ℕ × ℕ
borrow_while [] xs borrow = ([], borrow)
borrow_while (r ∷ rs) [] borrow = (r ∷ rs, borrow)
borrow_while (r ∷ rs) (a ∷ xs) borrow =
    let t = u128 (a + 2 ^ 128 - borrow) in
    let rest = borrow_while rs xs (bit_and (t / 2 ^ 64) 1) in
    if borrow == 0 then (r ∷ rs, 0) else (u64 t ∷ rest.0, rest.1)

-- `sdc_int_sub_word_vartime`.
unfoldable pub sub_word_vartime : List ℕ → List ℕ → ℕ → List ℕ × ℕ
sub_word_vartime [] xs word = ([], word)
sub_word_vartime (r ∷ rs) [] word = (r ∷ rs, word)
sub_word_vartime (r ∷ rs) (a ∷ xs) word =
    let t = u128 (a + 2 ^ 128 - word) in
    let rest = borrow_while rs xs (bit_and (t / 2 ^ 64) 1) in (u64 t ∷ rest.0, rest.1)

-- The inner loop of `sdc_int_mont_modexp_word_vartime`: the highest of `k` bits of `word` first.
unfoldable pub vartime_bits : List ℕ → ℕ → ℕ → ℕ → List ℕ → List ℕ → List ℕ
vartime_bits ns ninv zero word r base = r
vartime_bits ns ninv (suc k) word r base =
    let squared = mont_mul r r ns ninv in
    let product = mont_mul squared base ns ninv in
    vartime_bits ns ninv k word (if bit_and (word / 2 ^ k) 1 == 0 then squared else product) base

-- Its outer loop, from the last word of the exponent down.
unfoldable pub vartime_words : List ℕ → ℕ → List ℕ → List ℕ → List ℕ → List ℕ
vartime_words ns ninv [] r base = r
vartime_words ns ninv (e ∷ es) r base =
    vartime_bits ns ninv 64 e (vartime_words ns ninv es r base) base

-- `sdc_int_mont_modexp_word_vartime`.
unfoldable pub mont_modexp_word_vartime : List ℕ → List ℕ → List ℕ → ℕ → List ℕ
mont_modexp_word_vartime a e ns ninv =
    from_mont (vartime_words ns ninv e (to_mont (set_word 1 (length ns)) ns) (to_mont a ns)) ns ninv
