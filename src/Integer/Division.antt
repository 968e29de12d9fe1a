-- ===== src/Integer/Division.antt =====
-- src/integer/integer.c: division by one word, bit by bit and with no branch on the numbers.
use slim_data_crypt.Common.{
  ℕ, zero, suc, ◌+◌, ◌-◌, ◌*◌, ◌/◌, ◌%◌, ◌^◌, Bool, List, [], ◌∷◌, bit_and, bit_or, bit_xor, ◌==◌,
  if◌then◌else◌, u64,
}
use slim_data_crypt.Integer.{u128, is_nonzero_word}
pub mod Remainder

-- `GTE_DWORD`: 1 if the first double word is at least the second, else 0.
unfoldable pub gte_dword : ℕ → ℕ → ℕ
gte_dword a b =
    let ah = a / 2 ^ 64 in
    let bh = b / 2 ^ 64 in
    let al = a % 2 ^ 64 in
    let bl = b % 2 ^ 64 in
    let hgt = u128 (bh + 2 ^ 128 - ah) / 2 ^ 127 in
    let lgt = u128 (bl + 2 ^ 128 - al) / 2 ^ 127 in
    let heq = bit_xor (is_nonzero_word (u64 (bit_xor ah bh))) 1 in
    let leq = bit_xor (is_nonzero_word (u64 (bit_xor al bl))) 1 in
    u64 (bit_or hgt (bit_and heq (bit_or lgt leq)))

-- A round of `rem_word` and `div_word`: `r * 2 + bit`, less `d` under the mask of the comparison.
-- The comparison, and the new `r`.
unfoldable pub rem_step : ℕ → ℕ → ℕ → ℕ × ℕ
rem_step d bit r =
    let r' = bit_or (u128 (r * 2)) bit in
    let cond = gte_dword r' d in
    let mask = u128 (2 ^ 128 - cond) in (cond, u128 (r' + 2 ^ 128 - bit_and d mask))

-- The loop of `rem_word`, `i` bits before its end.
unfoldable pub rem_loop : ℕ → ℕ → ℕ → ℕ → ℕ
rem_loop dividend d zero r = r
rem_loop dividend d (suc i) r =
    rem_loop dividend d i (rem_step d (bit_and (dividend / 2 ^ i) 1) r).1

-- `rem_word`.
unfoldable pub rem_word : ℕ → ℕ → ℕ
rem_word dividend divisor = u64 (rem_loop dividend divisor 128 0)

-- The loop of `div_word`: quotient and remainder.
unfoldable pub div_word_loop : ℕ → ℕ → ℕ → ℕ → ℕ → ℕ × ℕ
div_word_loop dividend d zero q r = (q, r)
div_word_loop dividend d (suc i) q r =
    let round = rem_step d (bit_and (dividend / 2 ^ i) 1) r in
    div_word_loop dividend d i (bit_or q (u128 (round.0 * 2 ^ i))) round.1

-- `div_word`.
unfoldable pub div_word : ℕ → ℕ → ℕ × ℕ
div_word dividend divisor = let out = div_word_loop dividend divisor 128 0 0 in (out.0, u64 out.1)

-- The loop of `sdc_int_div_word`, which goes from the top word down: the quotient's words and the
-- remainder.
unfoldable pub int_div_word_loop : List ℕ → ℕ → List ℕ × ℕ
int_div_word_loop [] word = ([], 0)
int_div_word_loop (a ∷ xs) word =
    let above = int_div_word_loop xs word in
    let here = div_word (bit_or (u128 (above.1 * 2 ^ 64)) a) word in (u64 here.0 ∷ above.0, here.1)

-- `sdc_int_div_word`; `quo` and `rem` are what it leaves for a divisor of 0.
unfoldable pub int_div_word : List ℕ → ℕ → List ℕ → ℕ → List ℕ × ℕ
int_div_word quo rem xs word = if word == 0 then (quo, rem) else int_div_word_loop xs word

-- The loop of `sdc_int_mod_word`.
unfoldable pub mod_word_loop : List ℕ → ℕ → ℕ
mod_word_loop [] word = 0
mod_word_loop (a ∷ xs) word = rem_word (bit_or (u128 (mod_word_loop xs word * 2 ^ 64)) a) word

-- `sdc_int_mod_word`.
unfoldable pub mod_word : List ℕ → ℕ → ℕ
mod_word xs word = if word == 0 then 0 else mod_word_loop xs word
