-- ===== src/Integer/Tests.antt =====
-- Concrete runs of the integers, and the theorems at concrete inputs.
use slim_data_crypt.Common.{
  ◌-◌, ℕ, ◌+◌, ◌*◌, ◌%◌, ◌^◌, ◌<◌, ◌≡◌, refl, List, [], ◌∷◌, length, All, arith,
}
use slim_data_crypt.Integer.{IsWord, value, add, sub}
use slim_data_crypt.Integer.Sums.{Sum, Difference, add-Sum, sub-Difference}
use slim_data_crypt.Integer.Products.{mul, mul_lem}
use slim_data_crypt.Integer.Remainders.{reduce}
use slim_data_crypt.Integer.Remainders.Loops.{reduce_lem}
use slim_data_crypt.Integer.Montgomery.{mont_modexp_word, mont_mul, calculate_ninv, newton}
use slim_data_crypt.Integer.Montgomery.Powers.{mont_modexp_word_lem}
use slim_data_crypt.Integer.Montgomery.Multiply.{mont_mul_lem}

abbrev top_word : ℕ
top_word = 2 ^ 64 - 1

abbrev first : List ℕ
first = top_word ∷ 5 ∷ []

abbrev second : List ℕ
second = 3 ∷ top_word ∷ []

first-IsWord : All IsWord first
first-IsWord = omega arith

second-IsWord : All IsWord second
second-IsWord = omega arith

add-Sum_example : Sum 2 (value first + value second) (add first second)
add-Sum_example = add-Sum first second refl first-IsWord second-IsWord

sub-Difference_example : Difference 2 (value first) (value second) (sub first second)
sub-Difference_example = sub-Difference first second refl first-IsWord second-IsWord

mul_lem_example :
    (value (mul first second) ≡ value first * value second)
    × (length (mul first second) ≡ 4)
    × All IsWord (mul first second)
mul_lem_example = mul_lem first second refl (omega arith) first-IsWord second-IsWord

reduce_lem_example : value (reduce [] first (7 ∷ [])) ≡ value first % value (7 ∷ [])
reduce_lem_example =
    reduce_lem (7 ∷ []) (omega arith) (omega arith) [] first first-IsWord (omega arith)

-- The negated inverse of 3 is the whole of 2 ^ 64 less 1, over 3.
ninv_three : calculate_ninv 3 ≡ 0x5555_5555_5555_5555
unfolding calculate_ninv newton
ninv_three = refl

mont_mul_lem_example :
    (value (mont_mul second first second 0x5555_5555_5555_5555) < value second)
    × (value (mont_mul second first second 0x5555_5555_5555_5555) * 2 ^ (2 * 64) % value second
        ≡ value second * value first % value second)
mont_mul_lem_example =
    mont_mul_lem 3 (top_word ∷ []) top_word (5 ∷ []) 0x5555_5555_5555_5555 refl second-IsWord
      first-IsWord (omega arith) second refl (omega arith) second-IsWord

mont_modexp_word_lem_example :
    value (mont_modexp_word (3 ∷ []) (5 ∷ 1 ∷ []) (7 ∷ []) 0x9249249249249249)
    ≡ 3 ^ (5 + 2 ^ 64) % 7
mont_modexp_word_lem_example =
    mont_modexp_word_lem 7 [] 0x9249249249249249 (omega arith, tt) refl refl (3 ∷ []) refl
      (omega arith, tt) (omega arith) (omega arith) (5 ∷ 1 ∷ []) (omega arith, (omega arith, tt))
