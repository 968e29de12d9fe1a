-- ===== src/Integer/Montgomery/Inverse.antt =====
-- Newton's iteration for the inverse of an odd word.
use mathlib.Core.Path.{subst}
use slim_data_crypt.Common.{
  ℕ, ◌+◌, ◌-◌, ◌*◌, ◌/◌, ◌%◌, ◌^◌, ◌<◌, ◌≤◌, ◌≡◌, refl, ap, sym, ◌∙◌, false, bit_and, ◌==◌, sub64,
  arith,
}
use slim_data_crypt.Common.{Bool-cases, inl, inr}
use native.Mathlib.Nat.{mul-le-mul, mod-add-div, mul-add-mod_self_right, mod-eq_of_lt}
use slim_data_crypt.Integer.{IsWord}
use slim_data_crypt.Integer.Remainders.Bits.{and_one}
use slim_data_crypt.Integer.Montgomery.{newton, calculate_ninv}

residue : (a r p q : ℕ) → 1 < r → a + p * r ≡ 1 + q * r → a % r ≡ 1
residue a r p q h e =
    sym (mul-add-mod_self_right p r a)
    ∙ ap (λ t. t % r) (let f : p * r + a ≡ q * r + 1 = omega arith in f)
    ∙ mul-add-mod_self_right q r 1
    ∙ mod-eq_of_lt h

-- `(1 + u) * (1 - u)`, where the second factor stands `m` higher.
squares : (u w m : ℕ) → w + u ≡ m + 1 → (1 + u) * w + u * u ≡ 1 + m * (1 + u)
squares u w m e =
    (let f : (1 + u) * w + u * u ≡ w + u * (w + u) = grind arith in f)
    ∙ ap (λ t. w + u * t) e
    ∙ (let f : w + u * (m + 1) ≡ (w + u) + m * u = grind arith in f)
    ∙ ap (λ t. t + m * u) e
    ∙ (let f : (m + 1) + m * u ≡ 1 + m * (1 + u) = grind arith in f)

-- The step on whole numbers: `y` for `x * inv`, `s` for `2 - y`, `next` for `inv * s`, each with
-- the multiples of `m` that its word leaves out.
combined :
    (x inv y i s e next j t p c m w : ℕ)
    → m ≡ c * (p * p)
    → x * inv ≡ y + m * i
    → y ≡ 1 + p * t
    → w + p * t ≡ m + 1
    → s + m * e ≡ w
    → inv * s ≡ next + m * j
    → x * next + c * (x * j + y * e) * (p * p) + t * t * (p * p)
      ≡ 1 + c * ((1 + p * t) + i * s) * (p * p)
combined x inv y i s e next j t p c m w em ex ey ew es en =
    let u = p * t in
    let first : x * next + m * (x * j) ≡ y * s + m * (i * s) =
      (let f : x * next + m * (x * j) ≡ x * (next + m * j) = grind arith in f)
      ∙ ap (λ k. x * k) (sym en)
      ∙ (let f : x * (inv * s) ≡ x * inv * s = grind arith in f)
      ∙ ap (λ k. k * s) ex
      ∙ (let f : (y + m * i) * s ≡ y * s + m * (i * s) = grind arith in f) in
    let second : y * s + m * (y * e) ≡ (1 + u) * w =
      (let f : y * s + m * (y * e) ≡ y * (s + m * e) = grind arith in f)
      ∙ ap (λ k. y * k) es
      ∙ ap (λ k. k * w) ey in
    let third = squares u w m ew in
    let main : x * next + m * (x * j) + m * (y * e) + u * u ≡ 1 + m * (1 + u) + m * (i * s) =
      omega (arith, first, second, third) in
    let opened : x * next + c * (p * p) * (x * j) + c * (p * p) * (y * e) + u * u
        ≡ 1 + c * (p * p) * (1 + u) + c * (p * p) * (i * s) =
      subst (λ k. x * next + k * (x * j) + k * (y * e) + u * u ≡ 1 + k * (1 + u) + k * (i * s)) em
        main in
    (let f : x * next + c * (x * j + y * e) * (p * p) + t * t * (p * p)
          ≡ x * next + c * (p * p) * (x * j) + c * (p * p) * (y * e) + p * t * (p * t) =
        grind arith in
      f)
    ∙ opened
    ∙ (let f : 1 + c * (p * p) * (1 + p * t) + c * (p * p) * (i * s)
            ≡ 1 + c * ((1 + p * t) + i * s) * (p * p) =
          grind arith in
        f)

below_square : (p : ℕ) → 1 < p → 1 < p * p
below_square p h = let more : 2 * 2 ≤ p * p = mul-le-mul h h in omega (arith, more)

-- From an inverse to the negated one.
negated : (x inv : ℕ) → IsWord inv → x * inv % 2 ^ 64 ≡ 1 → (sub64 0 inv * x + 1) % 2 ^ 64 ≡ 0
negated x inv h e = elim (Bool-cases (inv == 0)) [
  | inl z ↦
      let none : x * inv ≡ 0 =
        ap (λ k. x * k) (let f : inv ≡ 0 = ground arith in f) ∙ omega arith in
      absurd (omega arith)
  | inr z ↦
      let positive : 0 < inv = ground arith in
      let minus = (0 + 2 ^ 64 - inv) % 2 ^ 64 in
      let both : minus + inv ≡ 2 ^ 64 = omega arith in
      let product : minus * x + x * inv ≡ 2 ^ 64 * x =
        (let f : minus * x + x * inv ≡ (minus + inv) * x = grind arith in f)
        ∙ ap (λ k. k * x) both in
      omega (arith, product)
]

-- A step squares the modulus of the inverse.
newton_step :
    (x inv p c : ℕ)
    → 1 < p
    → 2 ^ 64 ≡ c * (p * p)
    → x * inv % p ≡ 1
    → x * newton x inv % (p * p) ≡ 1
unfolding newton
newton_step x inv p c big em h =
    let m : ℕ = 2 ^ 64 in
    let y = x * inv % m in
    let w = 2 + m - y in
    let s = w % m in
    let next = inv * s % m in
    let i = x * inv / m in
    let j = inv * s / m in
    let e = w / m in
    let t = y / p in
    let whole : x * inv ≡ y + m * i = omega arith in
    let again : c * p * i * p + y ≡ x * inv =
      (let f : c * p * i * p + y ≡ y + c * (p * p) * i = grind arith in f)
      ∙ ap (λ k. y + k * i) (sym em)
      ∙ sym whole in
    let one : y % p ≡ 1 =
      sym (mul-add-mod_self_right (c * p * i) p y) ∙ ap (λ k. k % p) again ∙ h in
    let parts : y ≡ 1 + p * t = sym (mod-add-div y p) ∙ ap (λ k. k + p * t) one in
    let above : w + p * t ≡ m + 1 = omega (arith, parts) in
    let sum =
      combined x inv y i s e next j t p c m w em whole parts above (omega arith) (omega arith) in
    residue (x * next) (p * p) (c * (x * j + y * e) + t * t) (c * ((1 + p * t) + i * s))
      (below_square p big)
      ((let f : x * next + (c * (x * j + y * e) + t * t) * (p * p)
              ≡ x * next + c * (x * j + y * e) * (p * p) + t * t * (p * p) =
            grind arith in
          f)
        ∙ sum)

newton-IsWord : (x inv : ℕ) → IsWord (newton x inv)
unfolding newton
newton-IsWord x inv = omega arith

newton_first : (x : ℕ) → IsWord x → newton x 1 ≡ sub64 2 x
unfolding newton
newton_first x h = omega arith

-- Six steps, from the inverse 1 modulo 2.
six_steps :
    (x : ℕ)
    → x % 2 ≡ 1
    → x * newton x (newton x (newton x (newton x (newton x (newton x 1))))) % 2 ^ 64 ≡ 1
six_steps x odd =
    let s1 = newton_step x 1 2 (2 ^ 62) (omega arith) refl (omega arith) in
    let s2 = newton_step x (newton x 1) 4 (2 ^ 60) (omega arith) refl s1 in
    let s3 = newton_step x (newton x (newton x 1)) (2 ^ 4) (2 ^ 56) (omega arith) refl s2 in
    let s4 =
      newton_step x (newton x (newton x (newton x 1))) (2 ^ 8) (2 ^ 48) (omega arith) refl s3 in
    let s5 =
      newton_step x (newton x (newton x (newton x (newton x 1)))) (2 ^ 16) (2 ^ 32) (omega arith)
        refl s4 in
    newton_step x (newton x (newton x (newton x (newton x (newton x 1))))) (2 ^ 32) 1 (omega arith)
      refl s5

-- For an odd word `sdc_int_calculate_ninv` gives the word whose product with it is the word of all
-- ones, the negated inverse that Montgomery multiplication needs.
pub calculate_ninv_lem : (x : ℕ) → IsWord x → x % 2 ≡ 1 → (calculate_ninv x * x + 1) % 2 ^ 64 ≡ 0
unfolding calculate_ninv
calculate_ninv_lem x h odd =
    let is_odd : (bit_and x 1 == 0) ≡ false = ground (arith, and_one x) in
    rw (is_odd, sym (newton_first x h))
      (negated x (newton x (newton x (newton x (newton x (newton x (newton x 1))))))
        (newton-IsWord x _) (six_steps x odd))
