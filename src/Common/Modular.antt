-- ===== src/Common/Modular.antt =====
-- Remainders of products and powers, and division by a power of two modulo an odd number.
use slim_data_crypt.Common.{
  ℕ, zero, suc, ◌+◌, ◌-◌, ◌*◌, ◌/◌, ◌%◌, ◌^◌, ◌<◌, ◌≤◌, ◌≡◌, ◌⊎◌, inl, inr, refl, ap, sym, ◌∙◌,
  arith, leb, Bool-cases,
}
use native.Mathlib.Nat.{
  add-mod-mod, add-mul-mod_self_right, mod-add-div', mod-eq_of_lt, mod-eq-sub-mod, mod-lt, pow-suc,
  pow-zero,
}

pub mod-mul : (a b n : ℕ) → a % n * b % n ≡ a * b % n
mod-mul a b n =
    sym (add-mul-mod_self_right (a % n * b) (a / n * b) n)
    ∙ ap (λ t. t % n)
        ((let e : a % n * b + a / n * b * n ≡ (a % n + a / n * n) * b = grind arith in e)
          ∙ ap (λ t. t * b) (mod-add-div' a n))

pub mul-mod : (a b n : ℕ) → a * (b % n) % n ≡ a * b % n
mul-mod a b n =
    ap (λ t. t % n) (let e : a * (b % n) ≡ b % n * a = grind arith in e)
    ∙ mod-mul b a n
    ∙ ap (λ t. t % n) (let e : b * a ≡ a * b = grind arith in e)

pub mul_congruent : (a b c d n : ℕ) → a % n ≡ c % n → b % n ≡ d % n → a * b % n ≡ c * d % n
mul_congruent a b c d n p q =
    sym (mod-mul a b n)
    ∙ ap (λ t. t * b % n) p
    ∙ mod-mul c b n
    ∙ sym (mul-mod c b n)
    ∙ ap (λ t. c * t % n) q
    ∙ mul-mod c d n

pub add-mul-mod : (s q x p : ℕ) → (s + q * (x % p)) % p ≡ (s + q * x) % p
add-mul-mod s q x p =
    sym (add-mul-mod_self_right (s + q * (x % p)) (q * (x / p)) p)
    ∙ ap (λ t. t % p)
        (let e : s + q * (x % p) + q * (x / p) * p ≡ s + q * (x % p + x / p * p) = grind arith in e)
    ∙ ap (λ t. (s + q * t) % p) (mod-add-div' x p)

pub cancel-add : (k u v p : ℕ) → u < p → v < p → (k + u) % p ≡ (k + v) % p → u ≡ v
cancel-add k u v zero h l e = absurd (omega arith)
cancel-add k u v (suc p) h l e = sym (back u h) ∙ ap (λ t. (k * p + t) % suc p) e ∙ back v l
  where
    back : (x : ℕ) → x < suc p → (k * p + (k + x) % suc p) % suc p ≡ x
    back x h =
        add-mod-mod (k * p) (k + x) (suc p)
        ∙ ap (λ t. t % suc p) (let e : k * p + (k + x) ≡ x + k * suc p = grind arith in e)
        ∙ add-mul-mod_self_right x k (suc p)
        ∙ mod-eq_of_lt h

pub mod-pow : (a k n : ℕ) → (a % n) ^ k % n ≡ a ^ k % n
mod-pow a zero n = rw (pow-zero (a % n), pow-zero a) refl
mod-pow a (suc k) n =
    ap (λ t. t % n) (pow-suc (a % n) k)
    ∙ mul_congruent ((a % n) ^ k) (a % n) (a ^ k) a n (mod-pow a k n)
        (ap (λ t. t % n) (sym (one_times (a % n))) ∙ mul-mod 1 a n ∙ ap (λ t. t % n) (one_times a))
    ∙ ap (λ t. t % n) (sym (pow-suc a k))
  where
    one_times : (x : ℕ) → 1 * x ≡ x
    one_times x = omega arith

-- Powers.
pub pow_add : (b i j : ℕ) → b ^ (i + j) ≡ b ^ i * b ^ j
pow_add b i zero =
    ap (λ t. b ^ t) (let e : i + 0 ≡ i = omega arith in e)
    ∙ (let e : b ^ i ≡ b ^ i * 1 = omega arith in e)
    ∙ ap (λ t. b ^ i * t) (sym (pow-zero b))
pow_add b i (suc j) =
    ap (λ t. b ^ t) (let e : i + suc j ≡ suc (i + j) = omega arith in e)
    ∙ pow-suc b (i + j)
    ∙ ap (λ t. t * b) (pow_add b i j)
    ∙ (let e : b ^ i * b ^ j * b ≡ b ^ i * (b ^ j * b) = grind arith in e)
    ∙ ap (λ t. b ^ i * t) (sym (pow-suc b j))

pub mul-pow : (a b k : ℕ) → (a * b) ^ k ≡ a ^ k * b ^ k
mul-pow a b zero = rw (pow-zero (a * b), pow-zero a, pow-zero b) refl
mul-pow a b (suc k) =
    pow-suc (a * b) k
    ∙ ap (λ t. t * (a * b)) (mul-pow a b k)
    ∙ (let e : a ^ k * b ^ k * (a * b) ≡ a ^ k * a * (b ^ k * b) = grind arith in e)
    ∙ ap (λ t. t * (b ^ k * b)) (sym (pow-suc a k))
    ∙ ap (λ t. a ^ suc k * t) (sym (pow-suc b k))

pub pow-mul : (b i j : ℕ) → (b ^ i) ^ j ≡ b ^ (i * j)
pow-mul b i zero =
    pow-zero (b ^ i) ∙ sym (pow-zero b) ∙ ap (λ t. b ^ t) (let e : 0 ≡ i * 0 = omega arith in e)
pow-mul b i (suc j) =
    pow-suc (b ^ i) j
    ∙ ap (λ t. t * b ^ i) (pow-mul b i j)
    ∙ sym (pow_add b (i * j) i)
    ∙ ap (λ t. b ^ t) (let e : i * j + i ≡ i * suc j = grind arith in e)

pub one-pow : (k : ℕ) → 1 ^ k ≡ 1
one-pow zero = refl
one-pow (suc k) = pow-suc 1 k ∙ omega (arith, one-pow k)

-- The double of a number below `n`, modulo `n`.
double_cases : (a n : ℕ) → a < n → (a * 2 % n ≡ a * 2) ⊎ (a * 2 % n + n ≡ a * 2)
double_cases a n h = elim (Bool-cases (leb n (a * 2))) [
  | inl e ↦
      let less : a * 2 - n < n = omega arith in
      let more : n ≤ a * 2 = ground arith in
      let here : a * 2 % n ≡ a * 2 - n = mod-eq-sub-mod more ∙ mod-eq_of_lt less in
      inr (omega arith)
  | inr e ↦ inl (mod-eq_of_lt (let less : a * 2 < n = ground arith in less))
]

halve : (a b n : ℕ) → n % 2 ≡ 1 → a < n → b < n → a * 2 % n ≡ b * 2 % n → a ≡ b
halve a b n odd h k e = elim (double_cases a n h) [
  | inl p ↦ elim (double_cases b n k) [ inl q ↦ omega arith | inr q ↦ omega arith ]
  | inr p ↦ elim (double_cases b n k) [ inl q ↦ omega arith | inr q ↦ omega arith ]
]

pub cancel-pow : (k a b n : ℕ) → n % 2 ≡ 1 → a < n → b < n → a * 2 ^ k % n ≡ b * 2 ^ k % n → a ≡ b
cancel-pow zero a b n odd h l e =
    sym (mod-eq_of_lt h)
    ∙ ap (λ t. t % n) (let m : a ≡ a * 2 ^ 0 = omega arith in m)
    ∙ e
    ∙ ap (λ t. t % n) (let m : b * 2 ^ 0 ≡ b = omega arith in m)
    ∙ mod-eq_of_lt l
cancel-pow (suc k) a b n odd h l e =
    let positive : 0 < n = omega arith in
    halve a b n odd h l (
      cancel-pow k (a * 2 % n) (b * 2 % n) n odd (mod-lt (a * 2) positive) (mod-lt (b * 2) positive)
        (first a ∙ e ∙ sym (first b)))
  where
    first : (x : ℕ) → x * 2 % n * 2 ^ k % n ≡ x * 2 ^ suc k % n
    first x =
        mod-mul (x * 2) (2 ^ k) n
        ∙ ap (λ t. t % n)
            ((let m : x * 2 * 2 ^ k ≡ x * (2 ^ k * 2) = grind arith in m)
              ∙ ap (λ t. x * t) (sym (pow-suc 2 k)))
