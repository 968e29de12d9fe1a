-- ===== src/Rsa/Inner/Private.antt =====
-- `_sdc_rsa_private` of src/rsa/rsa_inner.c, and powers modulo the primes.

use native.Mathlib.Nat.{mod-lt, pow-suc, zero-mod}
use slim_data_crypt.Common.{
  ℕ, zero, suc, ◌+◌, ◌-◌, ◌*◌, ◌%◌, ◌^◌, ◌<◌, ◌≡◌, refl, ap, sym, ◌∙◌, false, List, [], ◌∷◌, length,
  drop, take, take_of_append, drop_of_append, drop-drop, append-nil, ◌++◌, ◌≤◌, All, IsByte, get_or,
  leb, ◌==◌, ◌||◌, Bool-cases, inl, inr, done, arith,
}
use slim_data_crypt.Common.Words.{byte_at}
use slim_data_crypt.Common.Modular.{mod-pow, mul_congruent, pow_add, pow-mul, one-pow}
use slim_data_crypt.Integer.{IsWord, value, zeros, sub_word}
use slim_data_crypt.Integer.Compare.{gte_lem}
use slim_data_crypt.Integer.Products.{mul}
use slim_data_crypt.Integer.Remainders.{reduce}
use slim_data_crypt.Integer.Remainders.Loops.{reduce_lem, reduce_words}
use slim_data_crypt.Integer.Montgomery.{mont_modexp_word, calculate_ninv}
use slim_data_crypt.Integer.Montgomery.Powers.{mont_modexp_word_lem, mont_modexp_word_words}
use slim_data_crypt.Integer.Values.{zeros_lem}
use slim_data_crypt.Rsa.Inner.{
  region, blinding_regions, blinding_words, PrivateKey, rsa_private, draw, blind_exponent,
  recombine,
}
use slim_data_crypt.Rsa.Inner.Crt.{IsCrtKey, recombine_lem, recombine_words}
use slim_data_crypt.Rsa.Inner.Draw.{sub_one, draw-Drawn, blind_exponent_lem}
use slim_data_crypt.Rsa.Inner.Public.{ninv_lem}

-- Fermat's little theorem for the number `a` and `p`, as it holds for every `a` if `p` is prime.
pub record IsFermat (p a : ℕ) : Type 0 where
  pub fermat : (a % p == 0) ≡ false → a ^ (p - 1) % p ≡ 1

-- A word of the product that takes the carry, and is not all ones.
abbrev pub HasRoom : List ℕ → List ℕ → Type 0
HasRoom r m = get_or (drop (length m) (mul r (sub_word m 1).0)) 0 0 + 1 < 2 ^ 64

pub power_of_zero : (a k p : ℕ) → a % p ≡ 0 → 0 < k → a ^ k % p ≡ 0
power_of_zero a zero p e h = absurd (omega arith)
power_of_zero a (suc k) p e h =
    sym (mod-pow a (suc k) p)
    ∙ ap (λ t. t ^ suc k % p) e
    ∙ ap (λ t. t % p) (pow-suc 0 k ∙ (let z : 0 ^ k * 0 ≡ 0 = omega arith in z))
    ∙ zero-mod p

pub power_of_one : (k p : ℕ) → 1 ^ k % p ≡ 1 % p
power_of_one k p = ap (λ t. t % p) (one-pow k)

-- A multiple of `p - 1` in the exponent changes nothing.
pub blinded : (p a : ℕ) → IsFermat p a → (d r : ℕ) → 0 < d → a ^ (d + r * (p - 1)) % p ≡ a ^ d % p
blinded p a f d r h = elim (Bool-cases (a % p == 0)) [
  | inl none ↦
      let e : a % p ≡ 0 = ground arith in
      power_of_zero a (d + r * (p - 1)) p e (omega arith) ∙ sym (power_of_zero a d p e h)
  | inr some_number ↦
      ap (λ t. t % p) (pow_add a d (r * (p - 1)))
      ∙ mul_congruent (a ^ d) (a ^ (r * (p - 1))) (a ^ d) 1 p refl (
          ap (λ t. a ^ t % p) (let e : r * (p - 1) ≡ (p - 1) * r = grind arith in e)
          ∙ ap (λ t. t % p) (sym (pow-mul a (p - 1) r))
          ∙ sym (mod-pow (a ^ (p - 1)) r p)
          ∙ ap (λ t. t ^ r % p) (f.fermat some_number)
          ∙ power_of_one r p)
      ∙ ap (λ t. t % p) (let e : a ^ d * 1 ≡ a ^ d = omega arith in e)
]

-- One of the two powers.
blinded_power :
    (m d r c start : List ℕ)
    → All IsWord m
    → value m % 2 ≡ 1
    → 1 < value m
    → IsFermat (value m) (value c)
    → length d ≡ length m
    → length r ≡ length m
    → All IsWord d
    → All IsWord r
    → All IsWord c
    → 0 < value d
    → HasRoom r m
    → let s =
        mont_modexp_word
          (reduce start c m)
          (blind_exponent d r (sub_word m 1).0)
          m
          (calculate_ninv (byte_at m 0)) in
      (length s ≡ length m) × All IsWord s × (value s ≡ value c ^ value d % value m)
blinded_power [] d r c start pm odd above f ld lr pd pr pc h room = absurd (omega arith)
blinded_power (m0 ∷ ms) d r c start pm odd above f ld lr pd pr pc h room =
    let m = m0 ∷ ms in
    let base = reduce start c m in
    let (size, words) = reduce_words m (omega arith) pm start c pc (omega arith) in
    let same = reduce_lem m (omega arith) pm start c pc (omega arith) in
    let below : value base < value m = rw same (mod-lt (value c) (omega arith)) in
    let inverse = ninv_lem m0 ms pm.0 odd in
    let (e_words, e_value) = blind_exponent_lem d r m (omega arith) ld lr pd pr pm odd room in
    let e = blind_exponent d r (sub_word m 1).0 in
    let shape =
      mont_modexp_word_words m0 ms (calculate_ninv m0) pm odd inverse base size words above below e
        e_words in
    (
      shape.0,
      shape.1,
      mont_modexp_word_lem m0 ms (calculate_ninv m0) pm odd inverse base size words above below e
            e_words
          ∙ ap (λ t. value base ^ t % value m) e_value
          ∙ ap (λ t. t ^ (value d + value r * (value m - 1)) % value m) same
          ∙ mod-pow (value c) (value d + value r * (value m - 1)) (value m)
          ∙ blinded (value m) (value c) f (value d) (value r) h,
    )

-- A key whose numbers are words and fit together as the arithmetic needs it.
pub record IsPrivateKey (key : PrivateKey) : Type 0 where
  pub crt : IsCrtKey key
  pub wide : blinding_words ≤ length key.p
  pub p_odd : value key.p % 2 ≡ 1
  pub q_odd : value key.q % 2 ≡ 1
  pub above : 1 < value key.q
  pub dp_length : length key.dp ≡ length key.p
  pub dq_length : length key.dq ≡ length key.p
  pub dp_words : All IsWord key.dp
  pub dq_words : All IsWord key.dq
  pub some_dp : 0 < value key.dp
  pub some_dq : 0 < value key.dq
  pub n_words : All IsWord key.n

-- With primes of four words or more, the draws leave the regions behind `rq_raw` as they were.
kept_region :
    (len1 : ℕ) (before after : List ℕ) (i : ℕ)
    → ((k : ℕ) → 2 * len1 ≤ k → drop k after ≡ drop k before)
    → 2 ≤ i
    → region len1 after i ≡ region len1 before i
unfolding region
kept_region len1 before after i kept h = ap (take len1) (kept (i * len1) (grind arith))

region_next :
    (len1 : ℕ) (xs ys : List ℕ) (i : ℕ)
    → length xs ≡ len1
    → region len1 (xs ++ ys) (suc i) ≡ region len1 ys i
unfolding region
region_next len1 xs ys i l = ap (take len1) (
    ap (λ k. drop k (xs ++ ys)) (let e : suc i * len1 ≡ len1 + i * len1 = grind arith in e)
    ∙ sym (drop-drop (i * len1) len1 (xs ++ ys))
    ∙ ap (drop (i * len1)) (drop_of_append xs ys len1 (sym l)))

region_first : (len1 : ℕ) (xs ys : List ℕ) → length xs ≡ len1 → region len1 (xs ++ ys) 0 ≡ xs
unfolding region
region_first len1 xs ys l =
    ap (λ k. take len1 (drop k (xs ++ ys))) (let e : 0 * len1 ≡ 0 = omega arith in e)
    ∙ take_of_append xs ys len1 (sym l)

-- The regions that the key fills, apart.
regions_apart :
    (key : PrivateKey) (c : List ℕ)
    → length (sub_word key.p 1).0 ≡ length key.p
    → length (sub_word key.q 1).0 ≡ length key.p
    → length (reduce (zeros (length key.p)) c key.p) ≡ length key.p
    → length (reduce (zeros (length key.p)) c key.q) ≡ length key.p
    → let at = region (length key.p) (blinding_regions key c) in
      (at 2 ≡ (sub_word key.p 1).0)
      × (at 3 ≡ (sub_word key.q 1).0)
      × (at 4 ≡ reduce (zeros (length key.p)) c key.p)
      × (at 5 ≡ reduce (zeros (length key.p)) c key.q)
unfolding blinding_regions
regions_apart key c l2 l3 l4 l5 =
    let n = length key.p in
    let z = zeros n in
    let size = (zeros_lem n).1 in
    let r2 = (sub_word key.p 1).0 in
    let r3 = (sub_word key.q 1).0 in
    let r4 = reduce z c key.p in
    let r5 = reduce z c key.q in
    let t4 = r4 ++ r5 in
    let t3 = r3 ++ t4 in
    let t2 = r2 ++ t3 in
    let skip = λ (i : ℕ). region_next n z (z ++ t2) (suc i) size ∙ region_next n z t2 i size in
    (
      skip 0 ∙ region_first n r2 t3 l2,
      skip 1 ∙ region_next n r2 t3 0 l2 ∙ region_first n r3 t4 l3,
      skip 2 ∙ region_next n r2 t3 1 l2 ∙ region_next n r3 t4 0 l3 ∙ region_first n r4 r5 l4,
      skip 3
          ∙ region_next n r2 t3 2 l2
          ∙ region_next n r3 t4 1 l3
          ∙ region_next n r4 r5 0 l4
          ∙ ap (λ t. region n t 0) (sym (append-nil r5))
          ∙ region_first n r5 [] l5,
    )

-- For a key with odd primes of four words at least, the larger one first, exponents that are not 0 and an input of as many
-- words as the modulus and below it: if the generator hands out a number for each prime, and for
-- both the word that takes the carry of the blinded exponent is not all ones, the operation returns
-- the words of the number below the product of the primes that is the input to the power of `dp` modulo the first
-- prime, and to the power of `dq` modulo the second. That the primes are prime is asked for as
-- Fermat's little theorem for the input.
pub rsa_private_lem :
    (key : PrivateKey) (c rng rp rng1 regions1 rq rng2 regions2 : List ℕ)
    → IsPrivateKey key
    → length c ≡ length key.n
    → All IsWord c
    → value c < value key.n
    → All IsByte rng
    → draw (length rng) 0 key.p (rng, blinding_regions key c) ≡ done rp (rng1, regions1)
    → draw (length rng1) (length key.p) key.q (rng1, regions1) ≡ done rq (rng2, regions2)
    → HasRoom rp key.p
    → HasRoom rq key.q
    → IsFermat (value key.p) (value c)
    → IsFermat (value key.q) (value c)
    → (out : List ℕ) × (rsa_private key c rng ≡ done out rng2)
      × (value out % value key.p ≡ value c ^ value key.dp % value key.p)
      × (value out % value key.q ≡ value c ^ value key.dq % value key.q)
      × (value out < value key.p * value key.q)
      × (length out ≡ length key.n)
      × All IsWord out
unfolding rsa_private
rsa_private_lem key c rng rp rng1 regions1 rq rng2 regions2 k size words below random first second
      room1 room2 f1 f2 =
    let start = zeros (length key.p) in
    let some_word = k.crt.some_word in
    let double = k.crt.double_length in
    let no_words : (length key.p == 0 || length key.n == 0) ≡ false =
      let one : (length key.p == 0) ≡ false = ground arith in
      let two : (length key.n == 0) ≡ false = ground (arith, double) in rw (one, two) refl in
    let test = gte_lem c key.n size words k.n_words in
    let small : leb (value key.n) (value c) ≡ false = ground arith in
    let above_q = k.above in
    let order = k.crt.order in
    let above_p : 1 < value key.p = omega arith in
    let drawn_p =
      draw-Drawn (length rng) 0 key.p rng (blinding_regions key c) rp rng1 regions1 some_word
        k.crt.p_words (omega arith) random first in
    let drawn_q =
      draw-Drawn (length rng1) (length key.p) key.q rng1 regions1 rq rng2 regions2
        (omega (arith, k.crt.same_length)) k.crt.q_words (omega arith) drawn_p.bytes second in
    let (size1, words1, power1) =
      blinded_power key.p key.dp rp c start k.crt.p_words k.p_odd above_p f1 k.dp_length
        drawn_p.same_length k.dp_words drawn_p.words words k.some_dp room1 in
    let (size2, words2, power2) =
      blinded_power key.q key.dq rq c start k.crt.q_words k.q_odd above_q f2
        (k.dq_length ∙ sym k.crt.same_length) drawn_q.same_length k.dq_words drawn_q.words words
        k.some_dq room2 in
    let s1 =
      mont_modexp_word (reduce start c key.p) (blind_exponent key.dp rp (sub_word key.p 1).0) key.p
        (calculate_ninv (byte_at key.p 0)) in
    let s2 =
      mont_modexp_word (reduce start c key.q) (blind_exponent key.dq rq (sub_word key.q 1).0) key.q
        (calculate_ninv (byte_at key.q 0)) in
    let shape =
      recombine_words key k.crt s1 s2 size1 (size2 ∙ k.crt.same_length) words1 words2
        (rw power1 (mod-lt (value c ^ value key.dp) (omega arith)))
        (rw power2 (mod-lt (value c ^ value key.dq) (omega arith))) in
    let joined =
      recombine_lem key k.crt s1 s2 size1 (size2 ∙ k.crt.same_length) words1 words2
        (rw power1 (mod-lt (value c ^ value key.dp) (omega arith)))
        (rw power2 (mod-lt (value c ^ value key.dq) (omega arith))) in
    let n = length key.p in
    let wide = k.wide in
    let kept : (i : ℕ) → 2 ≤ i → region n regions2 i ≡ region n (blinding_regions key c) i =
      λ i high.
        kept_region n (blinding_regions key c) regions2 i
          (λ j far. drawn_q.behind j (omega arith) ∙ drawn_p.behind j (omega arith)) high in
    let (at2, at3, at4, at5) =
      regions_apart key c (sub_one key.p k.crt.p_words k.p_odd).0
        ((sub_one key.q k.crt.q_words k.q_odd).0 ∙ k.crt.same_length)
        (reduce_words key.p some_word k.crt.p_words start c words (omega arith)).0
        ((reduce_words key.q (omega (arith, k.crt.same_length)) k.crt.q_words start c words
            (omega arith)).0
          ∙ k.crt.same_length) in
    (
      recombine key s1 s2,
      rw
          (
            no_words,
            test,
            small,
            first,
            second,
            kept 2 (omega arith) ∙ at2,
            kept 3 (omega arith) ∙ at3,
            kept 4 (omega arith) ∙ at4,
            kept 5 (omega arith) ∙ at5,
          )
          refl,
      joined.0 ∙ power1,
      joined.1 ∙ power2,
      joined.2,
      shape.0,
      shape.1,
    )
