-- ===== src/Rsa/Inner/RoundTrip.antt =====
-- `_sdc_rsa_private` on what `_sdc_rsa_public` gives.
use native.Mathlib.Nat.{
  zero-mod, mod-eq_of_lt, mod-add-div', div-lt_iff_lt-mul, mod-lt, add-mul-mod_self_left,
}
use slim_data_crypt.Common.{
  Bool-cases, ◌==◌, zero, suc, ℕ, ◌+◌, ◌-◌, ◌*◌, ◌/◌, ◌%◌, ◌^◌, ◌<◌, ◌≡◌, refl, ap, sym, ◌∙◌, List,
  length, All, IsByte, inl, inr, done, arith,
}
use slim_data_crypt.Common.Modular.{mul_congruent, add-mul-mod, cancel-add, mod-pow, pow-mul}
use slim_data_crypt.Integer.{IsWord, value}
use slim_data_crypt.Integer.Values.{value-injective}
use slim_data_crypt.Integer.Montgomery.Powers.{pow_one}
use slim_data_crypt.Rsa.Inner.Draw.{draw_elsewhere}
use slim_data_crypt.Rsa.Inner.{
  blinding_regions, PublicKey, PrivateKey, rsa_public, rsa_private, draw,
}
use slim_data_crypt.Rsa.Inner.Public.{IsPublicKey, rsa_public_lem}
use slim_data_crypt.Rsa.Inner.Private.{
  IsFermat, power_of_zero, power_of_one, IsPrivateKey, HasRoom, blinded, rsa_private_lem,
}

-- A number below the product of the primes is known from its remainders.
unique :
    (p q qinv a b : ℕ)
    → qinv * q % p ≡ 1
    → 0 < q
    → a % p ≡ b % p
    → a % q ≡ b % q
    → a < p * q
    → b < p * q
    → a ≡ b
unique p q qinv a b inverse some ep eq ha hb =
    sym (mod-add-div' a q)
    ∙ ap (λ t. t + a / q * q) eq
    ∙ ap (λ t. b % q + t * q)
        (cancel-add (qinv * (b % q)) (a / q) (b / q) p (quotient_bound a p q some ha)
          (quotient_bound b p q some hb)
          (ap (λ t. (qinv * t + a / q) % p) (sym eq)
            ∙ sym (scaled a)
            ∙ mul_congruent qinv a qinv b p refl ep
            ∙ scaled b))
    ∙ mod-add-div' b q
  where
    quotient_bound : (x p q : ℕ) → 0 < q → x < p * q → x / q < p
    quotient_bound x p q h l = let both = div-lt_iff_lt-mul h in both.1 l

    scaled : (x : ℕ) → qinv * x % p ≡ (qinv * (x % q) + x / q) % p
    scaled x =
        ap (λ t. qinv * t % p) (sym (mod-add-div' x q))
        ∙ ap (λ t. t % p)
            (let e : qinv * (x % q + x / q * q) ≡ qinv * (x % q) + x / q * (qinv * q) =
                grind arith in
              e)
        ∙ sym (add-mul-mod (qinv * (x % q)) (x / q) (qinv * q) p)
        ∙ ap (λ t. (qinv * (x % q) + x / q * t) % p) inverse
        ∙ ap (λ t. t % p)
            (let e : qinv * (x % q) + x / q * 1 ≡ qinv * (x % q) + x / q = omega arith in e)

-- The two keys of a pair: one modulus, the product of the primes, and exponents that undo one
-- another modulo each prime less 1.
pub record IsKeyPair (pub_key : PublicKey) (key : PrivateKey) : Type 0 where
  pub public_key : IsPublicKey pub_key
  pub private_key : IsPrivateKey key
  pub same_modulus : pub_key.n ≡ key.n
  pub modulus : value key.n ≡ value key.p * value key.q
  pub dp_inverse : pub_key.e * value key.dp % (value key.p - 1) ≡ 1
  pub dq_inverse : pub_key.e * value key.dq % (value key.q - 1) ≡ 1

-- A prime divides the modulus.
reduced : (p q n x : ℕ) → n ≡ p * q → x % n % p ≡ x % p
reduced p q n x product =
    sym (add-mul-mod_self_left (x % n) p (q * (x / n)))
    ∙ ap (λ t. t % p)
        ((let z : x % n + p * (q * (x / n)) ≡ x % n + x / n * (p * q) = grind arith in z)
          ∙ ap (λ t. x % n + x / n * t) (sym product)
          ∙ mod-add-div' x n)

-- Modulo a prime, the power of the power is the number.
undone :
    (p m e d c : ℕ) → IsFermat p m → e * d % (p - 1) ≡ 1 → c % p ≡ m ^ e % p → c ^ d % p ≡ m % p
undone p m e d c f inverse raised =
    sym (mod-pow c d p)
    ∙ ap (λ t. t ^ d % p) raised
    ∙ mod-pow (m ^ e) d p
    ∙ ap (λ t. t % p) (pow-mul m e d)
    ∙ ap (λ t. m ^ t % p)
        (sym (mod-add-div' (e * d) (p - 1)) ∙ ap (λ t. t + e * d / (p - 1) * (p - 1)) inverse)
    ∙ blinded p m f 1 (e * d / (p - 1)) (omega arith)
    ∙ ap (λ t. t % p) (pow_one m)

-- An exponent with an inverse is not 0.
some_exponent : (e d k : ℕ) → e * d % k ≡ 1 → 0 < e
some_exponent zero d k h =
    absurd (omega (arith, h, zero-mod k, ap (λ t. t % k) (let z : 0 * d ≡ 0 = omega arith in z)))
some_exponent (suc e) d k h = omega arith

-- Fermat's little theorem for a number gives it for its powers.
IsFermat-power : (p m e c : ℕ) → IsFermat p m → 1 < p → 0 < e → c % p ≡ m ^ e % p → IsFermat p c
IsFermat-power p m e c f above some raised = record {
  fermat = λ some_c. elim (Bool-cases (m % p == 0)) [
    | inl none ↦
        let e0 : m % p ≡ 0 = ground arith in
        let c0 : c % p ≡ 0 = raised ∙ power_of_zero m e p e0 some in absurd (ground arith)
    | inr some_m ↦
        sym (mod-pow c (p - 1) p)
        ∙ ap (λ t. t ^ (p - 1) % p) raised
        ∙ mod-pow (m ^ e) (p - 1) p
        ∙ ap (λ t. t % p)
            (pow-mul m e (p - 1)
              ∙ ap (λ t. m ^ t) (let z : e * (p - 1) ≡ (p - 1) * e = grind arith in z)
              ∙ sym (pow-mul m (p - 1) e))
        ∙ sym (mod-pow (m ^ (p - 1)) e p)
        ∙ ap (λ t. t ^ e % p) (f.fermat some_m)
        ∙ power_of_one e p
        ∙ mod-eq_of_lt above
  ];
}

-- For a pair of keys with primes of four words at least, and a message of as many words as the
-- modulus and below it, if the generator hands out a number for each prime, whatever stands where
-- its words go, and for both the word that takes the carry of the blinded
-- exponent is not all ones, and Fermat's little theorem holds for the message and both primes: the
-- public operation returns, and the private operation on what it
-- gives returns the message.
pub rsa_private-rsa_public :
    (pub_key : PublicKey) (key : PrivateKey)
    (m spare rng regions rp rng1 regions1 rq rng2 regions2 : List ℕ)
    → IsKeyPair pub_key key
    → length m ≡ length key.n
    → All IsWord m
    → value m < value key.n
    → All IsByte rng
    → draw (length rng) 0 key.p (rng, regions) ≡ done rp (rng1, regions1)
    → draw (length rng1) (length key.p) key.q (rng1, regions1) ≡ done rq (rng2, regions2)
    → HasRoom rp key.p
    → HasRoom rq key.q
    → IsFermat (value key.p) (value m)
    → IsFermat (value key.q) (value m)
    → (c : List ℕ) × (out : List ℕ) × (rsa_public pub_key m spare ≡ done c spare)
      × (rsa_private key c rng ≡ done out rng2)
      × (out ≡ m)
      × (length c ≡ length key.n)
      × All IsWord c
rsa_private-rsa_public pub_key key m spare rng regions rp rng1 regions1 rq rng2 regions2 k size
      words below random first second room1 room2 f1 f2 =
    elim (rsa_public_lem pub_key m spare k.public_key (size ∙ ap length (sym k.same_modulus))
      words) [
        | inl (c, less, run, raised, c_size, c_words) ↦
            let p = value key.p in
            let q = value key.q in
            let crt = k.private_key.crt in
            let power : value c ≡ value m ^ pub_key.e % value key.n =
              raised ∙ ap (λ t. value m ^ pub_key.e % value t) k.same_modulus in
            let c_below : value c < value key.n =
              rw power (mod-lt (value m ^ pub_key.e) (omega (arith, below))) in
            let modulus' : value key.n ≡ q * p =
              k.modulus ∙ (let z : p * q ≡ q * p = grind arith in z) in
            let c_p : value c % p ≡ value m ^ pub_key.e % p =
              ap (λ t. t % p) power ∙ reduced p q (value key.n) (value m ^ pub_key.e) k.modulus in
            let c_q : value c % q ≡ value m ^ pub_key.e % q =
              ap (λ t. t % q) power ∙ reduced q p (value key.n) (value m ^ pub_key.e) modulus' in
            let some = some_exponent pub_key.e (value key.dp) (p - 1) k.dp_inverse in
            let above = k.private_key.above in
            let order = crt.order in
            let (here1, first') =
              draw_elsewhere (length rng) 0 key.p rng regions rp rng1 regions1
                (blinding_regions key c) first in
            let (here2, second') =
              draw_elsewhere (length rng1) (length key.p) key.q rng1 regions1 rq rng2 regions2 here1
                second in
            let (out, run', mod_p, mod_q, bound, out_size, out_words) =
              rsa_private_lem key c rng rp rng1 here1 rq rng2 here2 k.private_key
                (c_size ∙ ap length k.same_modulus) c_words c_below random first' second' room1
                room2 (IsFermat-power p (value m) pub_key.e (value c) f1 (omega arith) some c_p)
                (IsFermat-power q (value m) pub_key.e (value c) f2 above some c_q) in
            (
              c,
              out,
              run,
              run',
              value-injective out m (out_size ∙ sym size) out_words words (
                  unique p q (value key.qinv) (value out) (value m) crt.inverse
                    (omega (arith, above))
                    (mod_p
                      ∙ undone p (value m) pub_key.e (value key.dp) (value c) f1 k.dp_inverse c_p)
                    (mod_q
                      ∙ undone q (value m) pub_key.e (value key.dq) (value c) f2 k.dq_inverse c_q)
                    bound (rw (sym k.modulus) below)),
              c_size ∙ ap length k.same_modulus,
              c_words,
            )
        | inr (more, run) ↦ absurd (omega (arith, more, below, ap value k.same_modulus))
      ]
