-- ===== src/Rsa/Inner/Public.antt =====
-- `_sdc_rsa_public` of src/rsa/rsa_inner.c, and powers modulo `n`.
use native.Mathlib.Nat.{mod-eq_of_lt}
use slim_data_crypt.Common.{
  ℕ, suc, ◌+◌, ◌*◌, ◌%◌, ◌^◌, ◌<◌, ◌≤◌, ◌≡◌, ◌⊎◌, inl, inr, refl, ap, ◌∙◌, false, List, [], ◌∷◌,
  length, All, arith, leb, ◌==◌, Bool-cases, done, fail,
}
use slim_data_crypt.Common.{key_invalid}
use slim_data_crypt.Integer.{IsWord, value}
use slim_data_crypt.Integer.Compare.{gte_lem}
use slim_data_crypt.Integer.Montgomery.{mont_modexp_with_ebits_vartime, calculate_ninv}
use slim_data_crypt.Integer.Montgomery.Inverse.{calculate_ninv_lem}
use slim_data_crypt.Integer.Montgomery.Powers.{
  mont_modexp_with_ebits_vartime_lem, mont_modexp_with_ebits_vartime_words,
}
use slim_data_crypt.Rsa.Inner.{PublicKey, rsa_public}

-- A key with an odd modulus, as the arithmetic needs it, and the size of the exponent in bits.
pub record IsPublicKey (key : PublicKey) : Type 0 where
  pub words : All IsWord key.n
  pub odd : value key.n % 2 ≡ 1
  pub above : 1 < value key.n
  pub bits : key.e < 2 ^ key.e_bits

-- The inverse of the lowest word of an odd number.
pub ninv_lem :
    (m : ℕ) (ns : List ℕ)
    → IsWord m
    → value (m ∷ ns) % 2 ≡ 1
    → (calculate_ninv m * m + 1) % 2 ^ 64 ≡ 0
ninv_lem m ns h odd = calculate_ninv_lem m h (omega arith)

raised :
    (m : ℕ) (ns a : List ℕ) (e e_bits : ℕ)
    → All IsWord (m ∷ ns)
    → value (m ∷ ns) % 2 ≡ 1
    → 1 < value (m ∷ ns)
    → e < 2 ^ e_bits
    → length a ≡ length (m ∷ ns)
    → All IsWord a
    → value a < value (m ∷ ns)
    → let out = mont_modexp_with_ebits_vartime a e e_bits (m ∷ ns) (calculate_ninv m) in
      (value out ≡ value a ^ e % value (m ∷ ns)) × (length out ≡ length (m ∷ ns)) × All IsWord out
raised m ns a e e_bits moduli odd above bits size words below =
    let inverse = ninv_lem m ns moduli.0 odd in
    let shape =
      mont_modexp_with_ebits_vartime_words m ns (calculate_ninv m) moduli odd inverse a size words
        above below e e_bits in
    (
      mont_modexp_with_ebits_vartime_lem m ns (calculate_ninv m) moduli odd inverse a size words
            above below e e_bits
          ∙ ap (λ t. value a ^ t % value (m ∷ ns)) (mod-eq_of_lt bits),
      shape.0,
      shape.1,
    )

by_words :
    (n m rng : List ℕ) (e e_bits : ℕ)
    → IsPublicKey (record { n = n; e = e; e_bits = e_bits })
    → length m ≡ length n
    → All IsWord m
    → ((out : List ℕ) × (value m < value n)
        × (rsa_public (record { n = n; e = e; e_bits = e_bits }) m rng ≡ done out rng)
        × (value out ≡ value m ^ e % value n)
        × (length out ≡ length n)
        × All IsWord out)
      ⊎ ((value n ≤ value m)
          × (rsa_public (record { n = n; e = e; e_bits = e_bits }) m rng ≡ fail key_invalid rng))
unfolding rsa_public
by_words [] m rng e e_bits k size words = absurd (omega (arith, k.above))
by_words (n0 ∷ ns) m rng e e_bits k size words =
    let test = gte_lem m (n0 ∷ ns) size words k.words in
    let some_word : (suc (length ns) == 0) ≡ false = ground arith in
    elim (Bool-cases (leb (value (n0 ∷ ns)) (value m))) [
      | inl more ↦ inr (ground arith, rw (test, more, some_word) refl)
      | inr less ↦
          let made =
            raised n0 ns m e e_bits k.words k.odd k.above k.bits size words (ground arith) in
          inl (
            mont_modexp_with_ebits_vartime m e e_bits (n0 ∷ ns) (calculate_ninv n0),
            ground arith,
            rw (test, less, some_word) refl,
            made.0,
            made.1,
            made.2,
          )
    ]

-- For a key with an odd modulus above 1 and a message of as many words as it has: the operation
-- gives the words of the message to the power of the exponent, modulo the modulus, if it is below the
-- modulus, and else the error for a bad key.
pub rsa_public_lem :
    (key : PublicKey) (m rng : List ℕ)
    → IsPublicKey key
    → length m ≡ length key.n
    → All IsWord m
    → ((out : List ℕ) × (value m < value key.n)
        × (rsa_public key m rng ≡ done out rng)
        × (value out ≡ value m ^ key.e % value key.n)
        × (length out ≡ length key.n)
        × All IsWord out)
      ⊎ ((value key.n ≤ value m) × (rsa_public key m rng ≡ fail key_invalid rng))
rsa_public_lem key m rng k size words = by_words key.n m rng key.e key.e_bits k size words
