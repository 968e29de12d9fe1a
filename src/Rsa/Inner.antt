-- ===== src/Rsa/Inner.antt =====
-- src/rsa/rsa_inner.c: the operations with the public and the private key, the latter with
-- blinding (SDC_RSA_ENABLE_BLINDING is 1 in include/sdcrypt/config.h). The regions of `tmp` from
-- `rp_raw` on are one list, as the drawn words can reach beyond `rp_raw` and `rq_raw`. The generator
-- of random bytes is the list of those that it hands out before it fails, as in Rsa/Padding.
pub mod Crt
pub mod Public
pub mod Draw
pub mod Private
pub mod RoundTrip
use slim_data_crypt.Common.{
  ℕ, zero, suc, ◌*◌, write_at, fault, ◌+◌, ◌-◌, List, [], ◌∷◌, ◌++◌, length, take, drop, replicate,
  u64, ltb, ◌==◌, ◌||◌, not, if◌then◌else◌, Call, Outcome, next, done, fail,
}
use slim_data_crypt.Common.{invalid_param, key_invalid, random_fail}
use slim_data_crypt.Common.Words.{byte_at}
use slim_data_crypt.Integer.{lt, gte, eq_word, add, sub, add_ctl, sub_word, zeros}
use slim_data_crypt.Integer.Bytes.{frombytes_le}
use slim_data_crypt.Integer.Products.{mul}
use slim_data_crypt.Integer.Remainders.{reduce}
use slim_data_crypt.Integer.Montgomery.{
  mont_modexp_word, mont_modexp_with_ebits_vartime, calculate_ninv,
}

-- `sdc_rsa_pubkey_t` of include/sdcrypt/rsa.h; `nlen` is the length of `n`.
pub record PublicKey : Type 0 where
  pub n : List ℕ
  pub e : ℕ
  pub e_bits : ℕ

-- `sdc_rsa_privkey_t`; `len1` is the length of `p`, `len2` that of `n`.
pub record PrivateKey : Type 0 where
  pub p : List ℕ
  pub q : List ℕ
  pub dp : List ℕ
  pub dq : List ℕ
  pub qinv : List ℕ
  pub d : List ℕ
  pub n : List ℕ

-- `_sdc_rsa_public`, on a message of as many words as the modulus.
unfoldable pub rsa_public : PublicKey → List ℕ → Call (List ℕ) (List ℕ)
rsa_public pub_key m rng =
    if length pub_key.n == 0
    then fail invalid_param rng
    else if not (gte m pub_key.n == 0)
    then fail key_invalid rng
    else done
        (mont_modexp_with_ebits_vartime m pub_key.e pub_key.e_bits pub_key.n
          (calculate_ninv (byte_at pub_key.n 0)))
        rng

-- SDC_RSA_BLINDING_WORDS
abbrev pub blinding_words : ℕ
blinding_words = 4

-- The loop that draws a number, reduced by `m`, until it is not 0. The drawn words go to `regions`
-- from `place` on, whatever stands there. Each round takes 32 bytes, so that the number of bytes is
-- enough fuel. The state is the generator and the regions.
unfoldable pub draw : ℕ → ℕ → List ℕ → Call (List ℕ × List ℕ) (List ℕ)
draw zero place m (rng, regions) = fail random_fail ([], regions)
draw (suc fuel) place m (rng, regions) =
    let raw = frombytes_le blinding_words (take 32 rng) in
    let written = write_at place raw regions in
    let drawn = reduce (zeros (length m)) raw m in
    let again = draw fuel place m (drop 32 rng, written) in
    if ltb (length rng) 32
    then fail random_fail ([], regions)
    else if not (eq_word drawn 0 == 0)
    then again
    else done drawn (drop 32 rng, written)

-- `high[0] += carry;`
unfoldable pub carry_into : List ℕ → ℕ → List ℕ
carry_into [] carry = []
carry_into (w ∷ ws) carry = u64 (w + carry) ∷ ws

-- `d + r * less` in twice the words, where `less` is `p_minus_1` or `q_minus_1`.
unfoldable pub blind_exponent : List ℕ → List ℕ → List ℕ → List ℕ
blind_exponent d r less =
    let product = mul r less in
    let low = add (take (length less) product) d in
    low.0 ++ carry_into (drop (length less) product) low.1

-- `rp_raw`, `rq_raw`, `p_minus_1`, `q_minus_1`, `base1` and `base2`, of `len1` words each. What the
-- first two hold before the draws is not read.
unfoldable pub blinding_regions : PrivateKey → List ℕ → List ℕ
blinding_regions key c =
    zeros (length key.p)
    ++ (zeros (length key.p)
        ++ ((sub_word key.p 1).0
            ++ ((sub_word key.q 1).0
                ++ (reduce (zeros (length key.p)) c key.p
                    ++ reduce (zeros (length key.p)) c key.q))))

-- The region `i` of `len1` words.
unfoldable pub region : ℕ → List ℕ → ℕ → List ℕ
region len1 regions i = take len1 (drop (i * len1) regions)

-- The recombination by Garner, from the two powers.
unfoldable pub recombine : PrivateKey → List ℕ → List ℕ → List ℕ
recombine key s1 s2 =
    let t = (add_ctl (sub s1 s2).0 key.p (lt s1 s2)).0 in
    let t' = reduce t (mul t key.qinv) key.p in
    let out = s2 ++ zeros (length key.n - length key.p) in (add out (mul key.q t')).0

-- The regions end with the call.
abbrev pub only_rng : Outcome (List ℕ × List ℕ) (List ℕ) → Outcome (List ℕ) (List ℕ)
only_rng (done out (rng, regions)) = done out rng
only_rng (fail e (rng, regions)) = fail e rng
only_rng fault = fault

-- `_sdc_rsa_private`, on an input of as many words as the modulus.
unfoldable pub rsa_private : PrivateKey → List ℕ → Call (List ℕ) (List ℕ)
rsa_private key c rng =
    let len1 = length key.p in
    let pinv = calculate_ninv (byte_at key.p 0) in
    let qinv_n = calculate_ninv (byte_at key.q 0) in
    if len1 == 0 || length key.n == 0
    then fail invalid_param rng
    else if not (gte c key.n == 0)
    then fail key_invalid rng
    else only_rng (
        next (draw (length rng) 0 key.p (rng, blinding_regions key c)) λ rp drawn1.
          next (draw (length drawn1.0) len1 key.q drawn1) λ rq drawn2.
            let at = region len1 drawn2.1 in
            let s1 = mont_modexp_word (at 4) (blind_exponent key.dp rp (at 2)) key.p pinv in
            let s2 = mont_modexp_word (at 5) (blind_exponent key.dq rq (at 3)) key.q qinv_n in
            done (recombine key s1 s2) drawn2)
