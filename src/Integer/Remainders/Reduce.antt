-- ===== src/Integer/Remainders/Reduce.antt =====
-- A round of the loops of src/integer/integer.c, and the remainder.
use slim_data_crypt.Common.{
  ℕ, zero, suc, ◌+◌, ◌*◌, ◌<◌, ◌≤◌, ◌≡◌, refl, ap, sym, ◌∙◌, List, length, All, arith, bit_or, leb,
  Bool-cases, inl, inr,
}
use slim_data_crypt.Common.Bits.Masks.{or_none_left}
use slim_data_crypt.Integer.{IsWord, value, scale, sub_ctl, gte}
use slim_data_crypt.Common.{◌⊎◌}
use slim_data_crypt.Integer.Values.{scale_cases, value-lt_scale, scale_zero}
use slim_data_crypt.Integer.Masks.{sub_ctl-Difference}
use slim_data_crypt.Integer.Compare.{gte_lem}

-- `n` words of a number below the modulus, and `ge` moduli, make `total`.
pub record Reduced (n : List ℕ) (total ge : ℕ) (out : List ℕ) : Type 0 where
  pub same_length : length out ≡ length n
  pub words : All IsWord out
  pub below : value out < value n
  pub bit : ge ≤ 1
  pub sum : value out + ge * value n ≡ total

-- The borrow of the subtraction is the carry of the doubling.
same_top :
    (s n r o c b : ℕ)
    → (c ≡ 0) ⊎ (c ≡ s)
    → (b ≡ 0) ⊎ (b ≡ s)
    → n < s
    → o < s
    → r < s
    → r + c < n + n
    → n ≤ r + c
    → o + n ≡ r + b
    → o + n ≡ r + c
same_top s n r o c b (inl p) (inl q) h k l t u e = omega arith
same_top s n r o c b (inl p) (inr q) h k l t u e = omega arith
same_top s n r o c b (inr p) (inl q) h k l t u e = omega arith
same_top s n r o c b (inr p) (inr q) h k l t u e = omega arith

same_low :
    (s n r o c b : ℕ)
    → (c ≡ 0) ⊎ (c ≡ s)
    → (b ≡ 0) ⊎ (b ≡ s)
    → n < s
    → o < s
    → r + c < n
    → o ≡ r + b
    → o ≡ r + c
same_low s n r o c b (inl p) (inl q) h k t e = omega arith
same_low s n r o c b (inl p) (inr q) h k t e = omega arith
same_low s n r o c b (inr p) (inl q) h k t e = omega arith
same_low s n r o c b (inr p) (inr q) h k t e = omega arith

-- One subtraction is enough, with the carry of the doubling taken into account.
module _ (n r : List ℕ) (c : ℕ) (size : length r ≡ length n) (words : All IsWord r)
    (moduli : All IsWord n) (bit : c ≤ 1)
    (small : value r + scale (length n) c < value n + value n) where
  kept :
      value r + scale (length n) c < value n
      → Reduced n (value r + scale (length n) c) 0 (sub_ctl r n 0).0
  kept less =
      let d = sub_ctl-Difference r n 0 size words moduli (omega arith) in
      let out = sub_ctl r n 0 in
      let long : length out.0 ≡ length n = d.same_length ∙ size in
      let top : value out.0 < scale (length n) 1 = rw long at (value-lt_scale out.0 d.words) in
      let same : value out.0 ≡ value r + scale (length n) c =
        same_low (scale (length n) 1) (value n) (value r) (value out.0) (scale (length n) c)
          (scale (length n) out.1) (scale_cases (length n) c bit)
          (scale_cases (length n) out.1 d.bit) (value-lt_scale n moduli) top less
          (omega (arith, (rw size at d.difference))) in
      record {
        same_length = long;
        words = d.words;
        below = omega arith;
        bit = omega arith;
        sum = omega arith;
      }

  taken :
      value n ≤ value r + scale (length n) c
      → Reduced n (value r + scale (length n) c) 1 (sub_ctl r n 1).0
  taken more =
      let d = sub_ctl-Difference r n 1 size words moduli (omega arith) in
      let out = sub_ctl r n 1 in
      let long : length out.0 ≡ length n = d.same_length ∙ size in
      let top : value out.0 < scale (length n) 1 = rw long at (value-lt_scale out.0 d.words) in
      let room : value r < scale (length n) 1 = rw size at (value-lt_scale r words) in
      let same : value out.0 + value n ≡ value r + scale (length n) c =
        same_top (scale (length n) 1) (value n) (value r) (value out.0) (scale (length n) c)
          (scale (length n) out.1) (scale_cases (length n) c bit)
          (scale_cases (length n) out.1 d.bit) (value-lt_scale n moduli) top room small more
          (omega (arith, (rw size at d.difference))) in
      record {
        same_length = long;
        words = d.words;
        below = omega arith;
        bit = omega arith;
        sum = omega arith;
      }

  pub subtracted :
      Reduced n
        (value r + scale (length n) c)
        (bit_or (gte r n) c)
        (sub_ctl r n (bit_or (gte r n) c)).0
  subtracted = elim (Bool-cases (leb (value n) (value r))) [
    | inl f ↦
        let flag : bit_or 1 c ≡ 1 = flag_on c bit in
        rw (gte_lem r n size words moduli, f, flag) (taken (ground arith))
    | inr f ↦
        rw (gte_lem r n size words moduli, f, or_none_left c) (by_carry c bit refl (ground arith))
  ]
    where
      flag_on : (c : ℕ) → c ≤ 1 → bit_or 1 c ≡ 1
      flag_on zero h = refl
      flag_on (suc zero) h = refl
      flag_on (suc (suc c)) h = absurd (omega arith)

      by_carry :
          (b : ℕ)
          → b ≤ 1
          → b ≡ c
          → value r < value n
          → Reduced n (value r + scale (length n) c) b (sub_ctl r n b).0
      by_carry zero h e less =
          let none : scale (length n) c ≡ 0 =
            ap (scale (length n)) (sym e) ∙ scale_zero (length n) in
          kept (omega arith)
      by_carry (suc zero) h e less =
          let one : scale (length n) c ≡ scale (length n) 1 = ap (scale (length n)) (sym e) in
          taken (omega (arith, value-lt_scale n moduli, one))
      by_carry (suc (suc b)) h e less = absurd (omega arith)
