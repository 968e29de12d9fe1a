-- ===== src/Rsa/Padding/Encryption.antt =====
-- The padding for encryption against RFC 8017, section 7.2.
use mathlib.Core.Path.{subst}
use slim_data_crypt.Common.{
  ℕ, suc, ◌+◌, ◌-◌, ◌/◌, ◌%◌, ◌^◌, ◌≤◌, ◌<◌, ◌≡◌, refl, ap, ◌∙◌, Bool, true, false, ◌&&◌, not, List,
  [], ◌∷◌, ◌++◌, length, length-append, drop, All, IsByte, Option, none, some, bit_and, bit_xor,
  sub64, ltb, leb, ◌==◌, if◌then◌else◌, Bool-cases, inl, inr, Outcome, done, fail, arith,
}
use slim_data_crypt.Common.{key_invalid}
use slim_data_crypt.Common.Bits.Masks.{and_zero, and_none_left, xor_none}
use slim_data_crypt.Rsa.Padding.{eq, padding_ok, fits, copy_out, unpad_decryption}
use slim_data_crypt.Rsa.Padding.Bytes.{bit, neq_lem, eq_lem, length_ok_lem, and_bits}
use slim_data_crypt.Rsa.Padding.Scan.{
  Nonzero, split_zero, split_zero_cases, scan_none, scan_some, all_ok, check_padding_lem,
}

-- The message after a padding string of at least eight bytes.
abbrev pub long_padding : Option (List ℕ × List ℕ) → Option (List ℕ)
long_padding none = none
long_padding (some (ps, m)) = if leb 8 (length ps) then some m else none

-- EM = 0x00 || 0x02 || PS || 0x00 || M, where PS has no zero and at least eight bytes: M, if EM has
-- this form.
unfoldable pub plaintext : List ℕ → Option (List ℕ)
plaintext [] = none
plaintext (a ∷ []) = none
plaintext (a ∷ b ∷ rest) = if a == 0 && b == 2 then long_padding (split_zero rest) else none

abbrev pub has_room : Option (List ℕ) → ℕ → ℕ → Bool
has_room none n out_len = true
has_room (some bytes) n out_len = leb n out_len

-- What the caller gets for a message, and for none: one error, for a bad padding as for a plaintext
-- that is too long.
abbrev pub decrypted :
    Option (List ℕ) → Option (List ℕ) → ℕ → Outcome (Option (List ℕ) × ℕ) (Unit {0})
decrypted none out out_len = fail key_invalid (out, out_len)
decrypted (some m) out out_len =
    if has_room out (length m) out_len
    then done tt (copy_out m out, length m)
    else fail key_invalid (out, out_len)

fits_lem :
    (out : Option (List ℕ)) (out_len n : ℕ)
    → out_len < 2 ^ 63
    → n < 2 ^ 63
    → fits out out_len n ≡ bit (has_room out n out_len)
unfolding fits
fits_lem none out_len n h k = refl
fits_lem (some bytes) out_len n h k = elim (Bool-cases (leb n out_len)) [
  | inl room ↦ let e : sub64 out_len n / 2 ^ 63 % 2 ^ 8 ≡ 0 = ground arith in rw (e, room) refl
  | inr lacking ↦
      let e : sub64 out_len n / 2 ^ 63 % 2 ^ 8 ≡ 1 = ground arith in rw (e, lacking) refl
]

all_ok-Nonzero : (ps : List ℕ) → All Nonzero ps → all_ok (λ b. not (b == 0)) ps ≡ true
unfolding all_ok
all_ok-Nonzero [] h = refl
all_ok-Nonzero (b ∷ ps) h = rw (h.0, all_ok-Nonzero ps h.1) refl

pub drop_behind : (ps m : List ℕ) (x : ℕ) → drop (suc (length ps)) (ps ++ (x ∷ m)) ≡ m
drop_behind [] m x = refl
drop_behind (p ∷ ps) m x = drop_behind ps m x

padding_ok_lem :
    (a b : ℕ) (ps m : List ℕ)
    → All IsByte (ps ++ (0 ∷ m))
    → All Nonzero ps
    → 2 + length (ps ++ (0 ∷ m)) < 2 ^ 63
    → padding_ok 2 (2 + length ps) (a ∷ b ∷ (ps ++ (0 ∷ m))) ≡ 1
unfolding padding_ok
padding_ok_lem a b ps m bytes n l =
    check_padding_lem 0 0 (λ b. not (b == 0))
      (λ b h. ap (λ t. bit_xor t 0) (neq_lem b 0 h (omega arith)) ∙ xor_none (bit (not (b == 0))))
      ps (0 ∷ m) 2 (2 + length ps) true bytes refl l
    ∙ ap bit (all_ok-Nonzero ps n)

-- The last test of the function.
decided {ℓ} :
    {A : Type ℓ} (x y z : Bool) (yes_case no_case : A)
    → (if bit_and (bit_and (bit x) 1) (bit_and (bit_and 1 (bit y)) (bit z)) == 0
        then no_case
        else yes_case)
      ≡ (if x && (y && z) then yes_case else no_case)
decided true true true t f = refl
decided true true false t f = refl
decided true false true t f = refl
decided true false false t f = refl
decided false true true t f = refl
decided false true false t f = refl
decided false false true t f = refl
decided false false false t f = refl

-- An encoded message whose first zero behind the two bytes is known.
unpad_split :
    (a b : ℕ) (ps m : List ℕ) (out : Option (List ℕ)) (out_len : ℕ)
    → a < 256
    → b < 256
    → All IsByte (ps ++ (0 ∷ m))
    → All Nonzero ps
    → 9 ≤ length (ps ++ (0 ∷ m))
    → length (ps ++ (0 ∷ m)) < 2 ^ 15
    → out_len < 2 ^ 63
    → unpad_decryption (a ∷ b ∷ (ps ++ (0 ∷ m))) (out, out_len) ≡ (
        if (a == 0 && b == 2) && (leb 8 (length ps) && has_room out (length m) out_len)
        then done tt (copy_out m out, length m)
        else fail key_invalid (out, out_len))
unfolding unpad_decryption
unpad_split a b ps m out out_len ha hb bytes n long short room =
    let em = a ∷ b ∷ (ps ++ (0 ∷ m)) in
    let size = length-append ps (0 ∷ m) in
    let enough : ltb (length em) 11 ≡ false = ground arith in
    let left : length em - (2 + length ps + 1) ≡ length m = omega (arith, size) in
    let text : drop (2 + length ps + 1) em ≡ m =
      ap (λ k. drop k em)
        (let e : 2 + length ps + 1 ≡ suc (suc (suc (length ps))) = omega arith in e)
      ∙ drop_behind ps m 0 in
    let ps_len : sub64 (2 + length ps) 2 ≡ length ps = omega (arith, size) in
    rw
      (
        enough,
        scan_some ps m 2 2 bytes n (omega (arith, size)) (omega arith),
        eq_lem a 0 ha (omega arith),
        eq_lem b 2 hb (omega arith),
        and_bits (a == 0) (b == 2),
        padding_ok_lem a b ps m bytes n (omega arith),
        ps_len,
        length_ok_lem (length ps) (omega (arith, size)),
        left,
        text,
        fits_lem out out_len (length m) room (omega (arith, size)),
      )
      (decided (a == 0 && b == 2) (leb 8 (length ps)) (has_room out (length m) out_len) _ _)

-- No zero behind the two bytes.
unpad_none :
    (a b : ℕ) (rest : List ℕ) (out : Option (List ℕ)) (out_len : ℕ)
    → All IsByte rest
    → All Nonzero rest
    → 9 ≤ length rest
    → unpad_decryption (a ∷ b ∷ rest) (out, out_len) ≡ fail key_invalid (out, out_len)
unfolding unpad_decryption
unpad_none a b rest out out_len bytes n long =
    let enough : ltb (length (a ∷ b ∷ rest)) 11 ≡ false = ground arith in
    rw
      (
        enough,
        scan_none rest 2 2 bytes n (omega arith),
        and_zero (bit_and (eq a 0) (eq b 2)),
        and_none_left,
      )
      refl

agree_split :
    (c : Bool) (ps m : List ℕ) (out : Option (List ℕ)) (out_len : ℕ)
    → (if c && (leb 8 (length ps) && has_room out (length m) out_len)
        then done tt (copy_out m out, length m)
        else fail key_invalid (out, out_len))
      ≡ decrypted (if c then long_padding (some (ps, m)) else none) out out_len
agree_split false ps m out out_len = refl
agree_split true ps m out out_len = elim (Bool-cases (leb 8 (length ps))) [
  | inl e ↦ rw e refl
  | inr e ↦ rw e refl
]

agree_none :
    (c : Bool) (out : Option (List ℕ)) (out_len : ℕ)
    → fail key_invalid (out, out_len)
      ≡ decrypted (if c then long_padding none else none) out out_len
agree_none true out out_len = refl
agree_none false out out_len = refl

-- For an encoded message of 11 to 2 ^ 15 - 1 bytes, and a capacity below 2 ^ 63: unpadding gives
-- the message of RFC 8017 if the encoding has its form and the message fits the array, and else one
-- and the same error, with the array and the length as they were.
pub unpad_decryption-plaintext :
    (em : List ℕ) (out : Option (List ℕ)) (out_len : ℕ)
    → All IsByte em
    → 11 ≤ length em
    → length em < 2 ^ 15
    → out_len < 2 ^ 63
    → unpad_decryption em (out, out_len) ≡ decrypted (plaintext em) out out_len
unfolding plaintext
unpad_decryption-plaintext [] out out_len bytes long short room = absurd (omega arith)
unpad_decryption-plaintext (a ∷ []) out out_len bytes long short room = absurd (omega arith)
unpad_decryption-plaintext (a ∷ b ∷ rest) out out_len bytes long short room =
    elim (split_zero_cases rest) [
      | inl (e, n) ↦ rw e (
          unpad_none a b rest out out_len bytes.1.1 n (omega arith)
          ∙ agree_none (a == 0 && b == 2) out out_len)
      | inr (ps, m, e, p, n) ↦ rw e (
          ap (λ t. unpad_decryption (a ∷ b ∷ t) (out, out_len)) p
          ∙ unpad_split a b ps m out out_len bytes.0 bytes.1.0 (subst (All IsByte) p bytes.1.1) n
              (subst (λ t. 9 ≤ length t) p (omega arith))
              (subst (λ t. length t < 2 ^ 15) p (omega arith)) room
          ∙ agree_split (a == 0 && b == 2) ps m out out_len)
    ]
