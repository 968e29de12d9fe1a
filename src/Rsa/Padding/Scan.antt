-- ===== src/Rsa/Padding/Scan.antt =====
-- The loops of `unpad_pkcs1v15` for decryption: the scan for the first zero, and the check of the
-- padding before it.
use slim_data_crypt.Common.{
  ℕ, suc, ◌+◌, ◌^◌, ◌≤◌, ◌<◌, ◌≡◌, refl, ap, sym, ◌∙◌, Bool, true, false, ◌&&◌, ◌||◌, length-append,
  not, List, [], ◌∷◌, ◌++◌, length, All, IsByte, Option, none, some, bit_and, bit_or, bit_xor,
  sub64, ltb, ◌==◌, if◌then◌else◌, Bool-cases, ◌⊎◌, inl, inr, arith,
}
use slim_data_crypt.Common.Bits.Masks.{and_ones, and_zero, or_none_left, or_none_right}
use slim_data_crypt.Rsa.Padding.{neq, scan, not64, below, check_padding}
use slim_data_crypt.Rsa.Padding.Bytes.{bit, eq_lem, below_lem, and_bits, or_bits, flip_bit}

-- A byte of the padding string for encryption.
abbrev pub Nonzero : ℕ → Type 0
Nonzero b = (b == 0) ≡ false

abbrev prepend : ℕ → Option (List ℕ × List ℕ) → Option (List ℕ × List ℕ)
prepend b none = none
prepend b (some (ps, m)) = some (b ∷ ps, m)

-- What stands before and behind the first zero.
unfoldable pub split_zero : List ℕ → Option (List ℕ × List ℕ)
split_zero [] = none
split_zero (b ∷ bs) = if b == 0 then some ([], bs) else prepend b (split_zero bs)

pub split_zero_cases :
    (bs : List ℕ)
    → ((split_zero bs ≡ none) × All Nonzero bs)
      ⊎ ((ps : List ℕ) × (m : List ℕ) × (split_zero bs ≡ some (ps, m))
          × (bs ≡ ps ++ (0 ∷ m))
          × All Nonzero ps)
unfolding split_zero
split_zero_cases [] = inl (refl, tt)
split_zero_cases (b ∷ bs) = elim (Bool-cases (b == 0)) [
  | inl z ↦ inr ([], bs, rw z refl, (let e : b ≡ 0 = ground arith in ap (λ t. t ∷ bs) e), tt)
  | inr n ↦ elim (split_zero_cases bs) [
    | inl (e, h) ↦ inl (rw (n, e) refl, (n, h))
    | inr (ps, m, e, p, h) ↦ inr (b ∷ ps, m, rw (n, e) refl, ap (λ t. b ∷ t) p, (n, h))
  ]
]

-- One round of the scan.
keep_end :
    (i e : ℕ) → e < 2 ^ 64 → bit_or (bit_and e (not64 (sub64 0 0))) (bit_and i (sub64 0 0)) ≡ e
unfolding not64
keep_end i e h = rw (and_zero i, and_ones 64 e h) (or_none_right e)

take_end :
    (i e : ℕ) → i < 2 ^ 64 → bit_or (bit_and e (not64 (sub64 0 1))) (bit_and i (sub64 0 1)) ≡ i
unfolding not64
take_end i e h = rw (and_zero e, and_ones 64 i h) (or_none_left i)

pub scan_found : (bs : List ℕ) (i e : ℕ) → All IsByte bs → e < 2 ^ 64 → scan bs i 1 e ≡ (1, e)
unfolding scan
scan_found [] i e b h = refl
scan_found (x ∷ bs) i e b h = elim (Bool-cases (x == 0)) [
  | inl z ↦
      rw (eq_lem x 0 b.0 (omega arith), z)
        (ap (scan bs (i + 1) 1) (keep_end i e h) ∙ scan_found bs (i + 1) e b.1 h)
  | inr n ↦
      rw (eq_lem x 0 b.0 (omega arith), n)
        (ap (scan bs (i + 1) 1) (keep_end i e h) ∙ scan_found bs (i + 1) e b.1 h)
]

pub scan_none :
    (bs : List ℕ) (i e : ℕ) → All IsByte bs → All Nonzero bs → e < 2 ^ 64 → scan bs i 0 e ≡ (0, e)
unfolding scan
scan_none [] i e b n h = refl
scan_none (x ∷ bs) i e b n h =
    rw (eq_lem x 0 b.0 (omega arith), n.0)
      (ap (scan bs (i + 1) 0) (keep_end i e h) ∙ scan_none bs (i + 1) e b.1 n.1 h)

scan_zero : (m : List ℕ) (i e : ℕ) → i < 2 ^ 64 → scan (0 ∷ m) i 0 e ≡ scan m (i + 1) 1 i
unfolding scan
scan_zero m i e h =
    rw (eq_lem 0 0 (omega arith) (omega arith)) (ap (scan m (i + 1) 1) (take_end i e h))

scan_other :
    (x : ℕ) (bs : List ℕ) (i e : ℕ)
    → x < 256
    → Nonzero x
    → e < 2 ^ 64
    → scan (x ∷ bs) i 0 e ≡ scan bs (i + 1) 0 e
unfolding scan
scan_other x bs i e b n h =
    rw (eq_lem x 0 b (omega arith), n) (ap (scan bs (i + 1) 0) (keep_end i e h))

pub scan_some :
    (ps m : List ℕ) (i e : ℕ)
    → All IsByte (ps ++ (0 ∷ m))
    → All Nonzero ps
    → i + length ps < 2 ^ 64
    → e < 2 ^ 64
    → scan (ps ++ (0 ∷ m)) i 0 e ≡ (1, i + length ps)
scan_some [] m i e b n l h =
    scan_zero m i e (omega arith)
    ∙ scan_found m (i + 1) i b.1 (omega arith)
    ∙ ap (λ k. (1, k)) (let z : i ≡ i + 0 = omega arith in z)
scan_some (x ∷ ps) m i e b n l h =
    scan_other x (ps ++ (0 ∷ m)) i e b.0 n.0 h
    ∙ scan_some ps m (i + 1) e b.1 n.1 (omega arith) h
    ∙ ap (λ k. (1, k)) (let z : i + 1 + length ps ≡ i + suc (length ps) = omega arith in z)

-- The check of the padding: `ok` is the test of a byte, which counts before `ps_end` only.
unfoldable pub all_ok : (ℕ → Bool) → List ℕ → Bool
all_ok ok [] = true
all_ok ok (b ∷ bs) = ok b && all_ok ok bs

passed : (o k : Bool) (i e : ℕ) → e ≤ i → (k && (o || not (ltb i e))) ≡ k
passed o k i e h = ground arith

counted : (o k : Bool) (i e : ℕ) → i < e → (k && (o || not (ltb i e))) ≡ (k && o)
counted o k i e h = ground arith

pub and_true : (k : Bool) → (k && true) ≡ k
and_true true = refl
and_true false = refl

pub and_assoc : (a b c : Bool) → ((a && b) && c) ≡ (a && (b && c))
and_assoc true b c = refl
and_assoc false b c = refl

module _ (t1 t2 : ℕ) (ok : ℕ → Bool)
    (tested : (b : ℕ) → b < 256 → bit_xor (neq b t1) t2 ≡ bit (ok b)) where
  check_round :
      (x i ps_end : ℕ) (k : Bool)
      → x < 256
      → i < 2 ^ 63
      → ps_end < 2 ^ 63
      → bit_and (bit k) (bit_or (bit_xor (neq x t1) t2) (bit_xor (below i ps_end) 1))
        ≡ bit (k && (ok x || not (ltb i ps_end)))
  check_round x i ps_end k b h e =
      rw
        (
          tested x b,
          below_lem i ps_end h e,
          flip_bit (ltb i ps_end),
          or_bits (ok x) (not (ltb i ps_end)),
        )
        (and_bits k (ok x || not (ltb i ps_end)))

  pub check_padding_behind :
      (bs : List ℕ) (i ps_end : ℕ) (k : Bool)
      → All IsByte bs
      → ps_end ≤ i
      → i + length bs < 2 ^ 63
      → check_padding t1 t2 ps_end bs i (bit k) ≡ bit k
  unfolding check_padding
  check_padding_behind [] i ps_end k b h l = refl
  check_padding_behind (x ∷ bs) i ps_end k b h l =
      ap (check_padding t1 t2 ps_end bs (i + 1)) (
        check_round x i ps_end k b.0 (omega arith) (omega arith)
        ∙ ap bit (passed (ok x) k i ps_end h))
      ∙ check_padding_behind bs (i + 1) ps_end k b.1 (omega arith) (omega arith)

  pub check_padding_lem :
      (ps rest : List ℕ) (i ps_end : ℕ) (k : Bool)
      → All IsByte (ps ++ rest)
      → ps_end ≡ i + length ps
      → i + length (ps ++ rest) < 2 ^ 63
      → check_padding t1 t2 ps_end (ps ++ rest) i (bit k) ≡ bit (k && all_ok ok ps)
  unfolding check_padding all_ok
  check_padding_lem [] rest i ps_end k b e l =
      check_padding_behind rest i ps_end k b (omega arith) l ∙ ap bit (sym (and_true k))
  check_padding_lem (x ∷ ps) rest i ps_end k b e l =
      ap (check_padding t1 t2 ps_end (ps ++ rest) (i + 1)) (
        check_round x i ps_end k b.0 (omega arith) (omega (arith, length-append ps rest))
        ∙ ap bit (counted (ok x) k i ps_end (omega arith)))
      ∙ check_padding_lem ps rest (i + 1) ps_end (k && ok x) b.1 (omega arith) (omega arith)
      ∙ ap bit (and_assoc k (ok x) (all_ok ok ps))
