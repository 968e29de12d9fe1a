-- ===== src/Rsa/Padding/Signature.antt =====
-- The padding for signatures against RFC 8017, section 9.2.
use mathlib.Core.Path.{subst}
use slim_data_crypt.Common.{
  ℕ, zero, suc, ◌+◌, ◌-◌, ◌^◌, ◌≤◌, ◌<◌, ◌≡◌, ◌↔◌, refl, ap, sym, ◌∙◌, Bool, true, false, ◌&&◌,
  List, [], ◌∷◌, ◌++◌, length, length-append, length-replicate, replicate, drop, All, IsByte, u64,
  sub64, leb, ◌==◌, bit_and, done, arith,
}
use slim_data_crypt.Common.Words.{byte_at}
use slim_data_crypt.Rsa.Padding.{eq, padding_string, pad, padding_ok, same_bytes, unpad_signature}
use slim_data_crypt.Rsa.Padding.Bytes.{bit, eq_lem, length_ok_lem, and_bits}
use slim_data_crypt.Rsa.Padding.Encryption.{drop_behind}
use slim_data_crypt.Rsa.Padding.Scan.{all_ok, check_padding_lem, and_true, and_assoc}

-- Equality of arrays, as a test.
unfoldable pub same_list : List ℕ → List ℕ → Bool
same_list [] [] = true
same_list [] (y ∷ ys) = false
same_list (x ∷ xs) [] = false
same_list (x ∷ xs) (y ∷ ys) = x == y && same_list xs ys

same_bytes_lem :
    (xs ys : List ℕ) (k : Bool)
    → length xs ≡ length ys
    → All IsByte xs
    → All IsByte ys
    → same_bytes xs ys (bit k) ≡ bit (k && same_list xs ys)
unfolding same_bytes same_list
same_bytes_lem [] [] k e p q = ap bit (sym (and_true k))
same_bytes_lem [] (y ∷ ys) k e p q = absurd (omega arith)
same_bytes_lem (x ∷ xs) [] k e p q = absurd (omega arith)
same_bytes_lem (x ∷ xs) (y ∷ ys) k e p q =
    ap (same_bytes xs ys) (ap (bit_and (bit k)) (eq_lem x y p.0 q.0) ∙ and_bits k (x == y))
    ∙ same_bytes_lem xs ys (k && x == y) (omega arith) p.1 q.1
    ∙ ap bit (and_assoc k (x == y) (same_list xs ys))

bit_is_one : (b : Bool) → (bit b == 1) ≡ b
bit_is_one true = refl
bit_is_one false = refl

same_list_sound : (xs ys : List ℕ) → same_list xs ys ≡ true → xs ≡ ys
unfolding same_list
same_list_sound [] [] e = refl
same_list_sound [] (y ∷ ys) e = cc
same_list_sound (x ∷ xs) [] e = cc
same_list_sound (x ∷ xs) (y ∷ ys) e = ground (arith, same_list_sound xs ys)

same_list_self : (xs : List ℕ) → same_list xs xs ≡ true
unfolding same_list
same_list_self [] = refl
same_list_self (x ∷ xs) = ground (arith, same_list_self xs)

all_ones : (ps : List ℕ) → all_ok (λ c. c == 0xff) ps ≡ true → ps ≡ replicate (length ps) 0xff
unfolding all_ok
all_ones [] e = refl
all_ones (p ∷ ps) e = ground (arith, all_ones ps)

ones_ok : (n : ℕ) → all_ok (λ c. c == 0xff) (replicate n 0xff) ≡ true
unfolding all_ok
ones_ok zero = refl
ones_ok (suc n) = ones_ok n

-- A list cut at an index.
cut :
    (xs : List ℕ) (k : ℕ)
    → k < length xs
    → (ps : List ℕ) × (x : ℕ) × (d : List ℕ) × (xs ≡ ps ++ (x ∷ d)) × (length ps ≡ k)
cut [] k h = absurd (omega arith)
cut (x ∷ xs) zero h = ([], x, xs, refl, refl)
cut (x ∷ xs) (suc k) h =
    let (ps, y, d, e, l) = cut xs k (omega arith) in (x ∷ ps, y, d, ap (λ t. x ∷ t) e, ap suc l)

byte_at_cut : (ps d : List ℕ) (x : ℕ) → byte_at (ps ++ (x ∷ d)) (length ps) ≡ x
byte_at_cut [] d x = refl
byte_at_cut (p ∷ ps) d x = byte_at_cut ps d x

judged :
    (x y z u v : Bool)
    → (bit_and (bit_and (bit_and (bit x) (bit y)) (bit z)) (bit_and (bit_and (bit u) 1) (bit v))
        == 1)
      ≡ (((x && y) && z) && ((u && true) && v))
judged x y z u v =
    rw
      (
        and_bits x y,
        and_bits (x && y) z,
        and_bits u true,
        and_bits (u && true) v,
        and_bits ((x && y) && z) ((u && true) && v),
      )
      (bit_is_one (((x && y) && z) && ((u && true) && v)))

bytes_of_cut : (ps d : List ℕ) (x : ℕ) → All IsByte (ps ++ (x ∷ d)) → (x < 256) × All IsByte d
bytes_of_cut [] d x h = h
bytes_of_cut (p ∷ ps) d x h = bytes_of_cut ps d x h.1

padding_ok_lem :
    (a b : ℕ) (ps d : List ℕ) (x : ℕ)
    → All IsByte (ps ++ (x ∷ d))
    → 2 + length (ps ++ (x ∷ d)) < 2 ^ 63
    → padding_ok 1 (2 + length ps) (a ∷ b ∷ (ps ++ (x ∷ d))) ≡ bit (all_ok (λ c. c == 0xff) ps)
unfolding padding_ok
padding_ok_lem a b ps d x bytes l =
    check_padding_lem 0xff 1 (λ c. c == 0xff) (λ c h. unfold eq in eq_lem c 0xff h (omega arith)) ps
      (x ∷ d) 2 (2 + length ps) true bytes refl l

-- The test of the function, on an encoded message that is cut at the place of the delimiter.
unpad_cut :
    (a b : ℕ) (ps d : List ℕ) (x : ℕ) (di : List ℕ)
    → All IsByte (a ∷ b ∷ (ps ++ (x ∷ d)))
    → All IsByte di
    → length d ≡ length di
    → 8 ≤ length ps
    → length ps + length di < 2 ^ 14
    → unpad_signature (a ∷ b ∷ (ps ++ (x ∷ d))) di (length di)
      ≡ done
          (((a == 0 && b == 1) && x == 0)
            && ((all_ok (λ c. c == 0xff) ps && true) && same_list d di))
          (length di)
unfolding unpad_signature
unpad_cut a b ps d x di bytes di_bytes same long short =
    let em = a ∷ b ∷ (ps ++ (x ∷ d)) in
    let size = length-append ps (x ∷ d) in
    let enough : leb 11 (length em) ≡ true = ground arith in
    let holds : leb (u64 (11 + length di)) (length em) ≡ true = ground arith in
    let place : length em - length di - 1 ≡ 2 + length ps = omega (arith, size) in
    let delimiter : byte_at em (2 + length ps) ≡ x =
      ap (byte_at em) (let e : 2 + length ps ≡ suc (suc (length ps)) = omega arith in e)
      ∙ byte_at_cut ps d x in
    let left : length em - (2 + length ps + 1) ≡ length di = omega (arith, size) in
    let itself : (length di == length di) ≡ true = ground arith in
    let behind : drop (2 + length ps + 1) em ≡ d =
      ap (λ k. drop k em)
        (let e : 2 + length ps + 1 ≡ suc (suc (suc (length ps))) = omega arith in e)
      ∙ drop_behind ps d x in
    let ps_len : sub64 (2 + length ps) 2 ≡ length ps = omega arith in
    let eight : leb 8 (length ps) ≡ true = ground arith in
    let cut_bytes = bytes_of_cut ps d x bytes.1.1 in
    rw
      (
        enough,
        holds,
        place,
        delimiter,
        left,
        itself,
        behind,
        ps_len,
        eq_lem a 0 bytes.0 (omega arith),
        eq_lem b 1 bytes.1.0 (omega arith),
        eq_lem x 0 cut_bytes.0 (omega arith),
        padding_ok_lem a b ps d x bytes.1.1 (omega (arith, size)),
        length_ok_lem (length ps) (omega arith),
        eight,
        same_bytes_lem d di true same cut_bytes.1 di_bytes,
      )
      (ap (λ t. done t (length di))
        (judged (a == 0) (b == 1) (x == 0) (all_ok (λ c. c == 0xff) ps) (same_list d di)))

-- The encoded message for the digest info `di`.
unfoldable pub encoded : ℕ → List ℕ → List ℕ
encoded em_len di = 0 ∷ 1 ∷ (replicate (em_len - 3 - length di) 0xff ++ (0 ∷ di))

pub pad_signature_lem :
    (em_len : ℕ) (di rng : List ℕ)
    → 11 + length di ≤ em_len
    → em_len < 2 ^ 14
    → pad em_len di 1 rng ≡ done (encoded em_len di) rng
unfolding pad padding_string encoded
pad_signature_lem em_len di rng long short =
    let fits : leb (u64 (11 + length di)) em_len ≡ true = ground arith in
    let eight : leb 8 (em_len - 3 - length di) ≡ true = ground arith in rw (fits, eight) refl

accepted_form :
    (a b : ℕ) (ps d : List ℕ) (x : ℕ) (di : List ℕ)
    → (((a == 0 && b == 1) && x == 0) && ((all_ok (λ c. c == 0xff) ps && true) && same_list d di))
      ≡ true
    → a ∷ b ∷ (ps ++ (x ∷ d)) ≡ 0 ∷ 1 ∷ (replicate (length ps) 0xff ++ (0 ∷ di))
accepted_form a b ps d x di e =
    let first : (a ≡ 0) × (b ≡ 1) × (x ≡ 0) = ground arith in
    let ones : all_ok (λ c. c == 0xff) ps ≡ true = ground arith in
    let same : same_list d di ≡ true = ground arith in
    rw (first.0, first.1, first.2, same_list_sound d di same)
      (ap (λ t. 0 ∷ 1 ∷ (t ++ (0 ∷ di))) (all_ones ps ones))

encoded_accepted :
    (em_len : ℕ) (di : List ℕ)
    → All IsByte di
    → 11 + length di ≤ em_len
    → em_len < 2 ^ 14
    → unpad_signature (encoded em_len di) di (length di) ≡ done true (length di)
unfolding encoded
encoded_accepted em_len di bytes long short =
    let n = em_len - 3 - length di in
    let size : length {A = ℕ} (replicate n 0xff) ≡ n = length-replicate n 0xff in
    unpad_cut 0 1 (replicate n 0xff) di 0 di (omega arith, (omega arith, ones_bytes n di bytes))
      bytes refl (omega (arith, size)) (omega (arith, size))
    ∙ ap (λ t. done t (length di)) (rw (ones_ok n, same_list_self di) refl)
  where
    ones_bytes : (n : ℕ) (di : List ℕ) → All IsByte di → All IsByte (replicate n 0xff ++ (0 ∷ di))
    ones_bytes zero di h = (omega arith, h)
    ones_bytes (suc n) di h = (omega arith, ones_bytes n di h)

-- For a digest info of `di` bytes with room for eleven more in an encoded message of less than
-- 2 ^ 14 bytes, whatever the generator: the test returns, and it says yes exactly if padding the
-- digest info for a signature makes this encoded message.
pub unpad_signature-pad :
    (em di rng : List ℕ)
    → All IsByte em
    → All IsByte di
    → 11 + length di ≤ length em
    → length em < 2 ^ 14
    → (accepted : Bool) × (unpad_signature em di (length di) ≡ done accepted (length di))
      × ((accepted ≡ true) ↔ (pad (length em) di 1 rng ≡ done em rng))
unpad_signature-pad [] di rng bytes di_bytes long short = absurd (omega arith)
unpad_signature-pad (a ∷ []) di rng bytes di_bytes long short = absurd (omega arith)
unpad_signature-pad (a ∷ b ∷ rest) di rng bytes di_bytes long short =
    let em = a ∷ b ∷ rest in
    let (ps, x, d, e, l) = cut rest (length em - 3 - length di) (omega arith) in
    let form : em ≡ a ∷ b ∷ (ps ++ (x ∷ d)) = ap (λ t. a ∷ b ∷ t) e in
    let size : length rest ≡ length ps + suc (length d) = ap length e ∙ length-append ps (x ∷ d) in
    let test =
      ((a == 0 && b == 1) && x == 0) && ((all_ok (λ c. c == 0xff) ps && true) && same_list d di) in
    let run : unpad_signature em di (length di) ≡ done test (length di) =
      ap (λ t. unpad_signature t di (length di)) form
      ∙ unpad_cut a b ps d x di (subst (All IsByte) form bytes) di_bytes (omega arith) (omega arith)
          (omega arith) in
    let padded = pad_signature_lem (length em) di rng long short in
    (
      test,
      run,
      (
        λ yes_test.
            padded
            ∙ ap (λ t. done t rng)
                (unfold encoded in
                  (ap (λ k. 0 ∷ 1 ∷ (replicate k 0xff ++ (0 ∷ di))) (sym l)
                    ∙ sym (accepted_form a b ps d x di yes_test)
                    ∙ sym form)),
        λ made.
            let same : encoded (length em) di ≡ em = cc in
            let accepts = encoded_accepted (length em) di di_bytes long short in
            let both : done test (length di) ≡ done true (length di) =
              sym run ∙ ap (λ t. unpad_signature t di (length di)) (sym same) ∙ accepts in
            cc,
      ),
    )
