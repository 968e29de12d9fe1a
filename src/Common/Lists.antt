-- ===== src/Common/Lists.antt =====
-- C arrays as lists, measured and indexed by native numbers.
use Prim.Native.Nat.{ℕ, zero, suc, ◌+◌, ◌-◌, ◌≤◌, ◌<◌, min}
use mathlib.Core.Path.{◌≡◌, refl, ap, sym, ◌∙◌}
use mathlib.Core.List.{List, [], ◌∷◌, ◌++◌}
use mathlib.Core.Option.{Option, none, some}
use native.Mathlib.Omega.{arith}

module _ {ℓ} {A : Type ℓ} where
  abbrev pub length : List A → ℕ
  length [] = 0
  length (x ∷ xs) = suc (length xs)

  abbrev pub get_elem? : List A → ℕ → Option A
  get_elem? [] i = none
  get_elem? (x ∷ xs) zero = some x
  get_elem? (x ∷ xs) (suc i) = get_elem? xs i

  abbrev pub get_or : List A → ℕ → A → A
  get_or [] i d = d
  get_or (x ∷ xs) zero d = x
  get_or (x ∷ xs) (suc i) d = get_or xs i d

  abbrev pub take : ℕ → List A → List A
  take zero xs = []
  take (suc n) [] = []
  take (suc n) (x ∷ xs) = x ∷ take n xs

  abbrev pub drop : ℕ → List A → List A
  drop zero xs = xs
  drop (suc n) [] = []
  drop (suc n) (x ∷ xs) = drop n xs

  -- A copy to the elements from `i` on; what would fall behind the end is dropped.
  abbrev pub write_at : ℕ → List A → List A → List A
  write_at zero [] xs = xs
  write_at zero (v ∷ vs) [] = []
  write_at zero (v ∷ vs) (x ∷ xs) = v ∷ write_at zero vs xs
  write_at (suc i) vs [] = []
  write_at (suc i) vs (x ∷ xs) = x ∷ write_at i vs xs

  abbrev pub replicate : ℕ → A → List A
  replicate zero a = []
  replicate (suc n) a = a ∷ replicate n a

  abbrev pub All {κ} : (A → Type κ) → List A → Type κ
  All P [] = Unit {κ}
  All P (x ∷ xs) = P x × All P xs

  pub All-append {κ} : (P : A → Type κ) (xs ys : List A) → All P xs → All P ys → All P (xs ++ ys)
  All-append P [] ys h k = k
  All-append P (x ∷ xs) ys h k = (h.0, All-append P xs ys h.1 k)

  pub All-drop {κ} : (P : A → Type κ) (n : ℕ) (xs : List A) → All P xs → All P (drop n xs)
  All-drop P zero xs h = h
  All-drop P (suc n) [] h = tt
  All-drop P (suc n) (x ∷ xs) h = All-drop P n xs h.1

  pub All-take {κ} : (P : A → Type κ) (n : ℕ) (xs : List A) → All P xs → All P (take n xs)
  All-take P zero xs h = tt
  All-take P (suc n) [] h = tt
  All-take P (suc n) (x ∷ xs) h = (h.0, All-take P n xs h.1)

  -- An index in range finds an element, and that is one of those that `P` holds of.
  pub get_elem?-All {κ} :
      (P : A → Type κ) (xs : List A) (i : ℕ)
      → All P xs
      → i < length xs
      → (x : A) × (get_elem? xs i ≡ some x) × P x
  get_elem?-All P [] i h l = absurd (omega arith)
  get_elem?-All P (x ∷ xs) zero h l = (x, refl, h.0)
  get_elem?-All P (x ∷ xs) (suc i) h l = get_elem?-All P xs i h.1 (omega arith)

  pub length-append : (xs ys : List A) → length (xs ++ ys) ≡ length xs + length ys
  length-append [] ys = omega arith
  length-append (x ∷ xs) ys = omega (arith, length-append xs ys)

  pub length-take : (n : ℕ) (xs : List A) → length (take n xs) ≡ min n (length xs)
  length-take zero xs = omega arith
  length-take (suc n) [] = omega arith
  length-take (suc n) (x ∷ xs) = omega (arith, length-take n xs)

  pub length-drop : (n : ℕ) (xs : List A) → length (drop n xs) ≡ length xs - n
  length-drop zero xs = omega arith
  length-drop (suc n) [] = omega arith
  length-drop (suc n) (x ∷ xs) = omega (arith, length-drop n xs)

  pub take-append-drop : (n : ℕ) (xs : List A) → take n xs ++ drop n xs ≡ xs
  take-append-drop zero xs = refl
  take-append-drop (suc n) [] = refl
  take-append-drop (suc n) (x ∷ xs) = ap (λ t. x ∷ t) (take-append-drop n xs)

  pub take_all : (xs : List A) (n : ℕ) → length xs ≤ n → take n xs ≡ xs
  take_all [] zero h = refl
  take_all [] (suc n) h = refl
  take_all (x ∷ xs) zero h = absurd (omega arith)
  take_all (x ∷ xs) (suc n) h = ap (λ t. x ∷ t) (take_all xs n (omega arith))

  pub take_of_append : (xs ys : List A) (n : ℕ) → n ≡ length xs → take n (xs ++ ys) ≡ xs
  take_of_append [] ys zero h = refl
  take_of_append [] ys (suc n) h = absurd (omega arith)
  take_of_append (x ∷ xs) ys zero h = absurd (omega arith)
  take_of_append (x ∷ xs) ys (suc n) h = ap (λ t. x ∷ t) (take_of_append xs ys n (omega arith))

  pub drop_of_append : (xs ys : List A) (n : ℕ) → n ≡ length xs → drop n (xs ++ ys) ≡ ys
  drop_of_append [] ys zero h = refl
  drop_of_append [] ys (suc n) h = absurd (omega arith)
  drop_of_append (x ∷ xs) ys zero h = absurd (omega arith)
  drop_of_append (x ∷ xs) ys (suc n) h = drop_of_append xs ys n (omega arith)

  pub drop-nil : (n : ℕ) → drop n [] ≡ []
  drop-nil zero = refl
  drop-nil (suc n) = refl

  pub drop-drop : (m n : ℕ) (xs : List A) → drop m (drop n xs) ≡ drop (n + m) xs
  drop-drop m zero xs = ap (λ t. drop t xs) (let e : m ≡ 0 + m = omega arith in e)
  drop-drop m (suc n) [] = drop-nil m ∙ sym (drop-nil (suc n + m))
  drop-drop m (suc n) (x ∷ xs) =
      drop-drop m n xs
      ∙ ap (λ t. drop t (x ∷ xs)) (let e : suc (n + m) ≡ suc n + m = omega arith in e)

  pub drop-take : (m n : ℕ) (xs : List A) → drop m (take n xs) ≡ take (n - m) (drop m xs)
  drop-take zero n xs = ap (λ t. take t xs) (let e : n ≡ n - 0 = omega arith in e)
  drop-take (suc m) zero xs =
      ap (λ t. take t (drop (suc m) xs)) (let e : 0 ≡ 0 - suc m = omega arith in e)
  drop-take (suc m) (suc n) [] = take_nil (suc n - suc m)
    where
      take_nil : (k : ℕ) → [] ≡ take k []
      take_nil zero = refl
      take_nil (suc k) = refl
  drop-take (suc m) (suc n) (x ∷ xs) =
      drop-take m n xs
      ∙ ap (λ t. take t (drop m xs)) (let e : n - m ≡ suc n - suc m = omega arith in e)

  pub take-take : (m n : ℕ) (xs : List A) → m ≤ n → take m (take n xs) ≡ take m xs
  take-take zero n xs h = refl
  take-take (suc m) zero xs h = absurd (omega arith)
  take-take (suc m) (suc n) [] h = refl
  take-take (suc m) (suc n) (x ∷ xs) h = ap (λ t. x ∷ t) (take-take m n xs (omega arith))

  pub get_elem?_of_take :
      (k : ℕ) (xs : List A) {y : A} {ys : List A} → take k xs ≡ y ∷ ys → get_elem? xs 0 ≡ some y
  get_elem?_of_take zero xs e = cc
  get_elem?_of_take (suc k) [] e = cc
  get_elem?_of_take (suc k) (x ∷ xs) e = cc

  pub get_elem?-drop : (i : ℕ) (xs : List A) → get_elem? xs i ≡ get_elem? (drop i xs) 0
  get_elem?-drop zero xs = refl
  get_elem?-drop (suc i) [] = refl
  get_elem?-drop (suc i) (x ∷ xs) = get_elem?-drop i xs

  pub length-replicate : (n : ℕ) (a : A) → length (replicate n a) ≡ n
  length-replicate zero a = refl
  length-replicate (suc n) a = ap suc (length-replicate n a)

  pub length-write_at : (i : ℕ) (vs xs : List A) → length (write_at i vs xs) ≡ length xs
  length-write_at zero [] xs = refl
  length-write_at zero (v ∷ vs) [] = refl
  length-write_at zero (v ∷ vs) (x ∷ xs) = ap suc (length-write_at zero vs xs)
  length-write_at (suc i) vs [] = refl
  length-write_at (suc i) vs (x ∷ xs) = ap suc (length-write_at i vs xs)

  -- What stands up to the end of the copied elements.
  pub take-write_at :
      (i : ℕ) (vs xs : List A) (k : ℕ)
      → k ≡ i + length vs
      → k ≤ length xs
      → take k (write_at i vs xs) ≡ take i xs ++ vs
  take-write_at zero [] xs zero e h = refl
  take-write_at zero [] xs (suc k) e h = absurd (omega arith)
  take-write_at zero (v ∷ vs) xs zero e h = absurd (omega arith)
  take-write_at zero (v ∷ vs) [] (suc k) e h = absurd (omega arith)
  take-write_at zero (v ∷ vs) (x ∷ xs) (suc k) e h =
      ap (λ t. v ∷ t) (take-write_at zero vs xs k (omega arith) (omega arith))
  take-write_at (suc i) vs xs zero e h = absurd (omega arith)
  take-write_at (suc i) vs [] (suc k) e h = absurd (omega arith)
  take-write_at (suc i) vs (x ∷ xs) (suc k) e h =
      ap (λ t. x ∷ t) (take-write_at i vs xs k (omega arith) (omega arith))

  pub take-append : (n : ℕ) (xs ys : List A) → n ≤ length xs → take n (xs ++ ys) ≡ take n xs
  take-append zero xs ys h = refl
  take-append (suc n) [] ys h = absurd (omega arith)
  take-append (suc n) (x ∷ xs) ys h = ap (λ t. x ∷ t) (take-append n xs ys (omega arith))

  pub drop-append : (n : ℕ) (xs ys : List A) → n ≤ length xs → drop n (xs ++ ys) ≡ drop n xs ++ ys
  drop-append zero xs ys h = refl
  drop-append (suc n) [] ys h = absurd (omega arith)
  drop-append (suc n) (x ∷ xs) ys h = drop-append n xs ys (omega arith)

  pub empty_of_length : (xs : List A) → length xs ≡ 0 → xs ≡ []
  empty_of_length [] e = refl
  empty_of_length (x ∷ xs) e = absurd (omega arith)

  -- What stands behind the copied elements.
  pub drop_above-write_at :
      (k i : ℕ) (vs xs : List A) → i + length vs ≤ k → drop k (write_at i vs xs) ≡ drop k xs
  drop_above-write_at zero zero [] xs h = refl
  drop_above-write_at zero zero (v ∷ vs) xs h = absurd (omega arith)
  drop_above-write_at zero (suc i) vs xs h = absurd (omega arith)
  drop_above-write_at (suc k) zero [] xs h = refl
  drop_above-write_at (suc k) zero (v ∷ vs) [] h = refl
  drop_above-write_at (suc k) zero (v ∷ vs) (x ∷ xs) h =
      drop_above-write_at k zero vs xs (omega arith)
  drop_above-write_at (suc k) (suc i) vs [] h = refl
  drop_above-write_at (suc k) (suc i) vs (x ∷ xs) h = drop_above-write_at k i vs xs (omega arith)

  pub take_over-append :
      (n : ℕ) (xs ys : List A) → take n (xs ++ ys) ≡ take n xs ++ take (n - length xs) ys
  take_over-append zero [] ys = ap (λ k. take k ys) (let e : 0 ≡ 0 - 0 = omega arith in e)
  take_over-append (suc n) [] ys =
      ap (λ k. take k ys) (let e : suc n ≡ suc n - 0 = omega arith in e)
  take_over-append zero (x ∷ xs) ys =
      ap (λ k. take k ys) (let e : 0 ≡ 0 - suc (length xs) = omega arith in e)
  take_over-append (suc n) (x ∷ xs) ys =
      ap (λ t. x ∷ t)
        (take_over-append n xs ys
          ∙ ap (λ k. take n xs ++ take k ys)
              (let e : n - length xs ≡ suc n - suc (length xs) = omega arith in e))
