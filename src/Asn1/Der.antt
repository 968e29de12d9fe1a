-- ===== src/Asn1/Der.antt =====
-- The encoding itself, apart from the code: X.690's length octets and tag-length-value triples.
use slim_data_crypt.Common.{
  ℕ, zero, suc, ◌+◌, ◌*◌, ◌/◌, ◌%◌, ◌^◌, ◌≤◌, ◌<◌, ◌≡◌, refl, ap, ◌∙◌, List, [], ◌∷◌, ◌++◌, ltb,
  ◌==◌, if◌then◌else◌, length, length-append, All-append, get_or, arith, All, IsByte, Bool-cases,
  inl, inr,
}
use native.Mathlib.Nat.{pow-suc, mul-le-mul}

-- The number that octets stand for, most significant first, behind those already read.
abbrev pub be_value : ℕ → List ℕ → ℕ
be_value acc [] = acc
be_value acc (b ∷ bs) = be_value (acc * 256 + b) bs

-- The fewest octets of `n`, most significant first, for `n` below 256 ^ k.
unfoldable pub octets : ℕ → ℕ → List ℕ
octets zero n = []
octets (suc k) n = let rest = octets k (n / 256) ++ (n % 256 ∷ []) in if n == 0 then [] else rest

-- The length octets of a value of `n` octets.
unfoldable pub length_field : ℕ → List ℕ
length_field n =
    let digits = octets 8 n in if ltb n 128 then n ∷ [] else (128 + length digits) ∷ digits

unfoldable pub header : ℕ → ℕ → List ℕ
header tag n = tag ∷ length_field n

unfoldable pub tlv : ℕ → List ℕ → List ℕ
tlv tag content = header tag (length content) ++ content

-- The content of a non-negative INTEGER: a 0 keeps its first octet from being read as a sign.
unfoldable pub unsigned_content : List ℕ → List ℕ
unsigned_content digits = if ltb (get_or digits 0 0) 128 then digits else 0 ∷ digits

-- The octets of a `uint64_t`, at least one.
unfoldable pub u64_digits : ℕ → List ℕ
u64_digits n = let digits = octets 8 n in if n == 0 then 0 ∷ [] else digits

-- The content octets of a non-negative INTEGER that X.690 allows: none can be left out.
pub data IsMinimal : List ℕ → Type 0 where
  short : (b : ℕ) → b < 128 → IsMinimal (b ∷ [])
  long : (a b : ℕ) (bs : List ℕ) → a < 128 → (a ≡ 0 → 128 ≤ b) → IsMinimal (a ∷ b ∷ bs)

pub be_value-append :
    (acc : ℕ) (xs ys : List ℕ) → be_value acc (xs ++ ys) ≡ be_value (be_value acc xs) ys
be_value-append acc [] ys = refl
be_value-append acc (x ∷ xs) ys = be_value-append (acc * 256 + x) xs ys

pub le-be_value : (acc : ℕ) (xs : List ℕ) → acc ≤ be_value acc xs
le-be_value acc [] = omega arith
le-be_value acc (x ∷ xs) = omega (arith, le-be_value (acc * 256 + x) xs)

pub be_value-lt :
    (acc : ℕ) (xs : List ℕ) → All IsByte xs → be_value acc xs < (acc + 1) * 256 ^ length xs
be_value-lt acc [] h = omega arith
be_value-lt acc (x ∷ xs) h =
    let rest = be_value-lt (acc * 256 + x) xs h.1 in
    let factor : acc * 256 + x + 1 ≤ (acc + 1) * 256 = omega (arith, h.0) in
    let most : (acc * 256 + x + 1) * 256 ^ length xs ≤ (acc + 1) * 256 * 256 ^ length xs =
      mul-le-mul factor (let r : 256 ^ length xs ≤ 256 ^ length xs = omega arith in r) in
    let whole : (acc + 1) * 256 ^ suc (length xs) ≡ (acc + 1) * 256 * 256 ^ length xs =
      ap (λ t. (acc + 1) * t) (pow-suc 256 (length xs)) ∙ grind arith in
    omega (arith, rest, most, whole)

pub be_value-octets : (k n : ℕ) → n < 256 ^ k → be_value 0 (octets k n) ≡ n
unfolding octets
be_value-octets zero n h = omega arith
be_value-octets (suc k) n h = elim (Bool-cases (n == 0)) [
  | inl e ↦ rw e (ground arith)
  | inr e ↦
      rw (e, be_value-append)
        (omega (arith, be_value-octets k (n / 256) (omega (arith, pow-suc 256 k))))
]

pub length-octets : (k n : ℕ) → length (octets k n) ≤ k
unfolding octets
length-octets zero n = omega arith
length-octets (suc k) n =
    ground (arith, length-append (octets k (n / 256)) (n % 256 ∷ []), length-octets k (n / 256))

pub octets-IsByte : (k n : ℕ) → All IsByte (octets k n)
unfolding octets
octets-IsByte zero n = tt
octets-IsByte (suc k) n = elim (Bool-cases (n == 0)) [
  | inl e ↦ rw e tt
  | inr e ↦
      rw e (All-append IsByte (octets k (n / 256)) _ (octets-IsByte k (n / 256)) (omega arith, tt))
]

-- A number above 0 has a first octet, and that is not 0.
pub data StartsNonzero : List ℕ → Type 0 where
  starts : (b : ℕ) (bs : List ℕ) → 0 < b → StartsNonzero (b ∷ bs)

StartsNonzero-append : {xs : List ℕ} → StartsNonzero xs → (ys : List ℕ) → StartsNonzero (xs ++ ys)
StartsNonzero-append (starts b bs h) ys = starts b (bs ++ ys) h

pub octets-StartsNonzero : (k n : ℕ) → 0 < n → n < 256 ^ k → StartsNonzero (octets k n)
unfolding octets
octets-StartsNonzero zero n p h = absurd (omega arith)
octets-StartsNonzero (suc k) n p h = elim (Bool-cases (n == 0)) [
  | inl e ↦ absurd (ground arith)
  | inr e ↦ rw e (elim (Bool-cases (n / 256 == 0)) [
    | inl z ↦
        let none_before : octets k (n / 256) ≡ [] = octets_zero k (n / 256) (ground arith) in
        rw none_before (starts (n % 256) [] (ground arith))
    | inr z ↦
        StartsNonzero-append
          (octets-StartsNonzero k (n / 256) (ground arith) (omega (arith, pow-suc 256 k))) _
  ])
]
  where
    octets_zero : (k n : ℕ) → n ≡ 0 → octets k n ≡ []
    octets_zero zero n e = refl
    octets_zero (suc k) n e = ground arith

pub length-tlv_short :
    (tag : ℕ) (content : List ℕ)
    → length content < 128
    → length (tlv tag content) ≡ length content + 2
unfolding tlv header length_field
length-tlv_short tag content h = ground (arith, length-append (tag ∷ length content ∷ []) content)
