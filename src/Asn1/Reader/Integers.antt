-- ===== src/Asn1/Reader/Integers.antt =====
-- `sdc_asn1_read_integer_to_u64` on minimal encodings.
use slim_data_crypt.Common.{
  ℕ, zero, suc, ◌+◌, ◌-◌, ◌*◌, ◌^◌, ◌≤◌, ◌<◌, ◌≡◌, refl, ap, ◌∙◌, true, false, not, List, [], ◌∷◌,
  ◌++◌, length, length-append, arith, leb, ◌==◌, Bool-cases, inl, inr, bit_and, bit_or, u64, drop,
  get_elem?, take, some, All, IsByte, append_assoc, done,
}
use slim_data_crypt.Common.{bad_format, integer_too_large}
use slim_data_crypt.Common.Bits.{top_bit, bit_or_low}
use slim_data_crypt.Common.Words.{byte_at, load64_be}
use slim_data_crypt.Common.Words.Load.{load64_be-weigh}
use slim_data_crypt.Asn1.Tag
use slim_data_crypt.Asn1.Der.{be_value, le-be_value, header, tlv, IsMinimal, short, long}
use slim_data_crypt.Asn1.Reader.{Reader, load}
use slim_data_crypt.Asn1.Reader.Values.{padded_at_pos, shift_in, u64_of_buffer, read_integer_to_u64}
use slim_data_crypt.Asn1.Reader.View.{
  Holds, Reads, Reads-bind, Reads-return, read_bytes-Reads, require-Reads, load_pos,
}
use slim_data_crypt.Asn1.Reader.Header.{open_value-Reads}

-- The byte behind the next one.
second_of_take :
    (k : ℕ) (xs : List ℕ) {a b : ℕ} {ys : List ℕ} → take k xs ≡ a ∷ b ∷ ys → get_elem? xs 1 ≡ some b
second_of_take zero xs e = cc
second_of_take (suc zero) [] e = cc
second_of_take (suc zero) (x ∷ xs) e = cc
second_of_take (suc (suc k)) [] e = cc
second_of_take (suc (suc k)) (x ∷ []) e = cc
second_of_take (suc (suc k)) (x ∷ y ∷ xs) e = cc

get_elem?_shift : (i : ℕ) (xs : List ℕ) → get_elem? xs (i + 1) ≡ get_elem? (drop i xs) 1
get_elem?_shift zero xs = refl
get_elem?_shift (suc i) [] = ap (get_elem? []) (let e : suc i + 1 ≡ suc (i + 1) = omega arith in e)
get_elem?_shift (suc i) (x ∷ xs) =
    ap (get_elem? (x ∷ xs)) (let e : suc i + 1 ≡ suc (i + 1) = omega arith in e)
    ∙ get_elem?_shift i xs

load_next :
    {r : Reader} {a b : ℕ} {rest : List ℕ} → Holds r (a ∷ b ∷ rest) → load (r.pos + 1) r ≡ done b r
unfolding load
load_next {r} h = rw (
  get_elem?_shift r.pos r.bytes ∙ second_of_take (r.length - r.pos) (drop r.pos r.bytes) h.left,
  load,
)

-- The look at the first two octets finds no padding.
padded_at_pos-Reads :
    {content : List ℕ} (rest : List ℕ) {r : Reader}
    → IsMinimal content
    → All IsByte content
    → Holds r (content ++ rest)
    → Reads (padded_at_pos (length content)) r false (content ++ rest)
unfolding padded_at_pos
padded_at_pos-Reads rest {r} (short b small) bytes h = record {
  last = r;
  returns = refl;
  holds = h;
}
padded_at_pos-Reads rest {r} (long a b bs small minimal) bytes h = record {
  last = r;
  returns = ground (arith, load_pos h, load_next h, top_bit b bytes.1.0);
  holds = h;
}

shift_in-be_value :
    (bs : List ℕ) (acc : ℕ)
    → All IsByte bs
    → be_value acc bs < 2 ^ 64
    → shift_in acc bs ≡ be_value acc bs
unfolding shift_in
shift_in-be_value [] acc bytes h = refl
shift_in-be_value (b ∷ bs) acc bytes h =
    let small : acc * 256 + b < 2 ^ 64 = omega (arith, le-be_value (acc * 256 + b) bs) in
    let uncut : u64 (acc * 2 ^ 8) ≡ acc * 256 = omega arith in
    rw (ap (λ t. bit_or t b) uncut ∙ bit_or_low 8 acc b bytes.0)
      (shift_in-be_value bs (acc * 256 + b) bytes.1 h)

load64_be-be_value : (bs : List ℕ) → length bs ≡ 8 → All IsByte bs → load64_be bs ≡ be_value 0 bs
load64_be-be_value (b0 ∷ b1 ∷ b2 ∷ b3 ∷ b4 ∷ b5 ∷ b6 ∷ b7 ∷ []) e bytes =
    load64_be-weigh b0 b1 b2 b3 b4 b5 b6 b7 [] bytes ∙ omega arith
load64_be-be_value [] e bytes = absurd (omega arith)
load64_be-be_value (b0 ∷ []) e bytes = absurd (omega arith)
load64_be-be_value (b0 ∷ b1 ∷ []) e bytes = absurd (omega arith)
load64_be-be_value (b0 ∷ b1 ∷ b2 ∷ []) e bytes = absurd (omega arith)
load64_be-be_value (b0 ∷ b1 ∷ b2 ∷ b3 ∷ []) e bytes = absurd (omega arith)
load64_be-be_value (b0 ∷ b1 ∷ b2 ∷ b3 ∷ b4 ∷ []) e bytes = absurd (omega arith)
load64_be-be_value (b0 ∷ b1 ∷ b2 ∷ b3 ∷ b4 ∷ b5 ∷ []) e bytes = absurd (omega arith)
load64_be-be_value (b0 ∷ b1 ∷ b2 ∷ b3 ∷ b4 ∷ b5 ∷ b6 ∷ []) e bytes = absurd (omega arith)
load64_be-be_value (b0 ∷ b1 ∷ b2 ∷ b3 ∷ b4 ∷ b5 ∷ b6 ∷ b7 ∷ c ∷ bs) e bytes = absurd (omega arith)

u64_of_buffer-returns :
    {content : List ℕ} (r : Reader)
    → IsMinimal content
    → All IsByte content
    → be_value 0 content < 2 ^ 64
    → (length content ≡ 9 → byte_at content 0 ≡ 0)
    → {rest : List ℕ} → Holds r rest
    → Reads (u64_of_buffer (length content) content) r (be_value 0 content) rest
unfolding u64_of_buffer
u64_of_buffer-returns r (short b small) bytes h nine holds =
    let positive : (bit_and b 0x80 == 0) ≡ true = ground (arith, top_bit b (omega arith)) in
    let value : shift_in 0 (b ∷ []) ≡ 0 + b = shift_in-be_value (b ∷ []) 0 bytes h in
    require-Reads _ bad_format positive λ _. rw value (Reads-return _ holds)
u64_of_buffer-returns r (long a b bs small minimal) bytes h nine holds =
    let positive : (bit_and a 0x80 == 0) ≡ true = ground (arith, top_bit a bytes.0) in
    require-Reads _ bad_format positive λ _. elim (Bool-cases (suc (suc (length bs)) == 9)) [
      | inl e ↦
          let zero_first : a ≡ 0 = nine (ground arith) in
          let second : not (bit_and b 0x80 == 0) ≡ true =
            ground (arith, top_bit b bytes.1.0, minimal zero_first) in
          let value : load64_be (b ∷ bs) ≡ be_value ((0 + a) * 256 + b) bs =
            load64_be-be_value (b ∷ bs) (ground arith) bytes.1
            ∙ ap (λ t. be_value t bs)
                (let q : 0 * 256 + b ≡ (0 + a) * 256 + b = omega arith in q) in
          rw e (
            require-Reads (a == 0) integer_too_large (ground arith) λ _.
              require-Reads (not (bit_and b 0x80 == 0)) bad_format second
                λ _. rw value (Reads-return _ holds))
      | inr e ↦ rw (e, shift_in-be_value (a ∷ b ∷ bs) 0 bytes h) (Reads-return _ holds)
    ]

-- Any minimal encoding of a number below 2 ^ 64.
pub read_integer_to_u64-Reads :
    {content : List ℕ} (rest : List ℕ) {r : Reader}
    → IsMinimal content
    → All IsByte content
    → be_value 0 content < 2 ^ 64
    → length content ≤ 9
    → (length content ≡ 9 → byte_at content 0 ≡ 0)
    → Holds r (tlv Tag.integer content ++ rest)
    → Reads read_integer_to_u64 r (be_value 0 content) rest
unfolding read_integer_to_u64 tlv
read_integer_to_u64-Reads {content} rest minimal bytes h few nine holds =
    let n = length content in
    let behind = rw (append_assoc (header Tag.integer n) content rest) at holds in
    Reads-bind _
      (open_value-Reads Tag.integer n (content ++ rest) (omega arith)
        (omega (arith, length-append content rest)) behind)
      λ s hs. require-Reads (not (n == 0)) bad_format (nonempty minimal) λ _.
        Reads-bind _ (padded_at_pos-Reads rest minimal bytes hs) λ s hs.
          require-Reads (not false) bad_format refl λ _.
            require-Reads (leb n 9) integer_too_large (ground arith) λ _.
              Reads-bind (u64_of_buffer n) (read_bytes-Reads content rest n hs refl)
                λ s hs. u64_of_buffer-returns s minimal bytes h nine hs
  where
    nonempty : {xs : List ℕ} → IsMinimal xs → not (length xs == 0) ≡ true
    nonempty (short b small) = refl
    nonempty (long a b bs small m) = ground arith
