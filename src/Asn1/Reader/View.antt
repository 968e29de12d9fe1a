-- ===== src/Asn1/Reader/View.antt =====
-- A reader as the list of the bytes that it has still to read.
use mathlib.Core.Path.{subst}
use slim_data_crypt.Common.{
  ℕ, ◌+◌, ◌-◌, ◌%◌, ◌^◌, ◌≤◌, ◌<◌, ◌≡◌, refl, ap, sym, ◌∙◌, Bool, true, false, List, [], ◌∷◌, ◌++◌,
  length, length-append, length-take, length-drop, All-drop, take, drop, drop-drop, drop-take,
  take_of_append, take-take, get_elem?_of_take, drop_of_append, get_elem?, get_elem?-drop, arith,
  ltb, some, done, Call, ◌>>=◌, ◌>>◌, All, IsByte, Error, return, require,
}
use slim_data_crypt.Asn1.Reader.{
  Reader, avail, advance, load, read_bytes, skip_bytes, read_byte, check_length,
}

-- The position lies in the value, and the value in the array behind it.
pub record IsReader (r : Reader) : Type 0 where
  pub in_order : r.pos ≤ r.length
  pub backed : r.length ≤ length r.bytes
  pub word : r.length < 2 ^ 64
  pub of_bytes : All IsByte r.bytes

abbrev pub unread : Reader → List ℕ
unread r = take (r.length - r.pos) (drop r.pos r.bytes)

pub record Holds (r : Reader) (xs : List ℕ) : Type 0 where
  pub valid : IsReader r
  pub left : unread r ≡ xs

-- `m` returns `a` and leaves `rest` to be read.
pub record Reads {ℓ} {A : Type ℓ} (m : Call Reader A) (r : Reader) (a : A) (rest : List ℕ)
    : Type ℓ where
  pub last : Reader
  pub returns : m r ≡ done a last
  pub holds : Holds last rest

pub Reads-bind {ℓ κ} :
    {A : Type ℓ} {B : Type κ} {m : Call Reader A} {r : Reader} {a : A} {b : B} {xs ys : List ℕ}
    (f : A → Call Reader B)
    → Reads m r a xs
    → ((s : Reader) → Holds s xs → Reads (f a) s b ys)
    → Reads (m >>= f) r b ys
Reads-bind f first rest =
    let then_rest = rest first.last first.holds in
    record {
      last = then_rest.last;
      returns = rw first.returns then_rest.returns;
      holds = then_rest.holds;
    }

pub Reads-return {ℓ} :
    {A : Type ℓ} (a : A) {r : Reader} {xs : List ℕ} → Holds r xs → Reads (return a) r a xs
Reads-return a {r} h = record { last = r; returns = refl; holds = h }

pub length-unread : (r : Reader) → IsReader r → length (unread r) ≡ r.length - r.pos
length-unread r v = omega (
  arith,
  length-take (r.length - r.pos) (drop r.pos r.bytes),
  length-drop r.pos r.bytes,
  v.backed,
  v.in_order,
)

pub avail-unread : (r : Reader) → IsReader r → avail r ≡ length (unread r)
unfolding avail
avail-unread r v = omega (arith, length-unread r v, v.in_order, v.word)

pub avail-Holds : {r : Reader} {xs : List ℕ} → Holds r xs → avail r ≡ length xs
avail-Holds {r} h = avail-unread r h.valid ∙ ap length h.left

-- Moving on by `n` takes `n` bytes off the list.
pub advance-Holds :
    (n : ℕ) {r : Reader} {xs : List ℕ}
    → Holds r xs
    → n ≤ length xs
    → Holds (advance n r) (drop n xs)
unfolding advance
advance-Holds n {r} {xs} h p =
    let v = h.valid in
    let fits : r.pos + n ≤ r.length = omega (arith, length-unread r v, ap length h.left) in
    let place : (r.pos + n) % 2 ^ 64 ≡ r.pos + n = omega (arith, v.word) in
    record {
      valid = record {
        in_order = omega (arith, place);
        backed = v.backed;
        word = v.word;
        of_bytes = v.of_bytes;
      };
      left =
          ap (λ t. take (r.length - t) (drop t r.bytes)) place
          ∙ ap (λ t. take t (drop (r.pos + n) r.bytes))
              (let e : r.length - (r.pos + n) ≡ r.length - r.pos - n = omega arith in e)
          ∙ ap (take (r.length - r.pos - n)) (sym (drop-drop n r.pos r.bytes))
          ∙ sym (drop-take n (r.length - r.pos) (drop r.pos r.bytes))
          ∙ ap (drop n) h.left;
    }

advance_past :
    {r : Reader} (bs rest : List ℕ) (n : ℕ)
    → Holds r (bs ++ rest)
    → n ≡ length bs
    → Holds (advance n r) rest
advance_past {r} bs rest n h e =
    subst (Holds (advance n r)) (drop_of_append bs rest n e)
      (advance-Holds n h (omega (arith, length-append bs rest)))

enough :
    {r : Reader} (bs rest : List ℕ) (n : ℕ)
    → Holds r (bs ++ rest)
    → n ≡ length bs
    → ltb (avail r) n ≡ false
enough bs rest n h e = ground (arith, avail-Holds h, length-append bs rest)

pub skip_bytes-Reads :
    {r : Reader} (bs rest : List ℕ) (n : ℕ)
    → Holds r (bs ++ rest)
    → n ≡ length bs
    → Reads (skip_bytes n) r tt rest
unfolding skip_bytes
skip_bytes-Reads {r} bs rest n h e = record {
  last = advance n r;
  returns = rw (enough bs rest n h e);
  holds = advance_past bs rest n h e;
}

room :
    {r : Reader} (bs rest : List ℕ)
    → Holds r (bs ++ rest)
    → length bs + length rest ≡ r.length - r.pos
room {r} bs rest h = omega (arith, ap length h.left, length-append bs rest, length-unread r h.valid)

-- What stands at the position begins with what is read next.
pub value_at_pos :
    {r : Reader} (bs rest : List ℕ) (n : ℕ)
    → Holds r (bs ++ rest)
    → n ≡ length bs
    → take n (drop r.pos r.bytes) ≡ bs
value_at_pos {r} bs rest n h e =
    sym (take-take n (r.length - r.pos) (drop r.pos r.bytes) (omega (arith, room bs rest h)))
    ∙ ap (take n) h.left
    ∙ take_of_append bs rest n e

pub read_bytes-Reads :
    {r : Reader} (bs rest : List ℕ) (n : ℕ)
    → Holds r (bs ++ rest)
    → n ≡ length bs
    → Reads (read_bytes n) r bs rest
unfolding read_bytes
read_bytes-Reads {r} bs rest n h e = record {
  last = advance n r;
  returns = rw (enough bs rest n h e, in_array, value_at_pos bs rest n h e);
  holds = advance_past bs rest n h e;
}
  where
    in_array : ltb (length r.bytes) (r.pos + n) ≡ false
    in_array = ground (arith, room bs rest h, h.valid.backed, h.valid.in_order)

-- A reader over the next `length bs` bytes alone.
pub inner-Holds :
    {r : Reader} (bs rest : List ℕ)
    → Holds r (bs ++ rest)
    → Holds (record { bytes = drop r.pos r.bytes; length = length bs; pos = 0 }) bs
inner-Holds {r} bs rest h = record {
  valid = record {
    in_order = omega arith;
    backed =
        omega (arith, room bs rest h, length-drop r.pos r.bytes, h.valid.backed, h.valid.in_order);
    word = omega (arith, room bs rest h, h.valid.word);
    of_bytes = All-drop IsByte r.pos r.bytes h.valid.of_bytes;
  };
  left =
      ap (λ t. take t (drop r.pos r.bytes)) (let e : length bs - 0 ≡ length bs = omega arith in e)
      ∙ value_at_pos bs rest (length bs) h refl;
}

-- The byte that is read next.
pub byte_at_pos :
    {r : Reader} {b : ℕ} {rest : List ℕ} → Holds r (b ∷ rest) → get_elem? r.bytes r.pos ≡ some b
byte_at_pos {r} h =
    get_elem?-drop r.pos r.bytes ∙ get_elem?_of_take (r.length - r.pos) (drop r.pos r.bytes) h.left

pub read_byte-Reads :
    {r : Reader} {b : ℕ} {rest : List ℕ} → Holds r (b ∷ rest) → Reads read_byte r b rest
unfolding read_byte
read_byte-Reads {r} {b} {rest} h = record {
  last = advance 1 r;
  returns = rw (enough (b ∷ []) rest 1 h refl, byte_at_pos h);
  holds = advance_past (b ∷ []) rest 1 h refl;
}

pub load_pos : {r : Reader} {b : ℕ} {rest : List ℕ} → Holds r (b ∷ rest) → load r.pos r ≡ done b r
unfolding load
load_pos {r} h = rw (byte_at_pos h, load)

-- A test that passes.
pub require-Reads {ℓ} :
    {A : Type ℓ} (test : Bool) (e : Error) {k : Call Reader A} {r : Reader} {a : A} {xs : List ℕ}
    → test ≡ true
    → (Unit {0} → Reads k r a xs)
    → Reads (require test e >> k) r a xs
require-Reads test e p rest =
    let then_rest = rest tt in
    record { last = then_rest.last; returns = rw p then_rest.returns; holds = then_rest.holds }

pub check_length-Reads :
    {r : Reader} {xs : List ℕ} (n : ℕ) → Holds r xs → n ≤ length xs → Reads (check_length n) r n xs
unfolding check_length
check_length-Reads {r} n h p = record {
  last = r;
  returns = ground (arith, avail-Holds h);
  holds = h;
}
