-- ===== src/Asn1/Reader/Safety.antt =====
-- The reader of src/asn1/asn1parse.c on any input: what it means to stay within the array, and
-- that such calls compose.
pub mod Calls
pub mod Values
use slim_data_crypt.Common.{
  ℕ, zero, suc, ◌+◌, ◌-◌, ◌*◌, ◌/◌, ◌%◌, ◌^◌, ◌≤◌, ◌<◌, ◌≡◌, refl, sym, ◌∙◌, Bool, true, false,
  List, [], ◌∷◌, length, length-take, length-drop, All-take, All-drop, get_elem?-All, get_elem?,
  take, drop, Option, none, some, arith, ltb, leb, ◌==◌, Bool-cases, Option-cases, inl, inr, All,
  IsByte, u64, size_max, bit_and, bit_or, not, ◌&&◌, Outcome, done, fail, fault, Call, ◌>>=◌, ◌>>◌,
  next, return, require, if◌then◌else◌, Error,
}
use slim_data_crypt.Common.{truncated, bad_length, bad_tag}
use slim_data_crypt.Asn1.Reader.{
  Reader, avail, advance, load, read_bytes, skip_bytes, read_byte, peek_tag, expect_tag,
  read_length_octets, read_long_length, read_length, check_length, read_tag, open_value,
}
use slim_data_crypt.Asn1.Reader.View.{IsReader}

-- `s` is `r`, moved on.
pub record Within (r s : Reader) : Type 0 where
  pub valid : IsReader s
  pub same_bytes : s.bytes ≡ r.bytes
  pub same_length : s.length ≡ r.length
  pub forward : r.pos ≤ s.pos

-- The bytes left, and that a value of `n` bytes is among them.
abbrev pub Fits : ℕ → Reader → Type 0
Fits n r = n ≤ r.length - r.pos

-- An outcome with no fault; on success it meets `P`.
pub data Keeps {ℓ} {A : Type ℓ} (P : A → Reader → Type 0) (r : Reader)
    : Outcome Reader A → Type ℓ where
  succeeded : {a : A} {s : Reader} → Within r s → P a s → Keeps P r (done a s)
  failed : {e : Error} {s : Reader} → Within r s → Keeps P r (fail e s)

-- `m`, run on `r`, has such an outcome.
pub record SafeAt {ℓ} {A : Type ℓ} (P : A → Reader → Type 0) (m : Call Reader A) (r : Reader)
    : Type ℓ where
  pub keeps : Keeps P r (m r)

abbrev pub Safe {ℓ} : {A : Type ℓ} → (A → Reader → Type 0) → Call Reader A → Type ℓ
Safe P m = (r : Reader) → IsReader r → SafeAt P m r

abbrev pub Always {ℓ} : {A : Type ℓ} → A → Reader → Type 0
Always a s = Unit {0}

pub Within-refl : (r : Reader) → IsReader r → Within r r
Within-refl r v = record { valid = v; same_bytes = refl; same_length = refl; forward = omega arith }

pub Within-trans : {r s t : Reader} → Within r s → Within s t → Within r t
Within-trans w v = record {
  valid = v.valid;
  same_bytes = v.same_bytes ∙ w.same_bytes;
  same_length = v.same_length ∙ w.same_length;
  forward = omega (arith, w.forward, v.forward);
}

Keeps-later {ℓ} :
    {A : Type ℓ} {P : A → Reader → Type 0} {r s : Reader} {o : Outcome Reader A}
    → Within r s
    → Keeps P s o
    → Keeps P r o
Keeps-later w (succeeded v p) = succeeded (Within-trans w v) p
Keeps-later w (failed v) = failed (Within-trans w v)

pub Keeps-next {ℓ κ} :
    {A : Type ℓ} {B : Type κ} {P : A → Reader → Type 0} {Q : B → Reader → Type 0} {r : Reader}
    {o : Outcome Reader A} (f : A → Call Reader B)
    → Keeps P r o
    → ((a : A) (s : Reader) → Within r s → P a s → SafeAt Q (f a) s)
    → Keeps Q r (next o f)
Keeps-next f (succeeded {a} {s} w p) rest = Keeps-later w (rest a s w p).keeps
Keeps-next f (failed w) rest = failed w

pub SafeAt-bind {ℓ κ} :
    {A : Type ℓ} {B : Type κ} {P : A → Reader → Type 0} {Q : B → Reader → Type 0}
    {m : Call Reader A} {r : Reader} (f : A → Call Reader B)
    → SafeAt P m r
    → ((a : A) (s : Reader) → Within r s → P a s → SafeAt Q (f a) s)
    → SafeAt Q (m >>= f) r
SafeAt-bind f first rest = record { keeps = Keeps-next f first.keeps rest }

pub SafeAt-then-keep {ℓ} :
    {A : Type ℓ} {P : Unit {0} → Reader → Type 0} {Q : A → Reader → Type 0}
    {m : Call Reader (Unit {0})} {k : Call Reader A} {r : Reader}
    → SafeAt P m r
    → ((s : Reader) → Within r s → P tt s → SafeAt Q k s)
    → SafeAt Q (m >> k) r
SafeAt-then-keep {k = k} first rest = record {
  keeps = Keeps-next (λ _. k) first.keeps (λ a s w p. rest s w p);
}

pub SafeAt-then {ℓ} :
    {A : Type ℓ} {P : Unit {0} → Reader → Type 0} {Q : A → Reader → Type 0}
    {m : Call Reader (Unit {0})} {r : Reader} (k : Call Reader A)
    → SafeAt P m r
    → ((s : Reader) → Within r s → SafeAt Q k s)
    → SafeAt Q (m >> k) r
SafeAt-then k first rest = SafeAt-then-keep {k = k} first (λ s w p. rest s w)

pub require-Safe : (test : Bool) (e : Error) → Safe (λ u s. test ≡ true) (require test e)
require-Safe true e r v = record { keeps = succeeded (Within-refl r v) refl }
require-Safe false e r v = record { keeps = failed (Within-refl r v) }

-- A test: what follows may use that it passed, and runs on the same reader.
pub SafeAt-require {ℓ} :
    {A : Type ℓ} {Q : A → Reader → Type 0} {r : Reader} (test : Bool) (e : Error)
    (k : Call Reader A)
    → IsReader r
    → (test ≡ true → SafeAt Q k r)
    → SafeAt Q (require test e >> k) r
SafeAt-require true e k v rest = record { keeps = (rest refl).keeps }
SafeAt-require {r = r} false e k v rest = record { keeps = failed (Within-refl r v) }

pub SafeAt-return {ℓ} :
    {A : Type ℓ} {P : A → Reader → Type 0} (a : A) {r : Reader}
    → IsReader r
    → P a r
    → SafeAt P (return a) r
SafeAt-return a {r} v p = record { keeps = succeeded (Within-refl r v) p }

pub Keeps-weaken {ℓ} :
    {A : Type ℓ} {P Q : A → Reader → Type 0} {r : Reader} {o : Outcome Reader A}
    → ((a : A) (s : Reader) → P a s → Q a s)
    → Keeps P r o
    → Keeps Q r o
Keeps-weaken h (succeeded w p) = succeeded w (h _ _ p)
Keeps-weaken h (failed w) = failed w

pub SafeAt-weaken {ℓ} :
    {A : Type ℓ} {P Q : A → Reader → Type 0} {m : Call Reader A} {r : Reader}
    → ((a : A) (s : Reader) → P a s → Q a s)
    → SafeAt P m r
    → SafeAt Q m r
SafeAt-weaken h safe = record { keeps = Keeps-weaken h safe.keeps }
