-- ===== src/Common/Calls.antt =====
-- What a stateful C function does: it returns 0 with its results, it returns an error code, or
-- it reads or writes outside an array, which C leaves undefined. Both returns keep the new state.
use mathlib.Core.Bool.{Bool}
use slim_data_crypt.Common.Tests.{if◌then◌else◌}

-- The codes of errcode.h that the modelled functions return.
pub data Error : Type 0 where
  invalid_param not_implemented unsupported : Error
  integer_divide_by_zero integer_odd_required verify_fail key_size_invalid : Error
  mem_allocate_fail buffer_too_small time_fail : Error
  random_fail key_invalid : Error
  truncated bad_tag bad_length bad_format integer_too_large write_error : Error

pub data Outcome {ℓ κ} (S : Type ℓ) (A : Type κ) : Type (ℓ ⊔ κ) where
  done : A → S → Outcome S A
  fail : Error → S → Outcome S A
  fault : Outcome S A

abbrev pub Call {ℓ κ} : Type ℓ → Type κ → Type (ℓ ⊔ κ)
Call S A = S → Outcome S A

-- The rest of a function, run on an outcome.
abbrev pub next {ℓ κ μ} :
    {S : Type ℓ} {A : Type κ} {B : Type μ} → Outcome S A → (A → Call S B) → Outcome S B
next (done a s) f = f a s
next (fail e s) f = fail e s
next fault f = fault

infixl 5 ◌>>=◌ ◌>>◌
abbrev pub ◌>>=◌ {ℓ κ μ} :
    {S : Type ℓ} {A : Type κ} {B : Type μ} → Call S A → (A → Call S B) → Call S B
◌>>=◌ m f s = next (m s) f

abbrev pub ◌>>◌ {ℓ κ} : {S : Type ℓ} {B : Type κ} → Call S (Unit {0}) → Call S B → Call S B
◌>>◌ m k s = next (m s) (λ _. k)

abbrev pub return {ℓ κ} : {S : Type ℓ} {A : Type κ} → A → Call S A
return a s = done a s

abbrev pub throw {ℓ κ} : {S : Type ℓ} {A : Type κ} → Error → Call S A
throw e s = fail e s

-- `if (!test) return e;`
abbrev pub require {ℓ} : {S : Type ℓ} → Bool → Error → Call S (Unit {0})
require test e s = if test then done tt s else fail e s

-- A function of one part of the state, where there is another.
abbrev pub beside {ℓ κ μ} :
    {S : Type ℓ} {T : Type κ} {A : Type μ} → T → Outcome S A → Outcome (S × T) A
beside t (done a s) = done a (s, t)
beside t (fail e s) = fail e (s, t)
beside t fault = fault

abbrev pub on_first {ℓ κ μ} : {S : Type ℓ} {T : Type κ} {A : Type μ} → Call S A → Call (S × T) A
on_first m (s, t) = beside t (m s)
