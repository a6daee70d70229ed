-- ===== src/Reader/Outcome.antt =====
-- What a call of libelfr comes to: ERFError of include/elfr/elfr.h, and reads outside of the memory.
use elfrc.Base.{Bool, true, false, Option, none, some, ◌≡◌, refl}

pub data ErfError : Type 0 where
  erf_ok bad_magic unsupported_version truncated bad_offset : ErfError
  not_found invalid_argument no_default_container : ErfError

-- `ok a` is a call that returns `a` and sets the last error to ERF_OK; `err e` one that returns NULL
-- and sets it to `e`; `fault` one that reads outside of the memory that it was given.
pub data Outcome {ℓ} (A : Type ℓ) : Type ℓ where
  ok : A → Outcome A
  err : ErfError → Outcome A
  fault : Outcome A

infixl 5 ◌>>=◌ ◌>>◌
abbrev pub ◌>>=◌ {ℓ κ} : {A : Type ℓ} {B : Type κ} → Outcome A → (A → Outcome B) → Outcome B
ok a >>= f = f a
err e >>= f = err e
fault >>= f = fault

abbrev pub ◌>>◌ {ℓ} : {B : Type ℓ} → Outcome (Unit {0}) → Outcome B → Outcome B
m >> k = m >>= λ _. k

-- `if (!test) { set_error(e); return NULL; }`
abbrev pub require : Bool → ErfError → Outcome (Unit {0})
require true e = ok tt
require false e = err e

-- What a read gives, or the fault that it is.
abbrev pub load {ℓ} : {A : Type ℓ} → Option A → Outcome A
load none = fault
load (some a) = ok a

-- A sequence that succeeds has a first part that succeeds.
pub >>=-eq-ok {ℓ κ} :
    {A : Type ℓ} {B : Type κ} (first : Outcome A) (next : A → Outcome B) {result : B}
    → (first >>= next) ≡ ok result
    → (mid : A) × (first ≡ ok mid) × (next mid ≡ ok result)
>>=-eq-ok fault next whole = cc
>>=-eq-ok (err e) next whole = cc
>>=-eq-ok (ok mid) next whole = (mid, refl, whole)

pub >>=-ok {ℓ κ} :
    {A : Type ℓ} {B : Type κ} (f : A → Outcome B) {m : Outcome A} {a : A} {r : Outcome B}
    → m ≡ ok a
    → f a ≡ r
    → (m >>= f) ≡ r
>>=-ok f e h = rw e h
