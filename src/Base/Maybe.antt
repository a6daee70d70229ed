-- ===== src/Base/Maybe.antt =====
-- `do` blocks over `Option`.
use mathlib.Core.Path.{◌≡◌}
use mathlib.Core.Option.{Option, none, some}

infixl 5 ◌>>=◌
abbrev pub ◌>>=◌ {ℓ κ} : {A : Type ℓ} {B : Type κ} → Option A → (A → Option B) → Option B
none >>= f = none
some a >>= f = f a

-- A block goes on after a step that gave `a`.
pub >>=-some {ℓ κ} :
    {A : Type ℓ} {B : Type κ} (f : A → Option B) {o : Option A} {a : A} {r : Option B}
    → o ≡ some a
    → f a ≡ r
    → (o >>= f) ≡ r
>>=-some f e h = rw e h
