-- ===== src/Manifest/Uint.antt =====
-- src/elfrc/manifest_yaml.c, `parse_uint`: decimal numbers by way of the C library's `strtol`.
pub mod Laws
mod Tests
use elfrc.Base.{
  ℕ, ◌+◌, ◌-◌, ◌*◌, ◌%◌, ◌^◌, min, List, [], ◌∷◌, Option, none, some, Bool, true, false, ◌&&◌, ◌||◌,
  leb, ◌==◌, if◌then◌else◌,
}

-- `isspace` and the digits of the C locale.
unfoldable pub isspace : ℕ → Bool
isspace b = b == b' ' || (leb 9 b && leb b 13)

unfoldable pub isdigit : ℕ → Bool
isdigit b = leb b'0' b && leb b b'9'

unfoldable pub skip_space : List ℕ → List ℕ
skip_space [] = []
skip_space (b ∷ s) = let rest = skip_space s in if isspace b then rest else b ∷ s

-- The sign, and what stands behind it.
unfoldable pub strtol_sign : List ℕ → Bool × List ℕ
strtol_sign [] = (false, [])
strtol_sign (b ∷ s) =
    if b == b'-' then (true, s) else if b == b'+' then (false, s) else (false, b ∷ s)

-- The digits, from the value `v` on, and what stands behind them.
unfoldable pub strtol_digits : ℕ → List ℕ → ℕ × List ℕ
strtol_digits v [] = (v, [])
strtol_digits v (b ∷ s) =
    let rest = strtol_digits (v * 10 + (b - b'0')) s in if isdigit b then rest else (v, b ∷ s)

-- What `strtol` read and what it left: nothing may be left, and `v < 0` is refused. `strtol` stops at
-- LONG_MAX, and the cast keeps 32 bits.
unfoldable pub number_of : Bool → ℕ × List ℕ → Option ℕ
number_of negative (v, (c ∷ rest)) = none
number_of negative (v, []) =
    if negative && leb 1 v then none else some (min v (2 ^ 63 - 1) % 2 ^ 32)

-- Behind the blanks and the sign. Where no digit comes, `strtol` leaves the string, which is not
-- empty.
unfoldable pub unsigned_of : Bool → List ℕ → Option ℕ
unsigned_of negative [] = none
unsigned_of negative (b ∷ s) = number_of negative (strtol_digits 0 (b ∷ s))

-- `none` as the argument is a NULL pointer, and as the result the return of -1.
unfoldable pub parse_uint : Option (List ℕ) → Option ℕ
parse_uint none = none
parse_uint (some s) =
    let (negative, digits) = strtol_sign (skip_space s) in unsigned_of negative digits
