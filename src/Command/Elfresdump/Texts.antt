-- ===== src/Command/Elfresdump/Texts.antt =====
-- The texts of src/elfresdump/main.c.
use elfrc.Base.{ℕ, List, [], ◌∷◌}

-- The names of the types, by their numbers.
abbrev pub type_names : List (List ℕ)
type_names =
    (b'b' ∷ b'i' ∷ b'n' ∷ b'a' ∷ b'r' ∷ b'y' ∷ [])
    ∷ (b's' ∷ b't' ∷ b'r' ∷ b'i' ∷ b'n' ∷ b'g' ∷ [])
    ∷ (b'j' ∷ b's' ∷ b'o' ∷ b'n' ∷ [])
    ∷ (b'x' ∷ b'm' ∷ b'l' ∷ [])
    ∷ (b'y' ∷ b'a' ∷ b'm' ∷ b'l' ∷ [])
    ∷ (b'p' ∷ b'n' ∷ b'g' ∷ [])
    ∷ (b'j' ∷ b'p' ∷ b'e' ∷ b'g' ∷ [])
    ∷ (b's' ∷ b'v' ∷ b'g' ∷ [])
    ∷ (b'g' ∷ b'i' ∷ b'f' ∷ [])
    ∷ (b'i' ∷ b'c' ∷ b'o' ∷ b'n' ∷ [])
    ∷ (b'f' ∷ b'o' ∷ b'n' ∷ b't' ∷ [])
    ∷ (b'a' ∷ b'u' ∷ b'd' ∷ b'i' ∷ b'o' ∷ [])
    ∷ (b'v' ∷ b'i' ∷ b'd' ∷ b'e' ∷ b'o' ∷ [])
    ∷ (b's' ∷ b'h' ∷ b'a' ∷ b'd' ∷ b'e' ∷ b'r' ∷ [])
    ∷ (b'c' ∷ b'e' ∷ b'r' ∷ b't' ∷ b'i' ∷ b'f' ∷ b'i' ∷ b'c' ∷ b'a' ∷ b't' ∷ b'e' ∷ [])
    ∷ []

abbrev pub application_defined : List ℕ
application_defined =
    b'a' ∷ b'p' ∷ b'p' ∷ b'l' ∷ b'i' ∷ b'c' ∷ b'a' ∷ b't' ∷ b'i' ∷ b'o' ∷ b'n' ∷ b'-' ∷ b'd' ∷ b'e'
    ∷ b'f' ∷ b'i' ∷ b'n' ∷ b'e' ∷ b'd' ∷ []

abbrev pub resource_section : List ℕ
resource_section = b'.' ∷ b'r' ∷ b'e' ∷ b's' ∷ b'o' ∷ b'u' ∷ b'r' ∷ b'c' ∷ b'e' ∷ []
