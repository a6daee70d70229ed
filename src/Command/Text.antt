-- ===== src/Command/Text.antt =====
-- The options of the programs, as they are spelled.
use elfrc.Base.{ℕ, List, [], ◌∷◌}

abbrev pub output : List ℕ
output = b'-' ∷ b'o' ∷ []

abbrev pub symbol_prefix : List ℕ
symbol_prefix =
    b'-' ∷ b'-' ∷ b's' ∷ b'y' ∷ b'm' ∷ b'b' ∷ b'o' ∷ b'l' ∷ b'-' ∷ b'p' ∷ b'r' ∷ b'e' ∷ b'f' ∷ b'i'
    ∷ b'x' ∷ []

abbrev pub short_help : List ℕ
short_help = b'-' ∷ b'h' ∷ []

abbrev pub help : List ℕ
help = b'-' ∷ b'-' ∷ b'h' ∷ b'e' ∷ b'l' ∷ b'p' ∷ []

abbrev pub extract : List ℕ
extract = b'-' ∷ b'-' ∷ b'e' ∷ b'x' ∷ b't' ∷ b'r' ∷ b'a' ∷ b'c' ∷ b't' ∷ []
