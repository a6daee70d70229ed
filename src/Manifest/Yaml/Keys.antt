-- ===== src/Manifest/Yaml/Keys.antt =====
-- The words of a manifest, as src/elfrc/manifest_yaml.c spells them.
use elfrc.Base.{ℕ, List, [], ◌∷◌}

abbrev pub version : List ℕ
version = b'v' ∷ b'e' ∷ b'r' ∷ b's' ∷ b'i' ∷ b'o' ∷ b'n' ∷ []

abbrev pub module_name : List ℕ
module_name = b'm' ∷ b'o' ∷ b'd' ∷ b'u' ∷ b'l' ∷ b'e' ∷ []

abbrev pub defaults : List ℕ
defaults = b'd' ∷ b'e' ∷ b'f' ∷ b'a' ∷ b'u' ∷ b'l' ∷ b't' ∷ b's' ∷ []

abbrev pub resources : List ℕ
resources = b'r' ∷ b'e' ∷ b's' ∷ b'o' ∷ b'u' ∷ b'r' ∷ b'c' ∷ b'e' ∷ b's' ∷ []

abbrev pub name : List ℕ
name = b'n' ∷ b'a' ∷ b'm' ∷ b'e' ∷ []

abbrev pub file : List ℕ
file = b'f' ∷ b'i' ∷ b'l' ∷ b'e' ∷ []

abbrev pub type : List ℕ
type = b't' ∷ b'y' ∷ b'p' ∷ b'e' ∷ []

abbrev pub id : List ℕ
id = b'i' ∷ b'd' ∷ []

abbrev pub language : List ℕ
language = b'l' ∷ b'a' ∷ b'n' ∷ b'g' ∷ b'u' ∷ b'a' ∷ b'g' ∷ b'e' ∷ []

abbrev pub compression : List ℕ
compression = b'c' ∷ b'o' ∷ b'm' ∷ b'p' ∷ b'r' ∷ b'e' ∷ b's' ∷ b's' ∷ b'i' ∷ b'o' ∷ b'n' ∷ []

abbrev pub encryption : List ℕ
encryption = b'e' ∷ b'n' ∷ b'c' ∷ b'r' ∷ b'y' ∷ b'p' ∷ b't' ∷ b'i' ∷ b'o' ∷ b'n' ∷ []

abbrev pub metadata : List ℕ
metadata = b'm' ∷ b'e' ∷ b't' ∷ b'a' ∷ b'd' ∷ b'a' ∷ b't' ∷ b'a' ∷ []

abbrev pub flags : List ℕ
flags = b'f' ∷ b'l' ∷ b'a' ∷ b'g' ∷ b's' ∷ []

abbrev pub neutral : List ℕ
neutral = b'n' ∷ b'e' ∷ b'u' ∷ b't' ∷ b'r' ∷ b'a' ∷ b'l' ∷ []

abbrev pub none : List ℕ
none = b'n' ∷ b'o' ∷ b'n' ∷ b'e' ∷ []
