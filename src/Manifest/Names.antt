-- ===== src/Manifest/Names.antt =====
-- src/elfrc/manifest_yaml.c: what the names of types, compressions, flags and languages stand for.
pub mod Tables
pub mod Caseless
mod Tests
use elfrc.Base.{
  ℕ, ◌+◌, List, [], ◌∷◌, Option, none, some, Bool, true, false, ◌&&◌, leb, ◌==◌, if◌then◌else◌, map,
  take,
}
use elfrc.Bytes.{bytes_eq}
use elfrc.Fnv1a.{elfr_fnv1a32}
use elfrc.Format.ResourceType
use elfrc.Manifest.Names.Tables.{
  type_names, extensions, compression_names, flag_names, language_tags, neutral,
}

-- `tolower` of the C locale, which the program does not leave.
unfoldable pub tolower : ℕ → ℕ
tolower b = if leb b'A' b && leb b b'Z' then b + 32 else b

-- `strcasecmp(s, t) == 0`
unfoldable pub strcasecmp_eq : List ℕ → List ℕ → Bool
strcasecmp_eq s t = bytes_eq (map tolower s) (map tolower t)

-- The loop over a table.
unfoldable pub table_lookup : List (List ℕ × ℕ) → List ℕ → Option ℕ
table_lookup [] name = none
table_lookup (row ∷ rows) name =
    let rest = table_lookup rows name in if strcasecmp_eq name row.0 then some row.1 else rest

unfoldable pub type_from_name : List ℕ → Option ℕ
type_from_name name = table_lookup type_names name

-- `strrchr(s, '.')`: from the last dot on.
unfoldable pub last_dot : List ℕ → Option (List ℕ)
last_dot [] = none
last_dot (b ∷ s) = elim (last_dot s) [
  | some dot ↦ some dot
  | none ↦ if b == b'.' then some (b ∷ s) else none
]

abbrev pub or_else : Option ℕ → ℕ → ℕ
or_else none d = d
or_else (some v) d = v

unfoldable pub type_from_extension : List ℕ → ℕ
type_from_extension filename = elim (last_dot filename) [
  | none ↦ ResourceType.binary
  | some dot ↦ or_else (table_lookup extensions dot) ResourceType.binary
]

unfoldable pub compression_from_name : List ℕ → Option ℕ
compression_from_name name = table_lookup compression_names name

unfoldable pub flag_from_name : List ℕ → Option ℕ
flag_from_name name = table_lookup flag_names name

-- The id of a tag that is in no table: a hash of its first 127 bytes in lower case, never 0.
unfoldable pub hashed_language : List ℕ → ℕ
hashed_language tag = let h = elfr_fnv1a32 (map tolower (take 127 tag)) in if h == 0 then 1 else h

-- `none` is a NULL pointer.
unfoldable pub language_from_tag : Option (List ℕ) → ℕ
language_from_tag none = 0
language_from_tag (some []) = 0
language_from_tag (some (b ∷ s)) =
    if strcasecmp_eq (b ∷ s) neutral
    then 0
    else or_else (table_lookup language_tags (b ∷ s)) (hashed_language (b ∷ s))
