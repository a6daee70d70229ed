-- ===== src/Manifest/Names/Tests.antt =====
-- Names in different cases.
use elfrc.Base.{ℕ, ◌≡◌, refl, List, [], ◌∷◌, some}
use elfrc.Manifest.Names.{
  tolower, type_from_name, compression_from_name, flag_from_name, language_from_tag,
}
use elfrc.Manifest.Names.Caseless.{names_caseless}

abbrev upper : List ℕ
upper = b'P' ∷ b'N' ∷ b'g' ∷ []

abbrev lower : List ℕ
lower = b'p' ∷ b'n' ∷ b'G' ∷ []

names_caseless_example :
    (type_from_name upper ≡ type_from_name lower)
    × (compression_from_name upper ≡ compression_from_name lower)
    × (flag_from_name upper ≡ flag_from_name lower)
    × (language_from_tag (some upper) ≡ language_from_tag (some lower))
unfolding tolower
names_caseless_example = names_caseless upper lower refl
