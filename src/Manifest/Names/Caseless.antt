-- ===== src/Manifest/Names/Caseless.antt =====
-- The names of a manifest are read without regard to case, and no language is taken for neutral.
use elfrc.Base.{
  ℕ, zero, suc, ◌<◌, ◌≡◌, ◌↔◌, ◌⊎◌, inl, inr, refl, sym, ap, ◌∙◌, arith, List, [], ◌∷◌, some, true,
  map, take, Bool-cases, Option-cases, All, if-true, if-false,
}
use elfrc.Bytes.{bytes_eq}
use elfrc.Manifest.Names.Tables.{type_names, compression_names, flag_names, language_tags, neutral}
use elfrc.Manifest.Names.{
  tolower, strcasecmp_eq, table_lookup, type_from_name, or_else, compression_from_name,
  flag_from_name, hashed_language, language_from_tag,
}

-- Equal but for case.
abbrev pub SameLetters : List ℕ → List ℕ → Type 0
SameLetters s t = map tolower s ≡ map tolower t

table_lookup_caseless :
    (rows : List (List ℕ × ℕ)) (s t : List ℕ)
    → SameLetters s t
    → table_lookup rows s ≡ table_lookup rows t
unfolding table_lookup strcasecmp_eq
table_lookup_caseless [] s t e = refl
table_lookup_caseless (row ∷ rows) s t e = rw (e, table_lookup_caseless rows s t e) refl

map-take : (n : ℕ) (s : List ℕ) → map tolower (take n s) ≡ take n (map tolower s)
map-take zero s = refl
map-take (suc n) [] = refl
map-take (suc n) (b ∷ s) = ap (λ r. tolower b ∷ r) (map-take n s)

hashed_language_caseless : (s t : List ℕ) → SameLetters s t → hashed_language s ≡ hashed_language t
unfolding hashed_language
hashed_language_caseless s t e = rw (map-take 127 s, map-take 127 t, e) refl

strcasecmp_eq_caseless : (s t q : List ℕ) → SameLetters s t → strcasecmp_eq s q ≡ strcasecmp_eq t q
unfolding strcasecmp_eq
strcasecmp_eq_caseless s t q e = ap (λ r. bytes_eq r (map tolower q)) e

language_caseless :
    (s t : List ℕ) → SameLetters s t → language_from_tag (some s) ≡ language_from_tag (some t)
unfolding language_from_tag strcasecmp_eq
language_caseless [] [] e = refl
language_caseless [] (c ∷ t) e = cc
language_caseless (b ∷ s) [] e = cc
language_caseless (b ∷ s) (c ∷ t) e =
    rw
      (
        table_lookup_caseless language_tags (b ∷ s) (c ∷ t) e,
        hashed_language_caseless (b ∷ s) (c ∷ t) e,
        strcasecmp_eq_caseless (b ∷ s) (c ∷ t) neutral e,
      )
      refl

-- Names that differ only in case stand for the same type, compression, flag and language.
pub names_caseless :
    (s t : List ℕ)
    → map tolower s ≡ map tolower t
    → (type_from_name s ≡ type_from_name t)
      × (compression_from_name s ≡ compression_from_name t)
      × (flag_from_name s ≡ flag_from_name t)
      × (language_from_tag (some s) ≡ language_from_tag (some t))
unfolding type_from_name compression_from_name flag_from_name
names_caseless s t e = (
  table_lookup_caseless type_names s t e,
  table_lookup_caseless compression_names s t e,
  table_lookup_caseless flag_names s t e,
  language_caseless s t e,
)

table_lookup-pos :
    (rows : List (List ℕ × ℕ)) (s : List ℕ) {v : ℕ}
    → All (λ row. 0 < row.1) rows
    → table_lookup rows s ≡ some v
    → 0 < v
unfolding table_lookup
table_lookup-pos [] s all e = cc
table_lookup-pos (row ∷ rows) s (pos, all) e = elim (Bool-cases (strcasecmp_eq s row.0)) [
  | inl hit ↦ ground arith
  | inr miss ↦
      table_lookup-pos rows s all (sym (if-false (some row.1) (table_lookup rows s) miss) ∙ e)
]

hashed_language-pos : (t : List ℕ) → 0 < hashed_language t
unfolding hashed_language
hashed_language-pos t = ground arith

tagged-pos : (t : List ℕ) → 0 < or_else (table_lookup language_tags t) (hashed_language t)
tagged-pos t = elim (Option-cases (table_lookup language_tags t)) [
  | inl none_there ↦ rw none_there (hashed_language-pos t)
  | inr (v, there) ↦ rw there (
      table_lookup-pos language_tags t
        (
          omega arith,
          (
            omega arith,
            (
              omega arith,
              (
                omega arith,
                (omega arith, (omega arith, (omega arith, (omega arith, (omega arith, tt))))),
              ),
            ),
          ),
        )
        there)
]

-- A language tag stands for the neutral language 0 exactly if it is empty or says so: no other tag
-- is hashed to 0.
pub language_from_tag-neutral :
    (t : List ℕ) → (language_from_tag (some t) ≡ 0) ↔ ((t ≡ []) ⊎ (strcasecmp_eq t neutral ≡ true))
unfolding language_from_tag
language_from_tag-neutral [] = ((λ e. inl refl), (λ h. refl))
language_from_tag-neutral (b ∷ s) = (
  (λ e. elim (Bool-cases (strcasecmp_eq (b ∷ s) neutral)) [
    | inl same ↦ inr same
    | inr other ↦ absurd (omega (arith, tagged-pos (b ∷ s), sym (if-false 0 _ other) ∙ e))
  ]),
  (λ h. elim h [ inl empty ↦ absurd (cc) | inr same ↦ if-true 0 _ same ]),
)
