-- ===== src/Manifest/Parse/Whole/Valid.antt =====
-- What a manifest is that `elfrc_manifest_parse` accepts.
use elfrc.Base.{
  ℕ, suc, ◌≡◌, refl, sym, subst, ap, arith, List, [], ◌∷◌, Option, none, some, Bool, true, ◌==◌,
  ◌&&◌, Bool-cases, inl, inr, All, length, ==_iff, Option-cases,
}
use elfrc.Bytes.{bytes_eq}
use elfrc.Bytes.Laws.{bytes_eq_iff}
use elfrc.Manifest.{Resource}
use elfrc.Manifest.Ids.{same_as, first_duplicate}
use elfrc.Manifest.Ids.Counts.{count}
use elfrc.Manifest.Ids.Free.{Kept}
use elfrc.Manifest.Parse.{Text, Draft}
use elfrc.Manifest.Parse.Metadata.{HasDistinctKeys}
use elfrc.Manifest.Parse.Entry.{Surroundings}
use elfrc.Manifest.Parse.Entry.Sound.{IsGood}
use elfrc.Manifest.Parse.Whole.{named_resources}

-- A resource of a manifest that was accepted.
pub record IsValid (is_regular : List ℕ → Bool) (r : Resource) : Type 0 where
  pub regular : is_regular r.file ≡ true
  pub uncompressed : r.compression ≡ 0
  pub distinct : HasDistinctKeys r.metadata

-- No two resources have the same name and the same language.
abbrev pub HasNoTwins : List Resource → Type 0
HasNoTwins [] = Unit {0}
HasNoTwins (r ∷ rs) = All (λ s. r.name ≡ s.name → r.language ≡ s.language → ⊥) rs × HasNoTwins rs

same_as-none :
    (r : Resource) (ss : List Resource)
    → same_as r ss ≡ none
    → All (λ s. r.name ≡ s.name → r.language ≡ s.language → ⊥) ss
unfolding same_as
same_as-none r [] e = tt
same_as-none r (s ∷ ss) e = elim (Bool-cases (bytes_eq r.name s.name && r.language == s.language)) [
  | inl t ↦ absurd (ground (arith, t))
  | inr f ↦ (
    (λ name language. absurd (
        ground
          (arith, (bytes_eq_iff r.name s.name).1 name, (==_iff r.language s.language).1 language))),
    same_as-none r ss (ground (arith, f)),
  )
]

pub first_duplicate-none : (rs : List Resource) → first_duplicate rs ≡ none → HasNoTwins rs
unfolding first_duplicate
first_duplicate-none [] e = tt
first_duplicate-none (r ∷ rs) e = elim (Option-cases (same_as r rs)) [
  | inl f ↦ (same_as-none r rs f, first_duplicate-none rs (ground (arith, f)))
  | inr (s, f) ↦ absurd (ground (arith, f))
]

name_inversion :
    (d : Draft) (name : Text) (rest : Option (List Resource)) (rs : List Resource)
    → elim name [
      | none ↦ none
      | some name ↦ elim rest [
        | none ↦ none
        | some rs ↦ some (record d.resource { name = name } ∷ rs)
      ]
    ]
      ≡ some rs
    → (name : List ℕ) × (rs' : List Resource) × (rest ≡ some rs')
      × (record d.resource { name = name } ∷ rs' ≡ rs)
name_inversion d none rest rs e = cc
name_inversion d (some name) none rs e = cc
name_inversion d (some name) (some rs') rs e = (name, rs', refl, cc)

-- The names go into the resources.
pub named_resources-IsValid :
    (outer : Surroundings) (ds : List Draft) (rs : List Resource)
    → All (IsGood outer) ds
    → named_resources ds ≡ some rs
    → All (IsValid outer.is_regular) rs × (length rs ≡ length ds)
unfolding named_resources
named_resources-IsValid outer [] rs good e =
    let nil : [] ≡ rs = cc in
    subst (λ xs. All (IsValid outer.is_regular) xs × (length xs ≡ 0)) nil (tt, refl)
named_resources-IsValid outer (d ∷ ds) rs (g, good) e =
    let (name, rs', f, same) = name_inversion d d.name (named_resources ds) rs e in
    let (valid, count) = named_resources-IsValid outer ds rs' good f in
    let this : IsValid outer.is_regular (record d.resource { name = name }) = record {
      regular = g.regular;
      uncompressed = g.uncompressed;
      distinct = g.distinct;
    } in
    subst (λ xs. All (IsValid outer.is_regular) xs × (length xs ≡ suc (length ds))) same
      ((this, valid), ap suc count)

-- The ids change nothing else.
pub Kept-IsValid :
    (is_regular : List ℕ → Bool) (rs rs' : List Resource)
    → Kept rs rs'
    → All (IsValid is_regular) rs
    → All (IsValid is_regular) rs'
Kept-IsValid is_regular [] [] k v = tt
Kept-IsValid is_regular [] (s ∷ ss) k v = absurd k
Kept-IsValid is_regular (r ∷ rs) [] k v = absurd k
Kept-IsValid is_regular (r ∷ rs) (s ∷ ss) (same, _, k) (v, vs) = (
  subst (IsValid is_regular) (sym same)
      (record { regular = v.regular; uncompressed = v.uncompressed; distinct = v.distinct }),
  Kept-IsValid is_regular rs ss k vs,
)
