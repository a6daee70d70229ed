-- ===== src/Command/Elfrc/Names.antt =====
-- The name of the output, where none is given.
use elfrc.Base.{
  ℕ, ◌≡◌, ◌≢◌, refl, ap, ◌∙◌, arith, List, [], ◌∷◌, ◌++◌, none, some, false, ◌==◌, All,
  length-append, take-append, ==_refl,
}
use elfrc.Command.Elfrc.{strrchr, base_of, stem_of, derive_output_name}

-- The byte does not occur.
abbrev pub Lacks : ℕ → List ℕ → Type 0
Lacks c s = All (λ b. b ≢ c) s

strrchr_absent : (c : ℕ) (s : List ℕ) → Lacks c s → strrchr c s ≡ none
unfolding strrchr
strrchr_absent c [] h = refl
strrchr_absent c (b ∷ s) (ne, h) =
    let test : (b == c) ≡ false = ground arith in rw (strrchr_absent c s h, test) refl

strrchr_last : (c : ℕ) (s t : List ℕ) → Lacks c t → strrchr c (s ++ (c ∷ t)) ≡ some (c ∷ t)
unfolding strrchr
strrchr_last c [] t h = rw (strrchr_absent c t h, ==_refl c) refl
strrchr_last c (b ∷ s) t h = rw (strrchr_last c s t h) refl

base_inside : (dir base : List ℕ) → Lacks b'/' base → base_of (dir ++ (b'/' ∷ base)) ≡ base
unfolding base_of
base_inside dir base h = rw (base_of, strrchr_last b'/' dir base h) refl

base_alone : (base : List ℕ) → Lacks b'/' base → base_of base ≡ base
unfolding base_of
base_alone base h = rw (base_of, strrchr_absent b'/' base h) refl

stem_with_suffix : (stem ext : List ℕ) → Lacks b'.' ext → stem_of (stem ++ (b'.' ∷ ext)) ≡ stem
unfolding stem_of
stem_with_suffix stem ext h =
    rw (stem_of, strrchr_last b'.' stem ext h)
      (take-append stem (b'.' ∷ ext) _ (omega (arith, length-append stem (b'.' ∷ ext))))

-- The output is named after the manifest's last part, with its suffix replaced, and stands in the
-- working directory: the manifest may stand in a directory or not.
pub derive_output_name-suffix :
    (dir stem ext : List ℕ)
    → Lacks b'/' (stem ++ (b'.' ∷ ext))
    → Lacks b'.' ext
    → (derive_output_name (dir ++ (b'/' ∷ stem ++ (b'.' ∷ ext))) ≡ stem ++ (b'.' ∷ b'o' ∷ []))
      × (derive_output_name (stem ++ (b'.' ∷ ext)) ≡ stem ++ (b'.' ∷ b'o' ∷ []))
unfolding derive_output_name
derive_output_name-suffix dir stem ext no_slash no_dot =
    let base = stem ++ (b'.' ∷ ext) in
    let same = stem_with_suffix stem ext no_dot in
    (
      ap (λ s. s ++ (b'.' ∷ b'o' ∷ [])) (ap stem_of (base_inside dir base no_slash) ∙ same),
      ap (λ s. s ++ (b'.' ∷ b'o' ∷ [])) (ap stem_of (base_alone base no_slash) ∙ same),
    )
