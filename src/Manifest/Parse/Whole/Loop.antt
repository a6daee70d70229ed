-- ===== src/Manifest/Parse/Whole/Loop.antt =====
-- The loop of `elfrc_manifest_parse` over the items of `resources`.
use elfrc.Base.{
  ℕ, ◌+◌, ◌≡◌, refl, sym, subst, ◌∙◌, ap, arith, List, [], ◌∷◌, ◌++◌, Option, none, some, All,
  length, length-append,
}
use elfrc.Manifest.Yaml.{node_at}
use elfrc.Manifest.Parse.{ParseError, Draft}
use elfrc.Manifest.Parse.Entry.{Surroundings, Defaults, Step, went, crashed, ◌>>=◌, parse_resource}
use elfrc.Manifest.Parse.Entry.Sound.{IsGood, IsParsed, parse_resource-IsParsed}
use elfrc.Manifest.Parse.Whole.{push_draft, parse_resources}

All-append :
    {A : Type 0} (P : A → Type 0) (xs : List A) (y : A) → All P xs → P y → All P (xs ++ (y ∷ []))
All-append P [] y h k = (k, tt)
All-append P (x ∷ xs) y (hx, h) k = (hx, All-append P xs y h k)

abbrev Drafts : Type 0
Drafts = Option ParseError × List Draft

-- One round that leaves no error.
round_inversion :
    (outer : Surroundings) (m : Step (Option ParseError × Option Draft)) (ds ds' : List Draft)
    (k : List Draft → Step Drafts)
    → ((out : Option ParseError × Option Draft) → m ≡ went out → IsParsed outer out)
    → (do
      (error, d) ← m
      elim error [ some e ↦ went (some e, push_draft ds d) | none ↦ k (push_draft ds d) ])
      ≡ went (none, ds')
    → (d : Draft) × IsGood outer d × (k (ds ++ (d ∷ [])) ≡ went (none, ds'))
round_inversion outer crashed ds ds' k h e = cc
round_inversion outer (went (some x, o)) ds ds' k h e = absurd (two_errors e)
  where
    two_errors :
        {x : ParseError} {a b : List Draft}
        → ◌≡◌ {A = Step Drafts} (went (some x, a)) (went (none, b))
        → ⊥
    two_errors e = cc
round_inversion outer (went (none, o)) ds ds' k h e =
    let (d, pushed, good) = h (none, o) refl refl in
    (d, good, ap (λ (p : Option Draft). k (push_draft ds p)) (sym pushed) ∙ e)

no_rounds : {a b : List Draft} → ◌≡◌ {A = Step Drafts} (went (none, a)) (went (none, b)) → a ≡ b
no_rounds e = cc

-- The loop over the items.
pub parse_resources-IsGood :
    (outer : Surroundings) (defs : Defaults) (ds ds' : List Draft) (items : List ℕ)
    → All (IsGood outer) ds
    → parse_resources outer defs ds items ≡ went (none, ds')
    → All (IsGood outer) ds' × (length ds' ≡ length ds + length items)
unfolding parse_resources
parse_resources-IsGood outer defs ds ds' [] good e =
    subst (λ xs. All (IsGood outer) xs × (length xs ≡ length ds + 0)) (no_rounds e)
      (good, omega arith)
parse_resources-IsGood outer defs ds ds' (item ∷ items) good e =
    let (d, fine, next) =
      round_inversion outer (parse_resource outer defs (node_at outer.doc item) none) ds ds'
        (λ xs. parse_resources outer defs xs items)
        (λ out f. parse_resource-IsParsed outer defs (node_at outer.doc item) out f) e in
    let (all, count) =
      parse_resources-IsGood outer defs (ds ++ (d ∷ [])) ds' items
        (All-append (IsGood outer) ds d good fine) next in
    (all, omega (arith, count, length-append ds (d ∷ [])))
