-- ===== src/Manifest/Parse/Entry/Follows.antt =====
-- The steps of `parse_resource` keep the first error, and what holds of every resource.
use elfrc.Base.{
  ℕ, ◌≡◌, refl, sym, subst, ◌∙◌, ap, List, Option, none, some, Bool, true, false, if◌then◌else◌,
}
use elfrc.Manifest.Yaml.{Content, scalar, sequence, mapping}
use elfrc.Manifest.Parse.{Problem, ParseError, set_error, Draft, fail}
use elfrc.Manifest.Parse.Metadata.{HasDistinctKeys}
use elfrc.Manifest.Parse.Entry.{Step, went, crashed, ◌>>=◌}

-- What holds of a resource whose file was looked at: nothing is compressed, no key of the metadata
-- occurs twice, and the file is a regular one if no error was found.
pub record IsSound (is_regular : List ℕ → Bool) (d : Draft) : Type 0 where
  pub uncompressed : d.resource.compression ≡ 0
  pub distinct : HasDistinctKeys d.resource.metadata
  pub regular : d.error ≡ none → is_regular d.resource.file ≡ true

-- `d'` comes after `d`: the first error stays, the name is the same, and the properties stay.
pub record Follows (is_regular : List ℕ → Bool) (d d' : Draft) : Type 0 where
  pub kept : (e : ParseError) → d.error ≡ some e → d'.error ≡ some e
  pub same_name : d'.name ≡ d.name
  pub sound : IsSound is_regular d → IsSound is_regular d'

set_error_keeps :
    (first : Option ParseError) (line : ℕ) (problem : Problem) (e : ParseError)
    → first ≡ some e
    → set_error first line problem ≡ some e
unfolding set_error
set_error_keeps none line problem e f = cc
set_error_keeps (some x) line problem e f = f

pub set_error-ne-none :
    (first : Option ParseError) (line : ℕ) (problem : Problem)
    → set_error first line problem ≡ none
    → ⊥
unfolding set_error
set_error-ne-none none line problem f = cc
set_error-ne-none (some x) line problem f = cc

module _ (is_regular : List ℕ → Bool) where
  pub Follows-refl : (d : Draft) → Follows is_regular d d
  Follows-refl d = record { kept = λ e f. f; same_name = refl; sound = λ s. s }

  pub Follows-trans :
      {d d' d'' : Draft}
      → Follows is_regular d d'
      → Follows is_regular d' d''
      → Follows is_regular d d''
  Follows-trans f g = record {
    kept = λ e x. g.kept e (f.kept e x);
    same_name = g.same_name ∙ f.same_name;
    sound = λ s. g.sound (f.sound s);
  }

  pub fail-Follows :
      (d : Draft) (line : ℕ) (problem : Problem) → Follows is_regular d (fail d line problem)
  fail-Follows d line problem = record {
    kept = λ e f. set_error_keeps d.error line problem e f;
    same_name = refl;
    sound = λ s. record {
      uncompressed = s.uncompressed;
      distinct = s.distinct;
      regular = λ e. absurd (set_error-ne-none d.error line problem e);
    };
  }

  -- A change of fields that the properties do not mention.
  pub with_fields-Follows :
      (d d' : Draft)
      → d'.error ≡ d.error
      → d'.name ≡ d.name
      → d'.resource.compression ≡ d.resource.compression
      → d'.resource.metadata ≡ d.resource.metadata
      → d'.resource.file ≡ d.resource.file
      → Follows is_regular d d'
  with_fields-Follows d d' error name compression metadata file = record {
    kept = λ e f. error ∙ f;
    same_name = name;
    sound = λ s. record {
      uncompressed = compression ∙ s.uncompressed;
      distinct = subst HasDistinctKeys (sym metadata) s.distinct;
      regular = λ e. ap is_regular file ∙ s.regular (sym error ∙ e);
    };
  }

  -- Two branches.
  pub option-Follows {ℓ} :
      {A : Type ℓ} (d e : Draft) (f : A → Draft) (o : Option A)
      → Follows is_regular d e
      → ((a : A) → Follows is_regular d (f a))
      → Follows is_regular d (elim o [ none ↦ e | some a ↦ f a ])
  option-Follows d e f none left right = left
  option-Follows d e f (some a) left right = right a

  pub if-Follows :
      (d x y : Draft) (b : Bool)
      → Follows is_regular d x
      → (b ≡ false → Follows is_regular d y)
      → Follows is_regular d (if b then x else y)
  if-Follows d x y true left right = left
  if-Follows d x y false left right = right refl

  pub content-Follows :
      (d : Draft) (a b : List ℕ → Draft) (c : List (ℕ × ℕ) → Draft) (x : Content)
      → ((s : List ℕ) → Follows is_regular d (a s))
      → ((items : List ℕ) → Follows is_regular d (b items))
      → ((pairs : List (ℕ × ℕ)) → Follows is_regular d (c pairs))
      → Follows is_regular d
          (elim x [ scalar s ↦ a s | sequence items ↦ b items | mapping pairs ↦ c pairs ])
  content-Follows d a b c (scalar s) f g h = f s
  content-Follows d a b c (sequence items) f g h = g items
  content-Follows d a b c (mapping pairs) f g h = h pairs

  -- Whatever the step goes on with follows `d`.
  abbrev pub Goes : Draft → Step Draft → Type 0
  Goes d m = (d' : Draft) → m ≡ went d' → Follows is_regular d d'

  pub went-Goes : (d d' : Draft) → Follows is_regular d d' → Goes d (went d')
  went-Goes d d' f d'' e = subst (Follows is_regular d) (went_injective e) f
    where
      went_injective : {x y : Draft} → went x ≡ went y → x ≡ y
      went_injective e = cc

  pub crashed-Goes : (d : Draft) → Goes d crashed
  crashed-Goes d d' e = cc

  pub >>=-Goes :
      (d : Draft) (m : Step Draft) (f : Draft → Step Draft)
      → Goes d m
      → ((d1 : Draft) → Goes d1 (f d1))
      → Goes d (m >>= f)
  >>=-Goes d (went d1) f first next d' e = Follows-trans (first d1 refl) (next d1 d' e)
  >>=-Goes d crashed f first next d' e = cc

  -- A step that hands on no draft.
  pub reads-Goes {ℓ} :
      {A : Type ℓ} (d : Draft) (m : Step A) (f : A → Step Draft)
      → ((a : A) → Goes d (f a))
      → Goes d (m >>= f)
  reads-Goes d (went a) f next d' e = next a d' e
  reads-Goes d crashed f next d' e = cc
