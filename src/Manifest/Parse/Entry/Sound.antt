-- ===== src/Manifest/Parse/Entry/Sound.antt =====
-- What `parse_resource` returns.
use elfrc.Base.{
  ℕ, ◌≡◌, refl, sym, subst, ◌∙◌, ap, List, [], Option, none, some, Bool, true, false, if◌then◌else◌,
}
use elfrc.Manifest.Yaml.{Content, scalar, sequence, mapping, Node, node_line, scalar_dup}
use elfrc.Manifest.Yaml.Keys
use elfrc.Manifest.Parse.{
  Problem, ParseError, set_error, Draft, fail, name_missing, file_missing, entry_not_mapping,
  cannot_open_file,
}
use elfrc.Manifest.Parse.Metadata.{HasDistinctKeys}
use elfrc.Manifest.Parse.Entry.{
  Surroundings, Defaults, Step, went, crashed, ◌>>=◌, not_null, resolve, get, parse_fields,
  parse_file, parse_entry, parse_resource,
}
use elfrc.Manifest.Parse.Entry.Follows.{IsSound, set_error-ne-none}
use elfrc.Manifest.Parse.Entry.Steps.{parse_fields-Goes}

-- Every resource that the step goes on with is sound.
abbrev Ends : (List ℕ → Bool) → Step Draft → Type 0
Ends is_regular m = (d' : Draft) → m ≡ went d' → IsSound is_regular d'

went-Ends :
    (is_regular : List ℕ → Bool) (d : Draft) → IsSound is_regular d → Ends is_regular (went d)
went-Ends is_regular d s d' e = subst (IsSound is_regular) (went_injective e) s
  where
    went_injective : {x y : Draft} → went x ≡ went y → x ≡ y
    went_injective e = cc

-- `memset` left the resource as it is.
record IsFresh (d : Draft) : Type 0 where
  uncompressed : d.resource.compression ≡ 0
  no_metadata : d.resource.metadata ≡ []

failed-IsSound :
    (is_regular : List ℕ → Bool) (d : Draft) (line : ℕ) (problem : Problem)
    → IsFresh d
    → IsSound is_regular (fail d line problem)
failed-IsSound is_regular d line problem f = record {
  uncompressed = f.uncompressed;
  distinct = subst HasDistinctKeys (sym f.no_metadata) tt;
  regular = λ e. absurd (set_error-ne-none d.error line problem e);
}

module _ (outer : Surroundings) (defs : Defaults) (entry : Node) where
  file-Ends :
      (d : Draft) (file : List ℕ) (b : Bool)
      → IsFresh d
      → d.resource.file ≡ file
      → outer.is_regular file ≡ b
      → Ends outer.is_regular (
          if b
          then parse_fields outer defs entry d
          else went (fail d d.resource.line (cannot_open_file d.name file)))
  file-Ends d file true fresh at regular d' e =
      (parse_fields-Goes outer defs entry d d' e).sound (record {
        uncompressed = fresh.uncompressed;
        distinct = subst HasDistinctKeys (sym fresh.no_metadata) tt;
        regular = λ f. ap outer.is_regular at ∙ regular;
      })
  file-Ends d file false fresh at regular d' e =
      went-Ends outer.is_regular _ (failed-IsSound outer.is_regular d _ _ fresh) d' e

  parse_file-Ends :
      (n : Node) (d : Draft) → IsFresh d → Ends outer.is_regular (parse_file outer defs entry n d)
  unfolding parse_file
  parse_file-Ends n d fresh = by_text (scalar_dup (some n))
    where
      at : List ℕ → Draft
      at file = record d { resource = record d.resource { file = file } }

      by_text :
          (text : Option (List ℕ))
          → Ends outer.is_regular (
              not_null text >>= λ rel.
              let file = resolve outer.manifest_dir rel in
              let d1 = record d { resource = record d.resource { file = file } } in
              let fields = parse_fields outer defs entry d1 in
              if outer.is_regular file
              then fields
              else went (fail d1 d.resource.line (cannot_open_file d.name file)))
      by_text none d' e = cc
      by_text (some rel) d' e =
          let file = resolve outer.manifest_dir rel in
          let d1 = record d { resource = record d.resource { file = file } } in
          file-Ends d1 file (outer.is_regular file)
            (record { uncompressed = fresh.uncompressed; no_metadata = fresh.no_metadata }) refl
            refl d' e

  parse_entry-Ends :
      (d : Draft) → IsFresh d → Ends outer.is_regular (parse_entry outer defs entry d)
  unfolding parse_entry
  parse_entry-Ends d fresh = by_name (get outer defs entry Keys.name)
    where
      by_file :
          (d1 : Draft) (f : Option Node)
          → IsFresh d1
          → Ends outer.is_regular (elim f [
            | none ↦ went (fail d1 d.resource.line (file_missing d1.name))
            | some n ↦ parse_file outer defs entry n d1
          ])
      by_file d1 none h = went-Ends outer.is_regular _ (failed-IsSound outer.is_regular d1 _ _ h)
      by_file d1 (some n) h = parse_file-Ends n d1 h

      by_name :
          (o : Option Node)
          → Ends outer.is_regular (elim o [
            | none ↦ went (fail d d.resource.line name_missing)
            | some n ↦
                let d1 = record d { name = scalar_dup (some n) } in
                elim (get outer defs entry Keys.file) [
                  | none ↦ went (fail d1 d.resource.line (file_missing d1.name))
                  | some f ↦ parse_file outer defs entry f d1
                ]
          ])
      by_name none = went-Ends outer.is_regular _ (failed-IsSound outer.is_regular d _ _ fresh)
      by_name (some n) =
          by_file (record d { name = scalar_dup (some n) }) (get outer defs entry Keys.file)
            (record { uncompressed = fresh.uncompressed; no_metadata = fresh.no_metadata })

-- A resource that was parsed without an error: its file is a regular one, it is not compressed, and
-- no key of its metadata occurs twice.
pub record IsGood (outer : Surroundings) (d : Draft) : Type 0 where
  pub no_error : d.error ≡ none
  pub regular : outer.is_regular d.resource.file ≡ true
  pub uncompressed : d.resource.compression ≡ 0
  pub distinct : HasDistinctKeys d.resource.metadata

-- No error means that a good resource was pushed.
abbrev pub IsParsed : Surroundings → Option ParseError × Option Draft → Type 0
IsParsed outer (error, pushed) = error ≡ none → (d : Draft) × (pushed ≡ some d) × IsGood outer d

pushed_result :
    (outer : Surroundings) (m : Step Draft) (out : Option ParseError × Option Draft)
    → Ends outer.is_regular m
    → (m >>= λ d. went (d.error, some d)) ≡ went out
    → IsParsed outer out
pushed_result outer crashed out ends e = cc
pushed_result outer (went d) (error, o) ends e =
    let s = ends d refl in
    λ no_error.
      let same : d.error ≡ error = cc in
      let clean = same ∙ no_error in
      (
        d,
        cc,
        record {
          no_error = clean;
          regular = s.regular clean;
          uncompressed = s.uncompressed;
          distinct = s.distinct;
        },
      )

step_error :
    {x y : Option ParseError} {o p : Option Draft}
    → ◌≡◌ {A = Step (Option ParseError × Option Draft)} (went (x, o)) (went (y, p))
    → x ≡ y
step_error e = cc

by_content :
    (outer : Surroundings) (line : ℕ) (m : Step (Option ParseError × Option Draft)) (x : Content)
    (out : Option ParseError × Option Draft)
    → (m ≡ went out → IsParsed outer out)
    → elim x [ mapping pairs ↦ m | _ ↦ went (set_error none line entry_not_mapping, none) ]
      ≡ went out
    → IsParsed outer out
by_content outer line m (mapping pairs) out h e = h e
by_content outer line m (scalar s) (error, o) h e =
    λ f. absurd (set_error-ne-none none line entry_not_mapping (step_error e ∙ f))
by_content outer line m (sequence items) (error, o) h e =
    λ f. absurd (set_error-ne-none none line entry_not_mapping (step_error e ∙ f))

pub parse_resource-IsParsed :
    (outer : Surroundings) (defs : Defaults) (n : Option Node)
    (out : Option ParseError × Option Draft)
    → parse_resource outer defs n none ≡ went out
    → IsParsed outer out
unfolding parse_resource
parse_resource-IsParsed outer defs none out e = cc
parse_resource-IsParsed outer defs (some n) out e =
    by_content outer (node_line (some n)) _ n.content out
      (pushed_result outer _ out
        (parse_entry-Ends outer defs n _ (record { uncompressed = refl; no_metadata = refl })))
      e

-- Whatever the document says: if `parse_resource` returns without an error, it pushed a resource
-- whose file is a regular one, which is not compressed, and which has no key of its metadata twice.
pub parse_resource-IsGood :
    (outer : Surroundings) (defs : Defaults) (n : Option Node) (pushed : Option Draft)
    → parse_resource outer defs n none ≡ went (none, pushed)
    → (d : Draft) × (pushed ≡ some d) × IsGood outer d
parse_resource-IsGood outer defs n pushed e =
    parse_resource-IsParsed outer defs n (none, pushed) e refl
