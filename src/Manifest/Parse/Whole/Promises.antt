-- ===== src/Manifest/Parse/Whole/Promises.antt =====
-- What `elfrc_manifest_parse` promises, whatever the document says.
use elfrc.Base.{
  ℕ, ◌+◌, ◌^◌, ◌≤◌, ◌<◌, ◌≡◌, refl, sym, subst, arith, List, [], Option, none, some, Bool, true,
  false, All, length, if◌then◌else◌,
}
use elfrc.Manifest.{Resource, Manifest}
use elfrc.Manifest.Ids.{IdError, Assigned, first_duplicate, assign_and_validate_ids}
use elfrc.Manifest.Ids.Counts.{count, final_ids}
use elfrc.Manifest.Ids.Unique.{IsLibrary, IsAssigned, assigned, assign_and_validate_ids-IsAssigned}
use elfrc.Manifest.Ids.Unique
use elfrc.Manifest.Yaml.{Content, scalar, sequence, mapping, Node, Document, scalar_dup, map_get}
use elfrc.Manifest.Yaml.Keys
use elfrc.Manifest.Parse.{
  Text, ParseError, Draft, resources_missing, version_missing, version_unsupported,
  root_not_mapping,
}
use elfrc.Manifest.Parse.Entry.{Surroundings, Defaults, Step, went, crashed}
use elfrc.Manifest.Parse.Entry.Sound.{IsGood}
use elfrc.Manifest.Parse.Whole.{
  Load, cannot_open, no_parser, malformed, loaded, System, unopened, uninitialized, yaml_error,
  Parsed, accepted, refused, null_used, nameless, endless, defaults_of, parse_resources,
  named_resources, after_ids, finish_parse, ended, surroundings, refuse, items_of, parse_body,
  version_one, parse_root, parse_document, elfrc_manifest_parse,
}
use elfrc.Manifest.Parse.Whole.Loop.{parse_resources-IsGood}
use elfrc.Manifest.Parse.Whole.Valid.{
  IsValid, HasNoTwins, first_duplicate-none, named_resources-IsValid, Kept-IsValid,
}

-- What an accepted manifest is.
pub record IsManifest (is_regular : List ℕ → Bool) (m : Manifest) : Type 0 where
  pub version_one : m.version ≡ 1
  pub valid : All (IsValid is_regular) m.resources
  pub unique_ids : (id : ℕ) → count id (final_ids m.resources) ≤ 1
  pub no_twins : HasNoTwins m.resources

-- What every result of the call promises: an accepted manifest is one, and the call ends.
abbrev pub Promises : (List ℕ → Bool) → Parsed → Type 0
Promises is_regular (accepted m) = IsManifest is_regular m
Promises is_regular (refused r) = Unit {0}
Promises is_regular null_used = Unit {0}
Promises is_regular nameless = Unit {0}
Promises is_regular endless = ⊥

ids-Promises :
    (is_regular : List ℕ → Bool) (module_name : Text) (rs : List Resource) (a : Assigned)
    → All (IsValid is_regular) rs
    → IsAssigned rs a
    → Promises is_regular (after_ids module_name (some a))
ids-Promises is_regular module_name rs a valid (Unique.refused z twice) = tt
ids-Promises is_regular module_name rs a valid (assigned rs' kept once) =
    by_error (first_duplicate rs') refl
  where
    by_error :
        (o : Option IdError)
        → first_duplicate rs' ≡ o
        → Promises is_regular (after_ids module_name (some (record { resources = rs'; error = o })))
    by_error (some e) f = tt
    by_error none f = record {
      version_one = refl;
      valid = Kept-IsValid is_regular rs rs' kept valid;
      unique_ids = once;
      no_twins = first_duplicate-none rs' f;
    }

if-Promises :
    (is_regular : List ℕ → Bool) (x y : Parsed) (b : Bool)
    → Promises is_regular x
    → Promises is_regular y
    → Promises is_regular (if b then x else y)
if-Promises is_regular x y true p q = p
if-Promises is_regular x y false p q = q

-- There are fewer items than 2^32 - 1.
abbrev pub AreFew : Option (List ℕ) → Type 0
AreFew none = Unit {0}
AreFew (some items) = length items + 1 < 2 ^ 32

module _ (sys : System) (lib : IsLibrary sys.qsort sys.bsearch) where
  finish-Promises :
      (outer : Surroundings) (module_name : Text) (ds : List Draft)
      → All (IsGood outer) ds
      → length ds + 1 < 2 ^ 32
      → Promises outer.is_regular (finish_parse sys module_name (none, ds))
  unfolding finish_parse
  finish-Promises outer module_name ds good few = by_names (named_resources ds) refl
    where
      by_names :
          (o : Option (List Resource))
          → named_resources ds ≡ o
          → Promises outer.is_regular (elim o [
            | none ↦ nameless
            | some rs ↦ after_ids module_name (assign_and_validate_ids sys.qsort sys.bsearch rs)
          ])
      by_names none f = tt
      by_names (some rs) f =
          let (valid, count) = named_resources-IsValid outer ds rs good f in
          let (a, got, is_assigned) =
            assign_and_validate_ids-IsAssigned sys.qsort sys.bsearch rs lib
              (omega (arith, few, count)) in
          subst (λ o. Promises outer.is_regular (after_ids module_name o)) (sym got)
            (ids-Promises outer.is_regular module_name rs a valid is_assigned)

  ended-Promises :
      (outer : Surroundings) (defs : Defaults) (module_name : Text) (items : List ℕ)
      → length items + 1 < 2 ^ 32
      → Promises outer.is_regular (ended sys module_name (parse_resources outer defs [] items))
  ended-Promises outer defs module_name items few =
      by_step (parse_resources outer defs [] items) refl
    where
      by_step :
          (m : Step (Option ParseError × List Draft))
          → parse_resources outer defs [] items ≡ m
          → Promises outer.is_regular (ended sys module_name m)
      by_step crashed f = tt
      by_step (went (some e, ds)) f = unfold finish_parse in tt
      by_step (went (none, ds)) f =
          let (good, count) = parse_resources-IsGood outer defs [] ds items tt f in
          finish-Promises outer module_name ds good (omega (arith, few, count))

  module _ (path : List ℕ) (doc : Document) where
    items-Promises :
        (root : Node) (found : Option (List ℕ))
        → AreFew found
        → Promises sys.is_regular (elim found [
          | none ↦ refuse (some root) resources_missing
          | some items ↦ ended sys (scalar_dup (map_get doc (some root) Keys.module_name)) (
              parse_resources
                (surroundings sys path doc)
                (defaults_of doc (map_get doc (some root) Keys.defaults))
                []
                items)
        ])
    items-Promises root none few = tt
    items-Promises root (some items) few = ended-Promises (surroundings sys path doc) _ _ items few

    root-Promises :
        (root : Node)
        → AreFew (items_of (map_get doc (some root) Keys.resources))
        → Promises sys.is_regular (parse_root sys path doc root)
    unfolding parse_root parse_body
    root-Promises root few = by_version (map_get doc (some root) Keys.version)
      where
        by_version :
            (o : Option Node)
            → Promises sys.is_regular (elim o [
              | none ↦ refuse (some root) version_missing
              | some v ↦
                  let body = parse_body sys path doc root in
                  if version_one (scalar_dup (some v))
                  then body
                  else refuse (some v) (version_unsupported (scalar_dup (some v)))
            ])
        by_version none = tt
        by_version (some v) =
            if-Promises sys.is_regular _ _ (version_one (scalar_dup (some v)))
              (items-Promises root (items_of (map_get doc (some root) Keys.resources)) few) tt

    document-Promises :
        ((root : Node)
          → doc.root ≡ some root
          → AreFew (items_of (map_get doc (some root) Keys.resources)))
        → Promises sys.is_regular (parse_document sys path doc)
    unfolding parse_document
    document-Promises few = by_root doc.root refl
      where
        by_content :
            (root : Node) (x : Content)
            → doc.root ≡ some root
            → Promises sys.is_regular (elim x [
              | mapping pairs ↦ parse_root sys path doc root
              | _ ↦ refuse none root_not_mapping
            ])
        by_content root (mapping pairs) e = root-Promises root (few root e)
        by_content root (scalar s) e = tt
        by_content root (sequence items) e = tt

        by_root :
            (o : Option Node)
            → doc.root ≡ o
            → Promises sys.is_regular (elim o [
              | none ↦ refuse none root_not_mapping
              | some root ↦ elim root.content [
                | mapping pairs ↦ parse_root sys path doc root
                | _ ↦ refuse none root_not_mapping
              ]
            ])
        by_root none e = tt
        by_root (some root) e = by_content root root.content e

  -- If `qsort` and `bsearch` do what the C library documents, and `resources` has fewer than 2^32 - 1
  -- items, `elfrc_manifest_parse` ends. A manifest that it accepts has version 1;
  -- each of its resources names a regular file, is not compressed and has no key of its metadata
  -- twice; no two resources have the same id, or the same name and language.
  pub elfrc_manifest_parse-Promises :
      (path : List ℕ)
      → ((doc : Document)
          → sys.load path ≡ loaded doc
          → (root : Node) → doc.root ≡ some root
          → AreFew (items_of (map_get doc (some root) Keys.resources)))
      → Promises sys.is_regular (elfrc_manifest_parse sys path)
  unfolding elfrc_manifest_parse
  elfrc_manifest_parse-Promises path few = by_load (sys.load path) refl
    where
      by_load :
          (l : Load)
          → sys.load path ≡ l
          → Promises sys.is_regular (elim l [
            | cannot_open reason ↦ refused (unopened reason)
            | no_parser ↦ refused uninitialized
            | malformed line problem ↦ refused (yaml_error line problem)
            | loaded doc ↦ parse_document sys path doc
          ])
      by_load (cannot_open reason) f = tt
      by_load no_parser f = tt
      by_load (malformed line problem) f = tt
      by_load (loaded doc) f = document-Promises path doc (few doc f)
