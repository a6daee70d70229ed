-- ===== src/Manifest/Parse/Entry/Printable.antt =====
-- The parts of `parse_resource` give no NULL pointer to the text of a message.
use elfrc.Base.{
  ℕ, ◌≡◌, ◌≢◌, refl, List, [], ◌∷◌, Option, none, some, Bool, true, false, not, ◌&&◌, ◌==◌, bit_or,
  if◌then◌else◌, length,
}
use elfrc.Format.Compression
use elfrc.Manifest.{MetadataKv}
use elfrc.Manifest.Names.{compression_from_name, strcasecmp_eq}
use elfrc.Manifest.Uint.{parse_uint}
use elfrc.Manifest.Yaml.{
  Content, scalar, sequence, mapping, Node, Document, node_at, node_line, scalar_dup,
}
use elfrc.Manifest.Yaml.Keys
use elfrc.Manifest.Parse.{
  Text, Problem, root_not_mapping, version_missing, resources_missing, entry_not_mapping,
  name_missing, version_unsupported, file_missing, metadata_not_mapping, metadata_not_scalars,
  flags_not_list, cannot_open_file, unknown_type, unknown_compression, unsupported_compression,
  unsupported_encryption, duplicate_key, invalid_id, invalid_flags, unknown_flag, id_problem,
  ParseError, set_error, Draft, fail, has_key, pair_of, push_metadata, parse_pairs, parse_metadata,
  with_flags, flag_of, parse_flag_names, parse_flags,
}
use elfrc.Manifest.Parse.Entry.{
  Step, went, crashed, ◌>>=◌, not_null, with_type, type_of, set_type, with_id, parse_id, text_or,
  parse_type, set_compression, set_encryption,
}

-- The node is missing, or a scalar.
abbrev pub IsText : Option Node → Type 0
IsText none = Unit {0}
IsText (some n) = scalar_dup (some n) ≢ none

-- No argument of the message is NULL; the name of an unknown flag is replaced by `?` if it is.
abbrev pub IsPrintableProblem : Problem → Type 0
IsPrintableProblem root_not_mapping = Unit {0}
IsPrintableProblem version_missing = Unit {0}
IsPrintableProblem resources_missing = Unit {0}
IsPrintableProblem entry_not_mapping = Unit {0}
IsPrintableProblem name_missing = Unit {0}
IsPrintableProblem (version_unsupported t) = t ≢ none
IsPrintableProblem (file_missing n) = n ≢ none
IsPrintableProblem (metadata_not_mapping n) = n ≢ none
IsPrintableProblem (metadata_not_scalars n) = n ≢ none
IsPrintableProblem (flags_not_list n) = n ≢ none
IsPrintableProblem (cannot_open_file n s) = n ≢ none
IsPrintableProblem (unknown_type n s) = n ≢ none
IsPrintableProblem (unknown_compression n s) = n ≢ none
IsPrintableProblem (unsupported_compression n s) = n ≢ none
IsPrintableProblem (unsupported_encryption n s) = n ≢ none
IsPrintableProblem (duplicate_key n s) = n ≢ none
IsPrintableProblem (invalid_id n t) = (n ≢ none) × (t ≢ none)
IsPrintableProblem (invalid_flags n t) = (n ≢ none) × (t ≢ none)
IsPrintableProblem (unknown_flag n t) = n ≢ none
IsPrintableProblem (id_problem e) = Unit {0}

abbrev pub IsPrintable : Option ParseError → Type 0
IsPrintable none = Unit {0}
IsPrintable (some e) = IsPrintableProblem e.problem

-- A step that goes on, with a result of this kind.
abbrev pub Goes : {A : Type 0} → (A → Type 0) → Step A → Type 0
Goes P (went a) = P a
Goes P crashed = ⊥

-- A draft with a name, and an error that can be printed.
abbrev pub IsSafe : Draft → Type 0
IsSafe d = IsPrintable d.error × (d.name ≢ none)

pub >>=-Goes :
    {A B : Type 0} (P : A → Type 0) (Q : B → Type 0) (m : Step A) (f : A → Step B)
    → Goes P m
    → ((a : A) → P a → Goes Q (f a))
    → Goes Q (m >>= f)
>>=-Goes P Q (went a) f p q = q a p
>>=-Goes P Q crashed f p q = absurd p

pub set_error-IsPrintable :
    (o : Option ParseError) (line : ℕ) (problem : Problem)
    → IsPrintable o
    → IsPrintableProblem problem
    → IsPrintable (set_error o line problem)
unfolding set_error
set_error-IsPrintable none line problem p q = q
set_error-IsPrintable (some e) line problem p q = p

pub fail-IsSafe :
    (d : Draft) (line : ℕ) (problem : Problem)
    → IsSafe d
    → IsPrintableProblem problem
    → IsSafe (fail d line problem)
fail-IsSafe d line problem (p, named) q = (set_error-IsPrintable d.error line problem p q, named)

abbrev pub IsAny : List ℕ → Type 0
IsAny s = Unit {0}

abbrev pub AnyText : Text → Type 0
AnyText t = Unit {0}

abbrev pub IsGiven : Text → Type 0
IsGiven t = t ≢ none

pub not_null-Goes : (o : Text) → o ≢ none → Goes IsAny (not_null o)
not_null-Goes none p = p refl
not_null-Goes (some s) p = tt

pub text_or-IsGiven :
    (n : Option Node) (t : Text) → IsText n → t ≢ none → Goes IsGiven (text_or n t)
unfolding text_or
text_or-IsGiven (some n) t p q = p
text_or-IsGiven none none p q = q refl
text_or-IsGiven none (some s) p q = λ e. cc

pub text_or-AnyText : (n : Option Node) (t : Text) → t ≢ none → Goes AnyText (text_or n t)
unfolding text_or
text_or-AnyText (some n) t q = tt
text_or-AnyText none none q = q refl
text_or-AnyText none (some s) q = tt

set_type-IsSafe :
    (d : Draft) (line : ℕ) (s : List ℕ) (o : Option ℕ)
    → IsSafe d
    → IsSafe (elim o [ some t ↦ with_type d t | none ↦ fail d line (unknown_type d.name s) ])
set_type-IsSafe d line s none p = fail-IsSafe d line _ p p.1
set_type-IsSafe d line s (some t) p = p

pub parse_type-IsSafe :
    (n : Option Node) (d : Draft) → IsText n → IsSafe d → Goes IsSafe (parse_type n d)
unfolding parse_type
parse_type-IsSafe none d t p = p
parse_type-IsSafe (some n) d t p =
    >>=-Goes IsAny IsSafe (not_null (scalar_dup (some n)))
      (λ s. went (set_type d (node_line (some n)) s)) (not_null-Goes _ t)
      (λ s _. set_type-IsSafe d _ s (type_of s) p)

pub parse_id-IsSafe : (n : Option Node) (d : Draft) → IsText n → IsSafe d → IsSafe (parse_id n d)
unfolding parse_id
parse_id-IsSafe none d t p = p
parse_id-IsSafe (some n) d t p = by_number (parse_uint (scalar_dup (some n)))
  where
    by_number :
        (o : Option ℕ)
        → IsSafe (elim o [
          | some id ↦ with_id d id
          | none ↦
              with_id
                (fail d (node_line (some n)) (invalid_id d.name (scalar_dup (some n))))
                d.resource.id
        ])
    by_number (some id) = p
    by_number none =
        fail-IsSafe d (node_line (some n)) (invalid_id d.name (scalar_dup (some n))) p (p.1, t)

pub set_compression-IsSafe :
    (line : ℕ) (s : List ℕ) (d : Draft) → IsSafe d → IsSafe (set_compression line s d)
unfolding set_compression
set_compression-IsSafe line s d p = by_number (compression_from_name s)
  where
    by_known :
        (c : ℕ) (b : Bool)
        → IsSafe (
            if b
            then fail d line (unsupported_compression d.name s)
            else record d { resource = record d.resource { compression = c } })
    by_known c true = fail-IsSafe d line (unsupported_compression d.name s) p p.1
    by_known c false = p

    by_number :
        (o : Option ℕ)
        → IsSafe (elim o [
          | none ↦ fail d line (unknown_compression d.name s)
          | some c ↦
              if not (c == Compression.none)
              then fail d line (unsupported_compression d.name s)
              else record d { resource = record d.resource { compression = c } }
        ])
    by_number none = fail-IsSafe d line (unknown_compression d.name s) p p.1
    by_number (some c) = by_known c (not (c == Compression.none))

pub set_encryption-IsSafe :
    (line : ℕ) (s : List ℕ) (d : Draft) → IsSafe d → IsSafe (set_encryption line s d)
unfolding set_encryption
set_encryption-IsSafe line s d p = by_test (not (strcasecmp_eq s Keys.none) && not (length s == 0))
  where
    by_test : (b : Bool) → IsSafe (if b then fail d line (unsupported_encryption d.name s) else d)
    by_test true = fail-IsSafe d line (unsupported_encryption d.name s) p p.1
    by_test false = p

parse_pairs-IsSafe :
    (doc : Document) (line : ℕ) (d : Draft) (pairs : List (ℕ × ℕ))
    → IsSafe d
    → IsSafe (parse_pairs doc line d pairs)
unfolding parse_pairs
parse_pairs-IsSafe doc line d [] p = p
parse_pairs-IsSafe doc line d ((k, v) ∷ pairs) p =
    by_pair (λ m. parse_pairs-IsSafe doc line (push_metadata d m) pairs p)
      (pair_of (scalar_dup (node_at doc k)) (scalar_dup (node_at doc v)))
  where
    by_test :
        (m : MetadataKv) (b : Bool)
        → IsSafe (parse_pairs doc line (push_metadata d m) pairs)
        → IsSafe (
            if b
            then fail d line (duplicate_key d.name m.key)
            else parse_pairs doc line (push_metadata d m) pairs)
    by_test m true rest = fail-IsSafe d line (duplicate_key d.name m.key) p p.1
    by_test m false rest = rest

    by_pair :
        ((m : MetadataKv) → IsSafe (parse_pairs doc line (push_metadata d m) pairs))
        → (o : Option MetadataKv)
        → IsSafe (elim o [
          | none ↦ fail d line (metadata_not_scalars d.name)
          | some m ↦
              let rest = parse_pairs doc line (push_metadata d m) pairs in
              if has_key m.key d.resource.metadata
              then fail d line (duplicate_key d.name m.key)
              else rest
        ])
    by_pair rest none = fail-IsSafe d line (metadata_not_scalars d.name) p p.1
    by_pair rest (some m) = by_test m (has_key m.key d.resource.metadata) (rest m)

pub parse_metadata-IsSafe :
    (doc : Document) (n : Option Node) (d : Draft) → IsSafe d → IsSafe (parse_metadata doc n d)
unfolding parse_metadata
parse_metadata-IsSafe doc none d p = p
parse_metadata-IsSafe doc (some n) d p = by_content n.content
  where
    by_content :
        (x : Content)
        → IsSafe (elim x [
          | mapping pairs ↦ parse_pairs doc (node_line (some n)) d pairs
          | _ ↦ fail d (node_line (some n)) (metadata_not_mapping d.name)
        ])
    by_content (mapping pairs) = parse_pairs-IsSafe doc (node_line (some n)) d pairs p
    by_content (scalar s) = fail-IsSafe d (node_line (some n)) (metadata_not_mapping d.name) p p.1
    by_content (sequence items) =
        fail-IsSafe d (node_line (some n)) (metadata_not_mapping d.name) p p.1

parse_flag_names-IsSafe :
    (doc : Document) (line : ℕ) (d : Draft) (items : List ℕ)
    → IsSafe d
    → IsSafe (parse_flag_names doc line d items)
unfolding parse_flag_names
parse_flag_names-IsSafe doc line d [] p = p
parse_flag_names-IsSafe doc line d (item ∷ items) p =
    by_flag
      (λ bit. parse_flag_names-IsSafe doc line (with_flags d (bit_or d.resource.flags bit)) items p)
      (flag_of (scalar_dup (node_at doc item)))
  where
    by_flag :
        ((bit : ℕ)
          → IsSafe (parse_flag_names doc line (with_flags d (bit_or d.resource.flags bit)) items))
        → (o : Option ℕ)
        → IsSafe (elim o [
          | none ↦ fail d line (unknown_flag d.name (scalar_dup (node_at doc item)))
          | some bit ↦ parse_flag_names doc line (with_flags d (bit_or d.resource.flags bit)) items
        ])
    by_flag rest none =
        fail-IsSafe d line (unknown_flag d.name (scalar_dup (node_at doc item))) p p.1
    by_flag rest (some bit) = rest bit

scalar-IsText : (n : Node) (s : List ℕ) → n.content ≡ scalar s → scalar_dup (some n) ≢ none
unfolding scalar_dup
scalar-IsText n s e f = let g = rw e at f in cc

pub parse_flags-IsSafe :
    (doc : Document) (n : Option Node) (d : Draft) → IsSafe d → IsSafe (parse_flags doc n d)
unfolding parse_flags
parse_flags-IsSafe doc none d p = p
parse_flags-IsSafe doc (some n) d p = by_content n.content refl
  where
    by_number :
        (o : Option ℕ)
        → scalar_dup (some n) ≢ none
        → IsSafe (elim o [
          | some v ↦ with_flags d v
          | none ↦ fail d (node_line (some n)) (invalid_flags d.name (scalar_dup (some n)))
        ])
    by_number (some v) t = p
    by_number none t =
        fail-IsSafe d (node_line (some n)) (invalid_flags d.name (scalar_dup (some n))) p (p.1, t)

    by_content :
        (x : Content)
        → n.content ≡ x
        → IsSafe (elim x [
          | scalar s ↦ elim (parse_uint (scalar_dup (some n))) [
            | some v ↦ with_flags d v
            | none ↦ fail d (node_line (some n)) (invalid_flags d.name (scalar_dup (some n)))
          ]
          | sequence items ↦ parse_flag_names doc (node_line (some n)) d items
          | mapping pairs ↦ fail d (node_line (some n)) (flags_not_list d.name)
        ])
    by_content (scalar s) e = by_number (parse_uint (scalar_dup (some n))) (scalar-IsText n s e)
    by_content (sequence items) e = parse_flag_names-IsSafe doc (node_line (some n)) d items p
    by_content (mapping pairs) e = fail-IsSafe d (node_line (some n)) (flags_not_list d.name) p p.1
