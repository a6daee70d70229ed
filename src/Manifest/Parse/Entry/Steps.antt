-- ===== src/Manifest/Parse/Entry/Steps.antt =====
-- Each step of `parse_resource` keeps the first error, the name, and what holds of every resource.
use elfrc.Base.{
  ℕ, ◌≡◌, refl, arith, List, [], ◌∷◌, Option, none, some, Bool, false, not, ◌&&◌, ◌==◌, ==_iff,
  bit_or, length, if◌then◌else◌,
}
use elfrc.Manifest.{MetadataKv}
use elfrc.Manifest.Uint.{parse_uint}
use elfrc.Manifest.Names.{strcasecmp_eq, type_from_extension, compression_from_name}
use elfrc.Manifest.Yaml.{Node, Document, node_at, node_line, scalar_dup}
use elfrc.Manifest.Yaml.Keys
use elfrc.Manifest.Parse.{
  Text, invalid_id, unknown_type, unsupported_compression, ParseError, Draft, fail, has_key,
  pair_of, push_metadata, parse_pairs, parse_metadata, flag_of, with_flags, parse_flag_names,
  parse_flags,
}
use elfrc.Manifest.Parse.Metadata.{HasDistinctKeys-append}
use elfrc.Manifest.Parse.Entry.{
  Surroundings, Defaults, not_null, with_type, type_of, set_type, parse_type, with_id, parse_id,
  text_or, line_or, parse_language, set_compression, parse_compression, set_encryption,
  parse_encryption, went, get, parse_fields,
}
use elfrc.Manifest.Parse.Entry.Follows.{
  Follows, Follows-refl, Follows-trans, fail-Follows, with_fields-Follows, option-Follows,
  content-Follows, if-Follows, Goes, went-Goes, >>=-Goes, reads-Goes,
}

module _ (is_regular : List ℕ → Bool) where
  set_type-Follows : (d : Draft) (line : ℕ) (s : List ℕ) → Follows is_regular d (set_type d line s)
  set_type-Follows d line s =
      option-Follows is_regular d (fail d line (unknown_type d.name s)) (with_type d) (type_of s)
        (fail-Follows is_regular d line (unknown_type d.name s))
        (λ t. with_fields-Follows is_regular d (with_type d t) refl refl refl refl refl)

  parse_type-Goes : (n : Option Node) (d : Draft) → Goes is_regular d (parse_type n d)
  unfolding parse_type
  parse_type-Goes none d =
      let guessed = with_type d (type_from_extension d.resource.file) in
      went-Goes is_regular d guessed
        (with_fields-Follows is_regular d guessed refl refl refl refl refl)
  parse_type-Goes (some n) d =
      reads-Goes is_regular d (not_null (scalar_dup (some n))) _
        (λ s. went-Goes is_regular d _ (set_type-Follows d (node_line (some n)) s))

  parse_id-Follows : (n : Option Node) (d : Draft) → Follows is_regular d (parse_id n d)
  unfolding parse_id
  parse_id-Follows none d = Follows-refl is_regular d
  parse_id-Follows (some n) d =
      let text = scalar_dup (some n) in
      let failed = fail d (node_line (some n)) (invalid_id d.name text) in
      option-Follows is_regular d (with_id failed d.resource.id) (with_id d) (parse_uint text)
        (Follows-trans is_regular (fail-Follows is_regular d _ _)
          (with_fields-Follows is_regular failed _ refl refl refl refl refl))
        (λ id. with_fields-Follows is_regular d (with_id d id) refl refl refl refl refl)

  parse_language-Goes :
      (n : Option Node) (default_text : Text) (d : Draft)
      → Goes is_regular d (parse_language n default_text d)
  unfolding parse_language
  parse_language-Goes n default_text d =
      reads-Goes is_regular d (text_or n default_text) _ (λ s.
        went-Goes is_regular d _ (with_fields-Follows is_regular d _ refl refl refl refl refl))

  -- Only the value 0 is ever stored.
  none_compressed :
      (d : Draft) (line c : ℕ) (s : List ℕ)
      → Follows is_regular d (
          if not (c == 0)
          then fail d line (unsupported_compression d.name s)
          else record d { resource = record d.resource { compression = c } })
  none_compressed d line c s =
      if-Follows is_regular d _ _ (not (c == 0)) (fail-Follows is_regular d _ _) (λ e. record {
        kept = λ x f. f;
        same_name = refl;
        sound = λ h. record {
          uncompressed = (==_iff c 0).0 (ground (arith, e));
          distinct = h.distinct;
          regular = h.regular;
        };
      })

  parse_compression-Goes :
      (n : Option Node) (entry : Node) (default_text : Text) (d : Draft)
      → Goes is_regular d (parse_compression n entry default_text d)
  unfolding parse_compression set_compression
  parse_compression-Goes n entry default_text d =
      let line = line_or n entry in
      reads-Goes is_regular d (text_or n default_text) _ (λ text.
        reads-Goes is_regular d (not_null text) _ (λ s. went-Goes is_regular d _ (
          option-Follows is_regular d _ _ (compression_from_name s) (fail-Follows is_regular d _ _)
            (λ c. none_compressed d line c s))))

  parse_encryption-Goes :
      (n : Option Node) (entry : Node) (default_text : Text) (d : Draft)
      → Goes is_regular d (parse_encryption n entry default_text d)
  unfolding parse_encryption set_encryption
  parse_encryption-Goes n entry default_text d =
      reads-Goes is_regular d (text_or n default_text) _ (λ text.
        reads-Goes is_regular d (not_null text) _ (λ s. went-Goes is_regular d _ (
          if-Follows is_regular d _ _ (not (strcasecmp_eq s Keys.none) && not (length s == 0))
            (fail-Follows is_regular d _ _) (λ e. Follows-refl is_regular d))))

  push_metadata-Follows :
      (d : Draft) (m : MetadataKv)
      → has_key m.key d.resource.metadata ≡ false
      → Follows is_regular d (push_metadata d m)
  push_metadata-Follows d m new = record {
    kept = λ e f. f;
    same_name = refl;
    sound = λ h. record {
      uncompressed = h.uncompressed;
      distinct = HasDistinctKeys-append d.resource.metadata m h.distinct new;
      regular = h.regular;
    };
  }

  parse_pairs-Follows :
      (doc : Document) (line : ℕ) (d : Draft) (pairs : List (ℕ × ℕ))
      → Follows is_regular d (parse_pairs doc line d pairs)
  unfolding parse_pairs
  parse_pairs-Follows doc line d [] = Follows-refl is_regular d
  parse_pairs-Follows doc line d ((k, v) ∷ pairs) =
      option-Follows is_regular d _ _
        (pair_of (scalar_dup (node_at doc k)) (scalar_dup (node_at doc v)))
        (fail-Follows is_regular d _ _)
        (λ m.
          if-Follows is_regular d _ _ (has_key m.key d.resource.metadata)
            (fail-Follows is_regular d _ _)
            (λ new.
              Follows-trans is_regular (push_metadata-Follows d m new)
                (parse_pairs-Follows doc line (push_metadata d m) pairs)))

  pub parse_metadata-Follows :
      (doc : Document) (n : Option Node) (d : Draft) → Follows is_regular d (parse_metadata doc n d)
  unfolding parse_metadata
  parse_metadata-Follows doc none d = Follows-refl is_regular d
  parse_metadata-Follows doc (some n) d =
      content-Follows is_regular d _ _ _ n.content (λ s. fail-Follows is_regular d _ _)
        (λ items. fail-Follows is_regular d _ _)
        (λ pairs. parse_pairs-Follows doc (node_line (some n)) d pairs)

  with_flags-Follows : (d : Draft) (v : ℕ) → Follows is_regular d (with_flags d v)
  with_flags-Follows d v =
      with_fields-Follows is_regular d (with_flags d v) refl refl refl refl refl

  parse_flag_names-Follows :
      (doc : Document) (line : ℕ) (d : Draft) (items : List ℕ)
      → Follows is_regular d (parse_flag_names doc line d items)
  unfolding parse_flag_names
  parse_flag_names-Follows doc line d [] = Follows-refl is_regular d
  parse_flag_names-Follows doc line d (item ∷ items) =
      option-Follows is_regular d _ _ (flag_of (scalar_dup (node_at doc item)))
        (fail-Follows is_regular d _ _)
        (λ bit.
          let next = with_flags d (bit_or d.resource.flags bit) in
          Follows-trans is_regular (with_flags-Follows d (bit_or d.resource.flags bit))
            (parse_flag_names-Follows doc line next items))

  parse_flags-Follows :
      (doc : Document) (n : Option Node) (d : Draft) → Follows is_regular d (parse_flags doc n d)
  unfolding parse_flags
  parse_flags-Follows doc none d = Follows-refl is_regular d
  parse_flags-Follows doc (some n) d =
      content-Follows is_regular d _ _ _ n.content
        (λ s.
          option-Follows is_regular d _ _ (parse_uint (scalar_dup (some n)))
            (fail-Follows is_regular d _ _) (λ v. with_flags-Follows d v))
        (λ items. parse_flag_names-Follows doc (node_line (some n)) d items)
        (λ pairs. fail-Follows is_regular d _ _)

-- All the fields behind `file`, in the order of `parse_resource`.
pub parse_fields-Goes :
    (outer : Surroundings) (defs : Defaults) (entry : Node) (d d' : Draft)
    → parse_fields outer defs entry d ≡ went d'
    → Follows outer.is_regular d d'
unfolding parse_fields
parse_fields-Goes outer defs entry d d' e =
    let p = outer.is_regular in
    let field = get outer defs entry in
    >>=-Goes p d _ _ (parse_type-Goes p (field Keys.type) d)
      (λ d1.
        >>=-Goes p d1 _ _
          (λ x f.
            Follows-trans p (parse_id-Follows p (field Keys.id) d1)
              (parse_language-Goes p (field Keys.language) defs.language _ x f))
          (λ d2.
            >>=-Goes p d2 _ _
              (parse_compression-Goes p (field Keys.compression) entry defs.compression d2)
              (λ d3.
                >>=-Goes p d3 _ _
                  (parse_encryption-Goes p (field Keys.encryption) entry defs.encryption d3)
                  (λ d4. went-Goes p d4 _ (
                    Follows-trans p (parse_metadata-Follows p outer.doc (field Keys.metadata) d4)
                      (parse_flags-Follows p outer.doc (field Keys.flags) _))))))
      d' e

-- Once an error is set, the fields that follow do not replace it, whatever the document says.
parse_fields_keeps_error :
    (outer : Surroundings) (defs : Defaults) (entry : Node) (d d' : Draft) (e : ParseError)
    → d.error ≡ some e
    → parse_fields outer defs entry d ≡ went d'
    → d'.error ≡ some e
parse_fields_keeps_error outer defs entry d d' e first run =
    (parse_fields-Goes outer defs entry d d' run).kept e first
