-- ===== src/Manifest/Parse/Tests.antt =====
-- A manifest with one resource, which has metadata.
use elfrc.Manifest.Parse.Sample.{node, node_of, doc, sys}
use elfrc.Bytes.{bytes_eq}
use elfrc.Manifest.Names.{
  type_from_extension, last_dot, language_from_tag, strcasecmp_eq, tolower, compression_from_name,
  table_lookup,
}
use elfrc.Base.{◌≡◌, refl, arith, List, [], ◌∷◌, none, some, true, false, subst, ap, ◌∙◌}
use elfrc.Manifest.{MetadataKv, Resource}
use elfrc.Manifest.Ids.Sample.{library}
use elfrc.Manifest.Yaml.{
  mapping, Node, Document, node_at, before_nul, scalar_dup, map_get, find_pair, is_key, strncmp_eq,
  node_line,
}
use elfrc.Manifest.Yaml.Keys
use elfrc.Manifest.Parse.{
  ParseError, name_missing, Draft, fail, push_resource, parse_pairs, parse_metadata, has_key,
  parse_flags, set_error,
}
use elfrc.Manifest.Parse.Metadata.{HasDistinctKeys, parse_pairs-Spells, Spells}
use elfrc.Manifest.Parse.Entry.{
  Surroundings, Defaults, went, parse_fields, parse_resource, parse_entry, parse_file, resolve,
  parse_type, parse_id, parse_language, text_or, parse_compression, set_compression,
  parse_encryption, set_encryption,
}
use elfrc.Manifest.Parse.Entry.Sound.{IsGood, parse_resource-IsGood}
use elfrc.Manifest.Parse.Whole.{loaded, items_of, elfrc_manifest_parse}
use elfrc.Manifest.Parse.Whole.Promises.{AreFew, Promises, elfrc_manifest_parse-Promises}

few_here : AreFew (items_of (map_get doc (node_of 1) Keys.resources))
unfolding map_get find_pair is_key strncmp_eq node_at
few_here = omega arith

few :
    (d : Document)
    → loaded doc ≡ loaded d
    → (root : Node) → d.root ≡ some root
    → AreFew (items_of (map_get d (some root) Keys.resources))
few d e root f =
    let same : doc ≡ d = cc in
    let here : node 0 (mapping ((2, 3) ∷ (4, 5) ∷ [])) ≡ root =
      injective (ap (λ (x : Document). x.root) same ∙ f) in
    subst (λ x. AreFew (items_of (map_get x (some root) Keys.resources))) same
      (subst (λ r. AreFew (items_of (map_get doc (some r) Keys.resources))) here few_here)
  where
    injective : {x y : Node} → some x ≡ some y → x ≡ y
    injective e = cc

elfrc_manifest_parse-Promises_example :
    Promises (λ file. true) (elfrc_manifest_parse sys (b'm' ∷ []))
elfrc_manifest_parse-Promises_example = elfrc_manifest_parse-Promises sys library (b'm' ∷ []) few

abbrev outer : Surroundings
outer = record { doc = doc; is_regular = λ file. true; manifest_dir = b'.' ∷ [] }

abbrev defs : Defaults
defs = record {
  language = some Keys.neutral;
  compression = some Keys.none;
  encryption = some Keys.none;
}

-- The resource of node 6.
abbrev resource_6 : Resource
resource_6 = record {
  name = [];
  file = b'.' ∷ b'/' ∷ b'f' ∷ [];
  type = 0;
  language = 0;
  compression = 0;
  flags = 0;
  id_explicit = false;
  id = 0;
  final_id = 0;
  metadata = record { key = b'a' ∷ []; value = b'f' ∷ [] } ∷ [];
  line = 3;
}

abbrev draft_6 : Draft
draft_6 = record { error = none; name = some (b'a' ∷ []); resource = resource_6 }

runs : parse_resource outer defs (node_of 6) none ≡ went (none, some draft_6)
unfolding parse_resource parse_entry parse_file parse_fields map_get find_pair is_key strncmp_eq
    node_at resolve scalar_dup before_nul parse_type type_from_extension last_dot parse_id
    parse_language text_or language_from_tag strcasecmp_eq tolower bytes_eq parse_compression
    set_compression compression_from_name table_lookup parse_encryption set_encryption
    parse_metadata parse_pairs has_key parse_flags node_line
runs = refl

parse_resource-IsGood_example : (d : Draft) × (some draft_6 ≡ some d) × IsGood outer d
parse_resource-IsGood_example = parse_resource-IsGood outer defs (node_of 6) (some draft_6) runs

-- A resource with an error, and the rest of its fields.
abbrev failed_draft : Draft
failed_draft = fail (push_resource none) 3 name_missing

abbrev entry_6 : Node
entry_6 = node 2 (mapping ((7, 8) ∷ (9, 10) ∷ (11, 12) ∷ []))

abbrev missing_name : ParseError
missing_name = record { line = 3; problem = name_missing }

abbrev failed_after : Draft
failed_after = record failed_draft {
  resource = record failed_draft.resource {
    metadata = record { key = b'a' ∷ []; value = b'f' ∷ [] } ∷ [];
  };
}

runs_on : parse_fields outer defs entry_6 failed_draft ≡ went failed_after
unfolding parse_fields map_get find_pair is_key strncmp_eq node_at scalar_dup before_nul parse_type
    type_from_extension last_dot parse_id parse_language text_or language_from_tag strcasecmp_eq
    tolower bytes_eq parse_compression set_compression compression_from_name table_lookup
    parse_encryption set_encryption parse_metadata parse_pairs has_key parse_flags node_line
    set_error
runs_on = refl

is_missing_name : failed_draft.error ≡ some missing_name
unfolding set_error
is_missing_name = refl

no_text_12 : scalar_dup (node_of 12) ≡ none
unfolding scalar_dup
no_text_12 = refl

abbrev two_pairs : List MetadataKv
two_pairs =
    record { key = b'a' ∷ []; value = b'f' ∷ [] }
    ∷ record { key = b'f' ∷ []; value = b'a' ∷ [] }
    ∷ []

spelled : Spells doc ((8, 10) ∷ (10, 8) ∷ []) two_pairs
unfolding node_at scalar_dup before_nul
spelled = (refl, (refl, tt))

two_distinct : HasDistinctKeys two_pairs
unfolding has_key bytes_eq
two_distinct = (refl, (refl, tt))

parse_pairs-Spells_example :
    parse_pairs doc 6 (push_resource none) ((8, 10) ∷ (10, 8) ∷ []) ≡ record (push_resource none) {
      resource = record (push_resource none).resource { metadata = two_pairs };
    }
parse_pairs-Spells_example =
    parse_pairs-Spells doc 6 (push_resource none) ((8, 10) ∷ (10, 8) ∷ []) two_pairs spelled
      two_distinct
