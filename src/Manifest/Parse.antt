-- ===== src/Manifest/Parse.antt =====
-- src/elfrc/manifest_yaml.c: the walk over the document, up to one resource of the manifest.
-- Texts of messages are values that name what goes into them; `none` is a NULL pointer, and
-- `crashed` a use of one that the code does not test.
pub mod Entry
pub mod Whole
pub mod Metadata
pub mod Sample
mod Tests
use elfrc.Base.{
  ℕ, ◌+◌, List, [], ◌∷◌, ◌++◌, Option, none, some, Bool, ◌==◌, ◌||◌, if◌then◌else◌, bit_or,
}
use elfrc.Bytes.{bytes_eq}
use elfrc.Manifest.{MetadataKv, Resource}
use elfrc.Manifest.Ids.{IdError}
use elfrc.Manifest.Names.{flag_from_name}
use elfrc.Manifest.Uint.{parse_uint}
use elfrc.Manifest.Yaml.{
  Content, scalar, sequence, mapping, Node, Document, node_at, node_line, scalar_dup,
}

abbrev pub Text : Type 0
Text = Option (List ℕ)

-- The messages of the parser, with their arguments: first the resource's name where one is given.
pub data Problem : Type 0 where
  root_not_mapping version_missing resources_missing entry_not_mapping name_missing : Problem
  version_unsupported : Text → Problem
  file_missing metadata_not_mapping metadata_not_scalars flags_not_list : Text → Problem
  cannot_open_file : Text → List ℕ → Problem
  unknown_type unknown_compression unsupported_compression : Text → List ℕ → Problem
  unsupported_encryption duplicate_key : Text → List ℕ → Problem
  invalid_id invalid_flags unknown_flag : Text → Text → Problem
  id_problem : IdError → Problem

-- The line is 0 where the message has none.
pub record ParseError : Type 0 where
  pub line : ℕ
  pub problem : Problem

-- `ctx->failed` and the message: the first error is kept.
unfoldable pub set_error : Option ParseError → ℕ → Problem → Option ParseError
set_error none line problem = some (record { line = line; problem = problem })
set_error (some e) line problem = some e

-- `ctx`, and the resource that is parsed. Its name is kept apart, since it can be NULL.
pub record Draft : Type 0 where
  pub error : Option ParseError
  pub name : Text
  pub resource : Resource

abbrev pub fail : Draft → ℕ → Problem → Draft
fail d line problem = record d { error = set_error d.error line problem }

-- `memset(r, 0, sizeof(*r))` of `push_resource`.
abbrev pub zero_resource : Resource
zero_resource = record {
  name = [];
  file = [];
  type = 0;
  language = 0;
  compression = 0;
  flags = 0;
  id_explicit = Bool.false;
  id = 0;
  final_id = 0;
  metadata = [];
  line = 0;
}

abbrev pub push_resource : Option ParseError → Draft
push_resource error = record { error = error; name = none; resource = zero_resource }

-- The loop over `r->metadata`.
unfoldable pub has_key : List ℕ → List MetadataKv → Bool
has_key key [] = Bool.false
has_key key (m ∷ ms) = bytes_eq m.key key || has_key key ms

-- `!key || !val`
abbrev pub pair_of : Text → Text → Option MetadataKv
pair_of none value = none
pair_of (some key) none = none
pair_of (some key) (some value) = some (record { key = key; value = value })

abbrev pub push_metadata : Draft → MetadataKv → Draft
push_metadata d m = record d {
  resource = record d.resource { metadata = d.resource.metadata ++ (m ∷ []) };
}

-- The loop over the pairs of `metadata`; `line` is the mapping's.
unfoldable pub parse_pairs : Document → ℕ → Draft → List (ℕ × ℕ) → Draft
parse_pairs doc line d [] = d
parse_pairs doc line d ((k, v) ∷ pairs) =
    elim (pair_of (scalar_dup (node_at doc k)) (scalar_dup (node_at doc v))) [
      | none ↦ fail d line (metadata_not_scalars d.name)
      | some m ↦
          let rest = parse_pairs doc line (push_metadata d m) pairs in
          if has_key m.key d.resource.metadata
          then fail d line (duplicate_key d.name m.key)
          else rest
    ]

unfoldable pub parse_metadata : Document → Option Node → Draft → Draft
parse_metadata doc none d = d
parse_metadata doc (some n) d = elim n.content [
  | mapping pairs ↦ parse_pairs doc (node_line (some n)) d pairs
  | _ ↦ fail d (node_line (some n)) (metadata_not_mapping d.name)
]

abbrev pub with_flags : Draft → ℕ → Draft
with_flags d flags = record d { resource = record d.resource { flags = flags } }

abbrev pub flag_of : Text → Option ℕ
flag_of none = none
flag_of (some name) = flag_from_name name

-- The loop over the names of flags; `line` is the sequence's.
unfoldable pub parse_flag_names : Document → ℕ → Draft → List ℕ → Draft
parse_flag_names doc line d [] = d
parse_flag_names doc line d (item ∷ items) =
    let name = scalar_dup (node_at doc item) in
    elim (flag_of name) [
      | none ↦ fail d line (unknown_flag d.name name)
      | some bit ↦ parse_flag_names doc line (with_flags d (bit_or d.resource.flags bit)) items
    ]

unfoldable pub parse_flags : Document → Option Node → Draft → Draft
parse_flags doc none d = d
parse_flags doc (some n) d =
    let line = node_line (some n) in
    elim n.content [
      | scalar s ↦
          let text = scalar_dup (some n) in
          elim (parse_uint text) [
            | some v ↦ with_flags d v
            | none ↦ fail d line (invalid_flags d.name text)
          ]
      | sequence items ↦ parse_flag_names doc line d items
      | mapping pairs ↦ fail d line (flags_not_list d.name)
    ]
