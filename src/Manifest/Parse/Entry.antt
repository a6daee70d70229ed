-- ===== src/Manifest/Parse/Entry.antt =====
-- `parse_resource` of src/elfrc/manifest_yaml.c: one entry of `resources`.
pub mod Follows
pub mod Steps
pub mod Sound
pub mod Printable
pub mod Crash
use elfrc.Base.{
  ℕ, List, [], ◌∷◌, ◌++◌, Option, none, some, Bool, true, false, not, ◌&&◌, ◌==◌, if◌then◌else◌,
  length,
}
use elfrc.Format.Compression
use elfrc.Manifest.{Resource}
use elfrc.Manifest.Names.{
  strcasecmp_eq, type_from_name, type_from_extension, compression_from_name, language_from_tag,
}
use elfrc.Manifest.Uint.{parse_uint}
use elfrc.Manifest.Yaml.{Content, mapping, Node, Document, node_line, scalar_dup, map_get}
use elfrc.Manifest.Yaml.Keys
use elfrc.Manifest.Parse.{
  Text, Problem, name_missing, file_missing, entry_not_mapping, cannot_open_file, unknown_type,
  unknown_compression, unsupported_compression, unsupported_encryption, invalid_id, ParseError,
  set_error, Draft, fail, push_resource, parse_metadata, parse_flags,
}

-- What is outside of the parser: the document, `stat` with the test for a regular file, and
-- `ctx->manifest_dir`.
pub record Surroundings : Type 0 where
  pub doc : Document
  pub is_regular : List ℕ → Bool
  pub manifest_dir : List ℕ

-- The texts of the struct `defaults`.
pub record Defaults : Type 0 where
  pub language : Text
  pub compression : Text
  pub encryption : Text

-- A step that goes on, or uses a NULL pointer.
pub data Step {ℓ} (A : Type ℓ) : Type ℓ where
  went : A → Step A
  crashed : Step A

infixl 5 ◌>>=◌
abbrev pub ◌>>=◌ {ℓ κ} : {A : Type ℓ} {B : Type κ} → Step A → (A → Step B) → Step B
went a >>= f = f a
crashed >>= f = crashed

abbrev pub not_null {ℓ} : {A : Type ℓ} → Option A → Step A
not_null none = crashed
not_null (some a) = went a

-- `file_rel[0] == '/'`
unfoldable pub resolve : List ℕ → List ℕ → List ℕ
resolve dir [] = dir ++ (b'/' ∷ [])
resolve dir (b ∷ rel) = if b == b'/' then b ∷ rel else dir ++ (b'/' ∷ b ∷ rel)

abbrev pub with_type : Draft → ℕ → Draft
with_type d t = record d { resource = record d.resource { type = t } }

-- A known name of a type, or its number.
unfoldable pub type_of : List ℕ → Option ℕ
type_of s = elim (type_from_name s) [ some t ↦ some t | none ↦ parse_uint (some s) ]

abbrev pub set_type : Draft → ℕ → List ℕ → Draft
set_type d line s = elim (type_of s) [
  | some t ↦ with_type d t
  | none ↦ fail d line (unknown_type d.name s)
]

-- A field that is missing, or the node that is there.
unfoldable pub parse_type : Option Node → Draft → Step Draft
parse_type none d = went (with_type d (type_from_extension d.resource.file))
parse_type (some n) d = do
  s ← not_null (scalar_dup (some n))
  went (set_type d (node_line (some n)) s)

abbrev pub with_id : Draft → ℕ → Draft
with_id d id = record d { resource = record d.resource { id = id; id_explicit = true } }

-- An id that is no number leaves the zero that is there, and counts as explicit.
unfoldable pub parse_id : Option Node → Draft → Draft
parse_id none d = d
parse_id (some n) d =
    let text = scalar_dup (some n) in
    elim (parse_uint text) [
      | some id ↦ with_id d id
      | none ↦ with_id (fail d (node_line (some n)) (invalid_id d.name text)) d.resource.id
    ]

-- `n ? scalar_dup(n) : strdup(default)`; `strdup` must not be given NULL.
unfoldable pub text_or : Option Node → Text → Step Text
text_or (some n) default_text = went (scalar_dup (some n))
text_or none default_text = do s ← not_null default_text; went (some s)

-- `node_line(n ? n : rnode)`
abbrev pub line_or : Option Node → Node → ℕ
line_or (some n) entry = node_line (some n)
line_or none entry = node_line (some entry)

unfoldable pub parse_language : Option Node → Text → Draft → Step Draft
parse_language n default_text d = do
  s ← text_or n default_text
  went (record d { resource = record d.resource { language = language_from_tag s } })

unfoldable pub set_compression : ℕ → List ℕ → Draft → Draft
set_compression line s d = elim (compression_from_name s) [
  | none ↦ fail d line (unknown_compression d.name s)
  | some c ↦
      if not (c == Compression.none)
      then fail d line (unsupported_compression d.name s)
      else record d { resource = record d.resource { compression = c } }
]

unfoldable pub parse_compression : Option Node → Node → Text → Draft → Step Draft
parse_compression n entry default_text d = do
  text ← text_or n default_text
  s ← not_null text
  went (set_compression (line_or n entry) s d)

unfoldable pub set_encryption : ℕ → List ℕ → Draft → Draft
set_encryption line s d =
    if not (strcasecmp_eq s Keys.none) && not (length s == 0)
    then fail d line (unsupported_encryption d.name s)
    else d

unfoldable pub parse_encryption : Option Node → Node → Text → Draft → Step Draft
parse_encryption n entry default_text d = do
  text ← text_or n default_text
  s ← not_null text
  went (set_encryption (line_or n entry) s d)

module _ (outer : Surroundings) (defs : Defaults) (entry : Node) where
  -- The field of the entry with this key.
  abbrev pub get : List ℕ → Option Node
  get key = map_get outer.doc (some entry) key

  -- The fields behind `file`.
  unfoldable pub parse_fields : Draft → Step Draft
  parse_fields d = do
    d1 ← parse_type (get Keys.type) d
    d2 ← parse_language (get Keys.language) defs.language (parse_id (get Keys.id) d1)
    d3 ← parse_compression (get Keys.compression) entry defs.compression d2
    d4 ← parse_encryption (get Keys.encryption) entry defs.encryption d3
    went (parse_flags outer.doc (get Keys.flags) (parse_metadata outer.doc (get Keys.metadata) d4))

  -- `file_rel[0]` is read without a test for NULL.
  unfoldable pub parse_file : Node → Draft → Step Draft
  parse_file n d = do
    rel ← not_null (scalar_dup (some n))
    let file = resolve outer.manifest_dir rel
    let d1 = record d { resource = record d.resource { file = file } }
    let fields = parse_fields d1
    if outer.is_regular file
        then fields
        else went (fail d1 d.resource.line (cannot_open_file d.name file))

  -- From the pushed resource on, whose line is set.
  unfoldable pub parse_entry : Draft → Step Draft
  parse_entry d = elim (get Keys.name) [
    | none ↦ went (fail d d.resource.line name_missing)
    | some n ↦
        let d1 = record d { name = scalar_dup (some n) } in
        elim (get Keys.file) [
          | none ↦ went (fail d1 d.resource.line (file_missing d1.name))
          | some f ↦ parse_file f d1
        ]
  ]

-- The error, and the resource if one was pushed.
unfoldable pub parse_resource :
    Surroundings
    → Defaults
    → Option Node
    → Option ParseError
    → Step (Option ParseError × Option Draft)
parse_resource outer defs none error = crashed
parse_resource outer defs (some n) error = elim n.content [
  | mapping pairs ↦ do
    let pushed = push_resource error
    d ←
        parse_entry outer defs n
          (record pushed { resource = record pushed.resource { line = node_line (some n) } })
    went (d.error, some d)
  | _ ↦ went (set_error error (node_line (some n)) entry_not_mapping, none)
]
