-- ===== src/Manifest/Parse/Whole.antt =====
-- `elfrc_manifest_parse` of src/elfrc/manifest_yaml.c.
pub mod Loop
pub mod Valid
pub mod Promises
use elfrc.Base.{ℕ, List, [], ◌∷◌, ◌++◌, Option, none, some, Bool, ◌==◌, if◌then◌else◌, take}
use elfrc.Manifest.{Resource, Manifest}
use elfrc.Manifest.Ids.{
  IdError, duplicate_id, duplicate_resource, Assigned, assign_and_validate_ids,
}
use elfrc.Manifest.Uint.{parse_uint}
use elfrc.Manifest.Yaml.{
  Content, scalar, mapping, sequence, Node, Document, node_at, node_line, scalar_dup, map_get,
}
use elfrc.Manifest.Yaml.Keys
use elfrc.Manifest.Parse.{
  Text, Problem, root_not_mapping, version_missing, resources_missing, version_unsupported,
  id_problem, ParseError, set_error, Draft,
}
use elfrc.Manifest.Parse.Entry.{Surroundings, Defaults, Step, went, crashed, ◌>>=◌, parse_resource}

-- What opening and loading the file comes to: `strerror(errno)`, no parser, the line and the text of
-- a YAML error, or the document.
pub data Load : Type 0 where
  cannot_open : List ℕ → Load
  no_parser : Load
  malformed : ℕ → List ℕ → Load
  loaded : Document → Load

-- The system, libyaml and the C library, as far as the parser calls them.
pub record System : Type 0 where
  pub load : List ℕ → Load
  pub is_regular : List ℕ → Bool
  pub dirname : List ℕ → List ℕ
  pub qsort : List ℕ → List ℕ
  pub bsearch : ℕ → List ℕ → Bool

-- The message of a failure; the manifest is then empty.
pub data Refusal : Type 0 where
  unopened : List ℕ → Refusal
  uninitialized : Refusal
  yaml_error : ℕ → List ℕ → Refusal
  invalid : ParseError → Refusal

-- `nameless` is a manifest whose entries passed, with a name that is NULL: it is not followed into
-- the passes over the names. `endless` is a search for a free id that does not end.
pub data Parsed : Type 0 where
  accepted : Manifest → Parsed
  refused : Refusal → Parsed
  null_used nameless endless : Parsed

-- A default is replaced where the node has the key.
unfoldable pub default_text : Document → Option Node → List ℕ → List ℕ → Text
default_text doc node key old = elim (map_get doc node key) [
  | none ↦ some old
  | some n ↦ scalar_dup (some n)
]

-- A node that is missing or is no mapping has no key.
unfoldable pub defaults_of : Document → Option Node → Defaults
defaults_of doc node = record {
  language = default_text doc node Keys.language Keys.neutral;
  compression = default_text doc node Keys.compression Keys.none;
  encryption = default_text doc node Keys.encryption Keys.none;
}

abbrev pub push_draft : List Draft → Option Draft → List Draft
push_draft ds none = ds
push_draft ds (some d) = ds ++ (d ∷ [])

-- The loop over the items; it is left at the first error.
unfoldable pub parse_resources :
    Surroundings → Defaults → List Draft → List ℕ → Step (Option ParseError × List Draft)
parse_resources outer defs ds [] = went (none, ds)
parse_resources outer defs ds (item ∷ items) = do
  (error, d) ← parse_resource outer defs (node_at outer.doc item) none
  elim error [
    | some e ↦ went (some e, push_draft ds d)
    | none ↦ parse_resources outer defs (push_draft ds d) items
  ]

-- The resources with their names, if none of these is NULL.
unfoldable pub named_resources : List Draft → Option (List Resource)
named_resources [] = some []
named_resources (d ∷ ds) = elim d.name [
  | none ↦ none
  | some name ↦ elim (named_resources ds) [
    | none ↦ none
    | some rs ↦ some (record d.resource { name = name } ∷ rs)
  ]
]

-- The line of a message is that of the second resource.
abbrev pub id_error : IdError → ParseError
id_error (duplicate_id id) = record { line = 0; problem = id_problem (duplicate_id id) }
id_error (duplicate_resource r s) = record {
  line = s.line;
  problem = id_problem (duplicate_resource r s);
}

abbrev pub after_ids : Text → Option Assigned → Parsed
after_ids module_name none = endless
after_ids module_name (some a) = elim a.error [
  | some e ↦ refused (invalid (id_error e))
  | none ↦ accepted (record { version = 1; module_name = module_name; resources = a.resources })
]

-- Behind the loop over the resources.
unfoldable pub finish_parse : System → Text → Option ParseError × List Draft → Parsed
finish_parse sys module_name (some e, ds) = refused (invalid e)
finish_parse sys module_name (none, ds) = elim (named_resources ds) [
  | none ↦ nameless
  | some rs ↦ after_ids module_name (assign_and_validate_ids sys.qsort sys.bsearch rs)
]

abbrev pub ended : System → Text → Step (Option ParseError × List Draft) → Parsed
ended sys module_name crashed = null_used
ended sys module_name (went out) = finish_parse sys module_name out

-- `pathbuf` holds 4096 bytes with the zero byte.
abbrev pub surroundings : System → List ℕ → Document → Surroundings
surroundings sys path doc = record {
  doc = doc;
  is_regular = sys.is_regular;
  manifest_dir = sys.dirname (take 4095 path);
}

abbrev pub refuse : Option Node → Problem → Parsed
refuse n problem = refused (invalid (record { line = node_line n; problem = problem }))

-- The items of a sequence; a missing node has none.
abbrev pub items_in : Content → Option (List ℕ)
items_in (scalar s) = none
items_in (sequence items) = some items
items_in (mapping pairs) = none

abbrev pub items_of : Option Node → Option (List ℕ)
items_of none = none
items_of (some n) = items_in n.content

-- A module that is no scalar is NULL, as if it were missing.
unfoldable pub parse_body : System → List ℕ → Document → Node → Parsed
parse_body sys path doc root =
    let get = map_get doc (some root) in
    elim (items_of (get Keys.resources)) [
      | none ↦ refuse (some root) resources_missing
      | some items ↦ ended sys (scalar_dup (get Keys.module_name)) (
          parse_resources (surroundings sys path doc) (defaults_of doc (get Keys.defaults)) []
            items)
    ]

unfoldable pub version_one : Text → Bool
version_one text = elim (parse_uint text) [ none ↦ Bool.false | some v ↦ v == 1 ]

unfoldable pub parse_root : System → List ℕ → Document → Node → Parsed
parse_root sys path doc root = elim (map_get doc (some root) Keys.version) [
  | none ↦ refuse (some root) version_missing
  | some v ↦
      let body = parse_body sys path doc root in
      if version_one (scalar_dup (some v))
      then body
      else refuse (some v) (version_unsupported (scalar_dup (some v)))
]

-- The message for the root has no line.
unfoldable pub parse_document : System → List ℕ → Document → Parsed
parse_document sys path doc = elim doc.root [
  | none ↦ refuse none root_not_mapping
  | some root ↦ elim root.content [
    | mapping pairs ↦ parse_root sys path doc root
    | _ ↦ refuse none root_not_mapping
  ]
]

unfoldable pub elfrc_manifest_parse : System → List ℕ → Parsed
elfrc_manifest_parse sys path = elim (sys.load path) [
  | cannot_open reason ↦ refused (unopened reason)
  | no_parser ↦ refused uninitialized
  | malformed line problem ↦ refused (yaml_error line problem)
  | loaded doc ↦ parse_document sys path doc
]
