-- ===== src/Manifest/Yaml.antt =====
-- The YAML nodes that src/elfrc/manifest_yaml.c walks over, as far as it reads them, and its helpers
-- for that. The document that libyaml builds is a parameter.
pub mod Keys
use elfrc.Base.{
  ℕ, ◌+◌, List, [], ◌∷◌, Option, none, some, Bool, true, false, ◌&&◌, ◌||◌, ◌==◌, if◌then◌else◌,
  length,
}

-- The kinds of nodes, with a scalar's bytes and the ids of the nodes below it.
pub data Content : Type 0 where
  scalar : List ℕ → Content
  sequence : List ℕ → Content
  mapping : List (ℕ × ℕ) → Content

-- `start_mark.line` counts from 0.
pub record Node : Type 0 where
  pub start_line : ℕ
  pub content : Content

-- `yaml_document_get_node` and `yaml_document_get_root_node`; `none` is NULL.
pub record Document : Type 0 where
  pub get_node : ℕ → Option Node
  pub root : Option Node

unfoldable pub node_at : Document → ℕ → Option Node
node_at doc id = if id == 0 then none else doc.get_node id

unfoldable pub node_line : Option Node → ℕ
node_line none = 0
node_line (some n) = n.start_line + 1

-- `strndup` of the scalar's bytes stops at a zero byte.
unfoldable pub before_nul : List ℕ → List ℕ
before_nul [] = []
before_nul (b ∷ s) = let rest = before_nul s in if b == 0 then [] else b ∷ rest

-- `none` is the NULL for a missing node and for one that is no scalar.
unfoldable pub scalar_dup : Option Node → Option (List ℕ)
scalar_dup none = none
scalar_dup (some n) = elim n.content [ scalar s ↦ some (before_nul s) | _ ↦ none ]

-- `strncmp(value, key, length of value) == 0`, for a key without zero bytes.
unfoldable pub strncmp_eq : List ℕ → List ℕ → Bool
strncmp_eq [] key = true
strncmp_eq (b ∷ value) [] = b == 0
strncmp_eq (b ∷ value) (k ∷ key) = let rest = strncmp_eq value key in b == k && (b == 0 || rest)

-- The node is a scalar that spells the key.
unfoldable pub is_key : List ℕ → Option Node → Bool
is_key key none = false
is_key key (some n) = elim n.content [
  | scalar s ↦ strncmp_eq s key && (length key == length s)
  | _ ↦ false
]

-- The loop over the pairs: the value of the first one whose key fits.
unfoldable pub find_pair : Document → List ℕ → List (ℕ × ℕ) → Option Node
find_pair doc key [] = none
find_pair doc key ((k, v) ∷ pairs) =
    let rest = find_pair doc key pairs in if is_key key (node_at doc k) then node_at doc v else rest

unfoldable pub map_get : Document → Option Node → List ℕ → Option Node
map_get doc none key = none
map_get doc (some n) key = elim n.content [ mapping pairs ↦ find_pair doc key pairs | _ ↦ none ]
