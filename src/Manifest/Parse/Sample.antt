-- ===== src/Manifest/Parse/Sample.antt =====
-- A small document, and the system that loads it.
use elfrc.Base.{ℕ, zero, suc, List, [], ◌∷◌, Option, none, get_elem?, true}
use elfrc.Manifest.Ids.Sample.{sort, member}
use elfrc.Manifest.Yaml.{Content, scalar, sequence, mapping, Node, Document}
use elfrc.Manifest.Yaml.Keys
use elfrc.Manifest.Parse.Whole.{loaded, System}

abbrev pub node : ℕ → Content → Node
node line content = record { start_line = line; content = content }

-- Node 6 is the resource.
abbrev pub nodes : List Node
nodes =
    node 0 (mapping ((2, 3) ∷ (4, 5) ∷ []))
    ∷ node 0 (scalar Keys.version)
    ∷ node 0 (scalar (b'1' ∷ []))
    ∷ node 1 (scalar Keys.resources)
    ∷ node 2 (sequence (6 ∷ []))
    ∷ node 2 (mapping ((7, 8) ∷ (9, 10) ∷ (11, 12) ∷ []))
    ∷ node 2 (scalar Keys.name)
    ∷ node 2 (scalar (b'a' ∷ []))
    ∷ node 3 (scalar Keys.file)
    ∷ node 3 (scalar (b'f' ∷ []))
    ∷ node 4 (scalar Keys.metadata)
    ∷ node 5 (mapping ((8, 10) ∷ []))
    ∷ []

abbrev pub node_of : ℕ → Option Node
node_of zero = none
node_of (suc i) = get_elem? nodes i

abbrev pub doc : Document
doc = record { get_node = node_of; root = node_of 1 }

abbrev pub sys : System
sys = record {
  load = λ path. loaded doc;
  is_regular = λ file. true;
  dirname = λ path. b'.' ∷ [];
  qsort = sort;
  bsearch = member;
}
