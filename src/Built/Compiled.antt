-- ===== src/Built/Compiled.antt =====
-- main.c of elfrc as a whole: what is in the object that it writes.
use elfrc.Base.{ℕ, List, [], ◌∷◌, Option, none, some}
use elfrc.Manifest.{Manifest}
use elfrc.Command.Elfrc.{derive_output_name, or_given}
use elfrc.Command.Elfrc.Parsing.{Item, output, symbol_prefix, manifest}

abbrev or_later : Option (List ℕ) → Option (List ℕ) → Option (List ℕ)
or_later none before = before
or_later (some later) before = some later

-- The last `-o`, the last `--symbol-prefix`, and the manifests of a command line.
abbrev pub last_output : List Item → Option (List ℕ)
last_output [] = none
last_output (output path ∷ items) = or_later (last_output items) (some path)
last_output (symbol_prefix name ∷ items) = last_output items
last_output (manifest path ∷ items) = last_output items

abbrev pub last_prefix : List Item → Option (List ℕ)
last_prefix [] = none
last_prefix (output path ∷ items) = last_prefix items
last_prefix (symbol_prefix name ∷ items) = or_later (last_prefix items) (some name)
last_prefix (manifest path ∷ items) = last_prefix items

abbrev pub manifests : List Item → List (List ℕ)
manifests [] = []
manifests (output path ∷ items) = manifests items
manifests (symbol_prefix name ∷ items) = manifests items
manifests (manifest path ∷ items) = path ∷ manifests items

-- The output's name, and the prefix of the symbols.
abbrev pub output_of : List Item → List ℕ → List ℕ
output_of items path = or_given (last_output items) (derive_output_name path)

abbrev pub prefix_for : List Item → Manifest → Option (List ℕ)
prefix_for items m = or_later (last_prefix items) m.module_name
