-- ===== src/Command/Elfrc/Tests.antt =====
-- A command line with options on both sides of the manifest.
use elfrc.Elf.Sample.{elf_h}
use elfrc.Container.Build.{elfrc_container_build}
use elfrc.Container.Sections.{Files, Loaded, loaded, failed}
use elfrc.Manifest.Parse.Sample.{sys}
use elfrc.Manifest.{Manifest}
use elfrc.Base.{ℕ, ◌≡◌, refl, List, [], ◌∷◌, none, some, true, false, Option, length, arith}
use elfrc.Elf.Object.{elf_object}
use elfrc.Command.Elfrc.{
  no_options, parsed, starts_with_dash, parse_arguments, derive_output_name, World,
}
use elfrc.Command.Elfrc.Parsing.{
  Item, output, symbol_prefix, manifest, spell, parse_arguments-spell,
}
use elfrc.Command.Elfrc.Names.{derive_output_name-suffix}

abbrev items : List Item
items =
    output (b'x' ∷ [])
    ∷ manifest (b'm' ∷ [])
    ∷ symbol_prefix (b'-' ∷ b'h' ∷ [])
    ∷ output (b'y' ∷ [])
    ∷ []

operand : starts_with_dash (b'm' ∷ []) ≡ false
unfolding starts_with_dash
operand = refl

parse_arguments-spell_example :
    parse_arguments no_options (spell items)
    ≡ parsed (record {
      manifest_path = some (b'm' ∷ []);
      output_path = some (b'y' ∷ []);
      symbol_prefix = some (b'-' ∷ b'h' ∷ []);
    })
parse_arguments-spell_example = parse_arguments-spell no_options items (operand, refl, tt)

-- `a.b/m.elfrc`
derive_output_name-suffix_example :
    (derive_output_name (b'a' ∷ b'.' ∷ b'b' ∷ b'/' ∷ b'm' ∷ b'.' ∷ b'e' ∷ [])
      ≡ b'm' ∷ b'.' ∷ b'o' ∷ [])
    × (derive_output_name (b'm' ∷ b'.' ∷ b'e' ∷ []) ≡ b'm' ∷ b'.' ∷ b'o' ∷ [])
derive_output_name-suffix_example =
    derive_output_name-suffix (b'a' ∷ b'.' ∷ b'b' ∷ []) (b'm' ∷ []) (b'e' ∷ [])
      ((λ e. omega arith), ((λ e. omega arith), ((λ e. omega arith), tt))) ((λ e. omega arith), tt)

abbrev files : Files
files path = some (record { told = some 3; delivered = 1 ∷ 2 ∷ 3 ∷ [] })

abbrev world : World
world = record {
  sys = sys;
  files = files;
  elf_h = elf_h;
  opens = λ path. true;
  takes = λ path bytes. length bytes;
}

abbrev one_resource : Manifest
one_resource = record {
  version = 1;
  module_name = none;
  resources =
      record {
        name = b'a' ∷ [];
        file = b'.' ∷ b'/' ∷ b'f' ∷ [];
        type = 0;
        language = 0;
        compression = 0;
        flags = 0;
        id_explicit = false;
        id = 0;
        final_id = 1;
        metadata = record { key = b'a' ∷ []; value = b'f' ∷ [] } ∷ [];
        line = 3;
      }
      ∷ [];
}

abbrev content_of : Option (Loaded (List ℕ)) → List ℕ
content_of none = []
content_of (some (failed e)) = []
content_of (some (loaded bytes)) = bytes

abbrev object : List ℕ
object = elf_object elf_h (content_of (elfrc_container_build files one_resource)) none
