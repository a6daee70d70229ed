-- ===== src/Command/Elfrc.antt =====
-- src/elfrc/main.c: the compiler's command line, and the passes that it runs.
pub mod Parsing
pub mod Names
pub mod Passes
pub mod Status
mod Tests
use elfrc.Base.{
  ℕ, ◌-◌, List, [], ◌∷◌, ◌++◌, Option, none, some, Bool, true, false, ◌||◌, ◌==◌, if◌then◌else◌,
  length, take, drop,
}
use elfrc.Bytes.{bytes_eq}
use elfrc.Manifest.{Manifest}
use elfrc.Manifest.Parse.Whole.{
  System, accepted, refused, null_used, nameless, endless, Parsed, elfrc_manifest_parse,
}
use elfrc.Container.Sections.{Files, Loaded, loaded, failed}
use elfrc.Container.Build.{elfrc_container_build}
use elfrc.Elf.{ElfH}
use elfrc.Elf.Object.{Output, cannot_open, short_write, complete, elfrc_write_elf_object}
use elfrc.Command.Text

-- `strrchr`: from the last `c` on.
unfoldable pub strrchr : ℕ → List ℕ → Option (List ℕ)
strrchr c [] = none
strrchr c (b ∷ s) = elim (strrchr c s) [
  | some t ↦ some t
  | none ↦ if b == c then some (b ∷ s) else none
]

unfoldable pub base_of : List ℕ → List ℕ
base_of path = elim (strrchr b'/' path) [ none ↦ path | some t ↦ drop 1 t ]

unfoldable pub stem_of : List ℕ → List ℕ
stem_of base = elim (strrchr b'.' base) [
  | none ↦ base
  | some dot ↦ take (length base - length dot) base
]

unfoldable pub derive_output_name : List ℕ → List ℕ
derive_output_name manifest_path = stem_of (base_of manifest_path) ++ (b'.' ∷ b'o' ∷ [])

-- The three pointers of `main`.
pub record Options : Type 0 where
  pub manifest_path : Option (List ℕ)
  pub output_path : Option (List ℕ)
  pub symbol_prefix : Option (List ℕ)

abbrev pub no_options : Options
no_options = record { manifest_path = none; output_path = none; symbol_prefix = none }

-- What the loop over the arguments comes to.
pub data Arguments : Type 0 where
  parsed : Options → Arguments
  help_wanted : Arguments
  unknown_option unexpected : List ℕ → Arguments

unfoldable pub starts_with_dash : List ℕ → Bool
starts_with_dash [] = false
starts_with_dash (b ∷ s) = b == b'-'

-- An argument that takes no other with it: what it stops the loop with, or the options behind it.
unfoldable pub single : Options → List ℕ → Arguments
single opts arg =
    if bytes_eq arg Text.short_help || bytes_eq arg Text.help
    then help_wanted
    else if starts_with_dash arg
    then unknown_option arg
    else elim opts.manifest_path [
      | none ↦ parsed (record opts { manifest_path = some arg })
      | some path ↦ unexpected arg
    ]

abbrev pub with_output : Options → List ℕ → Options
with_output opts path = record opts { output_path = some path }

abbrev pub with_prefix : Options → List ℕ → Options
with_prefix opts name = record opts { symbol_prefix = some name }

-- `-o` and `--symbol-prefix` as the last argument are options that are not known.
unfoldable pub parse_arguments : Options → List (List ℕ) → Arguments
parse_arguments opts [] = parsed opts
parse_arguments opts (arg ∷ []) = single opts arg
parse_arguments opts (arg ∷ next ∷ rest) =
    let with_path = parse_arguments (with_output opts next) rest in
    let with_name = parse_arguments (with_prefix opts next) rest in
    if bytes_eq arg Text.output
    then with_path
    else if bytes_eq arg Text.symbol_prefix
    then with_name
    else elim (single opts arg) [
      | parsed opts' ↦ parse_arguments opts' (next ∷ rest)
      | help_wanted ↦ help_wanted
      | unknown_option a ↦ unknown_option a
      | unexpected a ↦ unexpected a
    ]

-- What the program is run on: what the parser calls, the files that are embedded, the ELF header's
-- constants, and for each path whether it can be opened for writing and how much is written to it.
pub record World : Type 0 where
  pub sys : System
  pub files : Files
  pub elf_h : ElfH
  pub opens : List ℕ → Bool
  pub takes : List ℕ → List ℕ → ℕ

-- The exit code, and what became of the output file if one was asked for. `unending` is a loop that
-- does not end, `null_pointer` a use of a NULL pointer, and `unnamed` a manifest with a name that is
-- NULL, which is not followed.
pub data Run : Type 0 where
  exit : ℕ → Option (List ℕ × Output) → Run
  unending null_pointer unnamed : Run

abbrev pub or_given : Option (List ℕ) → List ℕ → List ℕ
or_given none s = s
or_given (some t) s = t

-- `symbol_prefix` of the command line, or else the manifest's module.
abbrev pub prefix_of : Options → Manifest → Option (List ℕ)
prefix_of opts m = elim opts.symbol_prefix [ none ↦ m.module_name | some name ↦ some name ]

-- `rc == 0 ? 0 : 1`
abbrev pub exit_code : Output → ℕ
exit_code cannot_open = 1
exit_code short_write = 1
exit_code (complete bytes) = 0

-- The passes behind the parser.
unfoldable pub write_output : World → Options → List ℕ → Manifest → List ℕ → Run
write_output w opts path m content =
    let output = or_given opts.output_path (derive_output_name path) in
    let written =
      elfrc_write_elf_object w.elf_h (w.opens output) (w.takes output) content (prefix_of opts m) in
    exit (exit_code written) (some (output, written))

unfoldable pub compile_manifest : World → Options → List ℕ → Manifest → Run
compile_manifest w opts path m = elim (elfrc_container_build w.files m) [
  | none ↦ unending
  | some (failed e) ↦ exit 1 none
  | some (loaded content) ↦ write_output w opts path m content
]

unfoldable pub run_passes : World → Options → List ℕ → Run
run_passes w opts path = elim (elfrc_manifest_parse w.sys path) [
  | accepted m ↦ compile_manifest w opts path m
  | refused r ↦ exit 1 none
  | null_used ↦ null_pointer
  | nameless ↦ unnamed
  | endless ↦ unending
]

-- `main`, for the arguments behind the program's name.
unfoldable pub main : World → List (List ℕ) → Run
main w args = elim (parse_arguments no_options args) [
  | help_wanted ↦ exit 0 none
  | unknown_option a ↦ exit 1 none
  | unexpected a ↦ exit 1 none
  | parsed opts ↦ elim opts.manifest_path [
    | none ↦ exit 1 none
    | some path ↦ run_passes w opts path
  ]
]
