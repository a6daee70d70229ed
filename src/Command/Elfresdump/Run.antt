-- ===== src/Command/Elfresdump/Run.antt =====
-- `main` of src/elfresdump/main.c.
use elfrc.Base.{
  ℕ, zero, suc, ◌+◌, List, [], ◌∷◌, Option, none, some, Bool, ◌||◌, ◌==◌, if◌then◌else◌, get_elem?,
}
use elfrc.Bytes.{bytes_eq, read, string_at}
use elfrc.Reader.Outcome.{Outcome, ok, err, fault}
use elfrc.Reader.Container.{Resource, Container}
use elfrc.Reader.Find.{erf_find_in, erf_resource_count, erf_resource_at}
use elfrc.Command.Text
use elfrc.Command.Elfresdump.{
  type_name, ElfView, not_opened, not_statable, not_mapped, usage_shown, output_missing,
  name_missing, not_written, unknown_argument, Look, seen, stopped, outside, ◌>>=◌, ◌>>◌, require,
  load, open_section,
}

-- One line of the list.
pub record Row : Type 0 where
  pub id : ℕ
  pub name : List ℕ
  pub type : List ℕ
  pub language : ℕ
  pub size : ℕ

abbrev pub row_of : Resource → List ℕ → Row
row_of r name = record {
  id = r.id;
  name = name;
  type = type_name r.type;
  language = r.language;
  size = r.size;
}

-- The loop over the resources from `i` on, with `left` rounds left. `printf` reads the name up to its
-- zero byte.
unfoldable pub list_resources : Container → ℕ → ℕ → Look (List Row)
list_resources c zero i = seen []
list_resources c (suc left) i = do
  r ← load (erf_resource_at (some c) i)
  name ← load (string_at c.base r.name)
  rows ← list_resources c left (i + 1)
  seen (row_of r name ∷ rows)

-- What ends with exit code 0.
pub data Report : Type 0 where
  helped : Report
  listed : List Row → Report
  extracted : List ℕ → List ℕ → Report

-- `open`, `fstat` and `mmap` of the file; a mapped file is its bytes.
pub data Mapped : Type 0 where
  unopened unstatable unmapped : Mapped
  mapped : List ℕ → Mapped

-- The files: those that are mapped, whether a path can be opened for writing, and how much is written.
pub record DumpWorld : Type 0 where
  pub view : ElfView
  pub map_file : List ℕ → Mapped
  pub opens : List ℕ → Bool
  pub takes : List ℕ → List ℕ → ℕ

abbrev pub found_or : Outcome ℕ → Look ℕ
found_or (ok i) = seen i
found_or (err e) = stopped name_missing
found_or fault = outside

-- `fopen`, and `fwrite` of the resource's bytes.
unfoldable pub write_data : DumpWorld → Container → Resource → List ℕ → Look Report
write_data w c r path = do
  require (w.opens path) not_written
  bytes ← load (read c.base r.bytes r.size)
  require (w.takes path bytes == r.size) not_written
  seen (extracted path bytes)

unfoldable pub extract_resource : DumpWorld → Container → List ℕ → List ℕ → Look Report
extract_resource w c name path = do
  i ← found_or (erf_find_in (some c) (some name))
  r ← load (get_elem? c.resources i)
  write_data w c r path

unfoldable pub list_container : Container → Look Report
list_container c = do rows ← list_resources c (erf_resource_count (some c)) 0; seen (listed rows)

pub record DumpOptions : Type 0 where
  pub extract_name : Option (List ℕ)
  pub output_path : Option (List ℕ)

abbrev pub no_dump_options : DumpOptions
no_dump_options = record { extract_name = none; output_path = none }

pub data DumpArguments : Type 0 where
  parsed : DumpOptions → DumpArguments
  help_wanted : DumpArguments
  unknown : List ℕ → DumpArguments

unfoldable pub lone : List ℕ → DumpArguments
lone arg =
    if bytes_eq arg Text.short_help || bytes_eq arg Text.help then help_wanted else unknown arg

abbrev pub with_name : DumpOptions → List ℕ → DumpOptions
with_name opts name = record opts { extract_name = some name }

abbrev pub with_path : DumpOptions → List ℕ → DumpOptions
with_path opts path = record opts { output_path = some path }

-- The loop over the arguments behind the file.
unfoldable pub dump_arguments : DumpOptions → List (List ℕ) → DumpArguments
dump_arguments opts [] = parsed opts
dump_arguments opts (arg ∷ []) = lone arg
dump_arguments opts (arg ∷ next ∷ rest) =
    let named = dump_arguments (with_name opts next) rest in
    let placed = dump_arguments (with_path opts next) rest in
    if bytes_eq arg Text.extract
    then named
    else if bytes_eq arg Text.output
    then placed
    else lone arg

abbrev pub bytes_of : Mapped → Look (List ℕ)
bytes_of unopened = stopped not_opened
bytes_of unstatable = stopped not_statable
bytes_of unmapped = stopped not_mapped
bytes_of (mapped bytes) = seen bytes

-- The container of a file.
unfoldable pub open_file : DumpWorld → List ℕ → Look Container
open_file w path = do mem ← bytes_of (w.map_file path); open_section w.view mem

-- With a name to extract there must be an output; without one it is not used.
unfoldable pub run_dump : DumpWorld → List ℕ → Option (List ℕ) → Option (List ℕ) → Look Report
run_dump w file none output = do c ← open_file w file; list_container c
run_dump w file (some name) none = stopped output_missing
run_dump w file (some name) (some output) = do
  c ← open_file w file
  extract_resource w c name output

-- The arguments behind the program's name.
unfoldable pub elfresdump : DumpWorld → List (List ℕ) → Look Report
elfresdump w [] = stopped usage_shown
elfresdump w (file ∷ args) = elim (dump_arguments no_dump_options args) [
  | parsed opts ↦ run_dump w file opts.extract_name opts.output_path
  | help_wanted ↦ seen helped
  | unknown arg ↦ stopped (unknown_argument arg)
]
