-- ===== src/Command/Elfresdump/Tests.antt =====
-- A file with three sections, one of which is `.resource`.
use elfrc.Base.{
  ℕ, ◌+◌, ◌*◌, ◌%◌, ◌^◌, ◌<◌, ◌≡◌, refl, arith, List, [], ◌∷◌, ◌++◌, some, true, length, replicate,
}
use elfrc.Bytes.{le_bytes, le_value, with_nul, bytes_eq, read, c_string, string_at}
use elfrc.Format.{header_bytes, header_of, entry_bytes, entry_of}
use elfrc.Container.Sections.{write_string, write_pairs, write_block}
use elfrc.Reader.Container.{in_bounds}
use elfrc.Reader.Open.{
  mul_overflow, table_fits, has_hash, read_hash_table, open_hash_table, read_entry, resource_of,
  open_resource, open_resources, check_header, open_base, erf_open_memory,
}
use elfrc.Reader.Find.{
  strcmp_eq, name_matches, scan_names, find_name, erf_find_in, erf_resource_count, erf_resource_at,
}
use elfrc.Reader.Sample.{sample, sample_container}
use elfrc.Command.Text
use elfrc.Command.Elfresdump.Sample.{view}
use elfrc.Command.Elfresdump.Texts.{resource_section}
use elfrc.Command.Elfresdump.{
  type_name, seen, check_ehdr, section_header, is_resource, find_section, read_ehdr,
  resource_section_of, open_section,
}
use elfrc.Command.Elfresdump.Run.{
  Row, list_resources, mapped, DumpWorld, write_data, extract_resource, list_container, DumpOptions,
  parsed, no_dump_options, dump_arguments, open_file, run_dump, elfresdump, listed, extracted,
}
use elfrc.Command.Elfresdump.Extracted.{IsExtracted, elfresdump-IsExtracted}
use elfrc.Command.Elfresdump.Listed.{AreShown, list_container-AreShown}

-- The sections: the null section, `.resource` at 64, and the names at 379. The section of the names
-- is the one at `index`.
abbrev ehdr : ℕ → List ℕ
ehdr index =
    (0x7f ∷ b'E' ∷ b'L' ∷ b'F' ∷ 2 ∷ 1 ∷ 1 ∷ [])
    ++ (replicate 33 0
        ++ (le_bytes 8 390
            ++ (replicate 10 0 ++ (le_bytes 2 64 ++ (le_bytes 2 3 ++ le_bytes 2 index)))))

abbrev shdr : ℕ → ℕ → ℕ → List ℕ
shdr name offset size =
    le_bytes 4 name
    ++ (replicate 20 0 ++ (le_bytes 8 offset ++ (le_bytes 8 size ++ replicate 24 0)))

abbrev elf_file : ℕ → List ℕ
elf_file index =
    ehdr index
    ++ (sample
        ++ ((0 ∷ with_nul resource_section) ++ (shdr 0 0 0 ++ (shdr 1 64 315 ++ shdr 0 379 11))))

abbrev world : DumpWorld
world = record {
  view = view;
  map_file = λ path. mapped (elf_file 2);
  opens = λ path. true;
  takes = λ path bytes. length bytes;
}

abbrev arguments : List (List ℕ)
arguments = (b'f' ∷ []) ∷ Text.extract ∷ (b'a' ∷ []) ∷ Text.output ∷ (b'o' ∷ []) ∷ []

extracts : elfresdump world arguments ≡ seen (extracted (b'o' ∷ []) (1 ∷ 2 ∷ 3 ∷ []))
unfolding elfresdump dump_arguments bytes_eq run_dump open_file open_section resource_section_of
    read_ehdr check_ehdr section_header find_section is_resource read le_bytes le_value header_bytes
    entry_bytes write_string write_pairs write_block header_of entry_of in_bounds mul_overflow
    table_fits has_hash read_hash_table open_hash_table read_entry resource_of open_resource
    open_resources check_header open_base erf_open_memory strcmp_eq name_matches scan_names
    find_name erf_find_in extract_resource write_data
extracts = refl

elfresdump-IsExtracted_example :
    (file : List ℕ) × (rest : List (List ℕ)) × (opts : DumpOptions) × (name : List ℕ) × (arguments
      ≡ file ∷ rest)
    × (dump_arguments no_dump_options rest ≡ parsed opts)
    × (opts.extract_name ≡ some name)
    × (opts.output_path ≡ some (b'o' ∷ []))
    × IsExtracted world file name (b'o' ∷ []) (1 ∷ 2 ∷ 3 ∷ [])
elfresdump-IsExtracted_example =
    elfresdump-IsExtracted world arguments (b'o' ∷ []) (1 ∷ 2 ∷ 3 ∷ []) extracts

abbrev rows : List Row
rows =
    record {
      id = 7;
      name = b'a' ∷ [];
      type = b's' ∷ b't' ∷ b'r' ∷ b'i' ∷ b'n' ∷ b'g' ∷ [];
      language = 0;
      size = 3;
    }
    ∷ []

lists : list_container sample_container ≡ seen (listed rows)
unfolding list_container list_resources erf_resource_count erf_resource_at string_at c_string
    type_name le_bytes header_bytes entry_bytes write_string write_pairs write_block
lists = refl

list_container-AreShown_example : AreShown sample_container 1 0 rows
list_container-AreShown_example = list_container-AreShown sample_container rows lists

-- A file that passes the tests, and names section 3 of 3 for the names.
reads_ehdr : read_ehdr view (elf_file 3) ≡ seen (view.ehdr_of (ehdr 3))
unfolding read_ehdr read bytes_eq le_bytes le_value header_bytes entry_bytes write_string
    write_pairs write_block
reads_ehdr = refl

passes : check_ehdr view (length (elf_file 3)) (view.ehdr_of (ehdr 3)) ≡ seen tt
unfolding check_ehdr le_bytes le_value header_bytes entry_bytes write_string write_pairs write_block
passes = refl

far :
    length (elf_file 3)
    < ((view.ehdr_of (ehdr 3)).e_shoff + (view.ehdr_of (ehdr 3)).e_shstrndx * 64) % 2 ^ 64 + 64
unfolding le_bytes le_value header_bytes entry_bytes write_string write_pairs write_block
far = omega arith
