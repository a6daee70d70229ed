-- ===== src/Built/ObjectTests.antt =====
-- A manifest is compiled, and the object is searched.
use elfrc.Base.{
  ℕ, ◌≡◌, ◌<◌, ◌^◌, ◌%◌, refl, arith, List, [], ◌∷◌, Option, none, some, true, false, length,
}
use elfrc.Bytes.{bytes_eq}
use elfrc.Bytes.{le_bytes, read}
use elfrc.Bytes.Laws.{le_value-le_bytes}
use elfrc.Fnv1a.{elfr_fnv1a64, fnv64_loop}
use elfrc.Format.{bucket_bytes, hash_header_bytes, entry_bytes, header_bytes}
use elfrc.Container.HashTable.{
  build_buckets, bucket_count_for, next_pow2, double_until, insert_names, insert_name, free_slot,
  empty_buckets,
}
use elfrc.Container.Sections.{
  intern_names, string_table_intern, find_string, string_offset_of, write_metadata, write_block,
  write_pairs, write_string, any_metadata, write_hash_table, buckets_bytes, write_data, load_file,
  read_content,
}
use elfrc.Container.Build.{
  elfrc_container_build, lay_out, finish, entries_bytes, entries_for, entry_for, header_for,
  header_flags,
}
use elfrc.Elf.{Ehdr, Shdr, strtab, shstrtab, append_names, symbol_name}
use elfrc.Elf.Object.{place, section_headers, symtab_bytes, file_header, elf_object}
use elfrc.Elf.Sample.{elf_h}
use elfrc.Command.Elfrc.{World, Options, no_options}
use elfrc.Command.Elfrc.Parsing.{Item, output, symbol_prefix, manifest}
use elfrc.Command.Elfresdump.{seen, resource_section_of}
use elfrc.Command.Elfresdump.Sample.{view}
use elfrc.Built.ElfH.{IsEhdrRead, IsShdrRead, IsElfH}
use elfrc.Built.Object.{resource_section_of-elf_object}
use elfrc.Built.Sample.{files, content_of}
use elfrc.Manifest.{Manifest}
use elfrc.Manifest.Parse.Sample.{sys}

abbrev compiled : Manifest
compiled = record {
  version = 1;
  module_name = none;
  resources =
      record {
        name = b'a' ∷ [];
        file = b'.' ∷ b'/' ∷ b'f' ∷ [];
        type = 0;
        language = 0;
        compression = 0;
        flags = 0;
        id_explicit = false;
        id = 0;
        final_id = 1;
        metadata = record { key = b'a' ∷ []; value = b'f' ∷ [] } ∷ [];
        line = 3;
      }
      ∷ [];
}

abbrev world : World
world = record {
  sys = sys;
  files = files;
  elf_h = elf_h;
  opens = λ path. true;
  takes = λ path bytes. length bytes;
}

abbrev items : List Item
items =
    output (b'x' ∷ []) ∷ manifest (b'm' ∷ []) ∷ symbol_prefix (b'p' ∷ []) ∷ output (b'y' ∷ []) ∷ []

abbrev content : List ℕ
content = content_of (elfrc_container_build files compiled)

object_length : length (elf_object elf_h content (some (b'p' ∷ []))) ≡ 1128
unfolding elf_object place section_headers symtab_bytes strtab shstrtab append_names symbol_name
    file_header elfrc_container_build build_buckets bucket_count_for next_pow2 double_until
    insert_names insert_name free_slot empty_buckets elfr_fnv1a64 fnv64_loop lay_out intern_names
    string_table_intern find_string string_offset_of write_metadata write_block write_pairs
    write_string any_metadata write_hash_table buckets_bytes write_data load_file read_content
    finish entries_bytes entries_for entry_for header_for header_flags bytes_eq le_bytes
    bucket_bytes hash_header_bytes entry_bytes header_bytes
object_length = refl

ehdr_read :
    (e : Ehdr)
    → e.e_shoff < 2 ^ 64
    → e.e_shentsize < 2 ^ 16
    → e.e_shnum < 2 ^ 16
    → e.e_shstrndx < 2 ^ 16
    → IsEhdrRead (view.ehdr_of (elf_h.ehdr_bytes e)) e
unfolding le_bytes
ehdr_read e shoff shentsize shnum shstrndx = record {
  class = refl;
  encoding = refl;
  shoff = le_value-le_bytes 8 e.e_shoff shoff;
  shentsize = le_value-le_bytes 2 e.e_shentsize shentsize;
  shnum = le_value-le_bytes 2 e.e_shnum shnum;
  shstrndx = le_value-le_bytes 2 e.e_shstrndx shstrndx;
}

shdr_read :
    (s : Shdr)
    → s.sh_name < 2 ^ 32
    → s.sh_offset < 2 ^ 64
    → s.sh_size < 2 ^ 64
    → IsShdrRead (view.shdr_of (elf_h.shdr_bytes s)) s
unfolding le_bytes
shdr_read s name offset size = record {
  name = le_value-le_bytes 4 s.sh_name name;
  offset = le_value-le_bytes 8 s.sh_offset offset;
  size = le_value-le_bytes 8 s.sh_size size;
}

sample-IsElfH : IsElfH elf_h view
unfolding le_bytes
sample-IsElfH = record {
  ehdr_size = refl;
  shdr_size = refl;
  sym_size = refl;
  ehdr_size_read = refl;
  shdr_size_read = refl;
  ehdr_sized = λ e. refl;
  shdr_sized = λ s. refl;
  sym_sized = λ s. refl;
  nident = refl;
  mag0 = refl;
  mag1 = refl;
  mag2 = refl;
  mag3 = refl;
  class = refl;
  encoding = refl;
  version = refl;
  osabi = refl;
  abiversion = refl;
  elfmag = refl;
  selfmag = refl;
  class_read = refl;
  class_64 = refl;
  encoding_read = refl;
  little_endian = refl;
  ident_first = λ e. refl;
  ehdr_read = ehdr_read;
  shdr_read = shdr_read;
}

abbrev prefix : Option (List ℕ)
prefix = some (b'p' ∷ [])

resource_section_of-elf_object_example :
    (s : Shdr) × (resource_section_of view (elf_object elf_h content prefix) ≡ seen s)
    × (s.sh_size ≡ length content)
    × (read (elf_object elf_h content prefix) s.sh_offset s.sh_size ≡ some content)
    × (s.sh_offset % 16 ≡ 0)
resource_section_of-elf_object_example =
    resource_section_of-elf_object elf_h view sample-IsElfH content prefix
      (omega (arith, object_length))

-- The output cannot be opened.
abbrev blocked : World
blocked = record world { opens = λ path. false }

abbrev one_manifest : Options
one_manifest = record no_options { manifest_path = some (b'm' ∷ []) }
