-- ===== src/Elf.antt =====
-- src/elfrc/elf_writer.c: the relocatable object around a container.
-- `elf.h` is the system's: its constants, sizes and struct layouts are the parameter `ElfH`.
pub mod Object
pub mod Section
pub mod Parts
pub mod Symbols
pub mod Sample
mod Tests
use elfrc.Base.{
  ℕ, ◌+◌, ◌%◌, ◌^◌, List, [], ◌∷◌, ◌++◌, Option, none, some, Bool, ◌==◌, if◌then◌else◌, length,
  take, replicate, set, get_or, foldl, ◌*◌,
}
use elfrc.Bytes.{with_nul}
use elfrc.ByteBuf.Refine.{buf_append, buf_append_zeros, buf_align}
use elfrc.Container.Build.{overwrite}

-- Elf64_Sym, Elf64_Shdr and Elf64_Ehdr.
pub record Sym : Type 0 where
  pub st_name : ℕ
  pub st_info : ℕ
  pub st_other : ℕ
  pub st_shndx : ℕ
  pub st_value : ℕ
  pub st_size : ℕ

pub record Shdr : Type 0 where
  pub sh_name : ℕ
  pub sh_type : ℕ
  pub sh_flags : ℕ
  pub sh_addr : ℕ
  pub sh_offset : ℕ
  pub sh_size : ℕ
  pub sh_link : ℕ
  pub sh_info : ℕ
  pub sh_addralign : ℕ
  pub sh_entsize : ℕ

pub record Ehdr : Type 0 where
  pub e_ident : List ℕ
  pub e_type : ℕ
  pub e_machine : ℕ
  pub e_version : ℕ
  pub e_entry : ℕ
  pub e_phoff : ℕ
  pub e_shoff : ℕ
  pub e_flags : ℕ
  pub e_ehsize : ℕ
  pub e_phentsize : ℕ
  pub e_phnum : ℕ
  pub e_shentsize : ℕ
  pub e_shnum : ℕ
  pub e_shstrndx : ℕ

-- `st_info` stands for ELF64_ST_INFO, `ident` for the pairs of an index EI_* and its value.
pub record ElfH : Type 0 where
  pub sizeof_ehdr : ℕ
  pub sizeof_shdr : ℕ
  pub sizeof_sym : ℕ
  pub ehdr_bytes : Ehdr → List ℕ
  pub shdr_bytes : Shdr → List ℕ
  pub sym_bytes : Sym → List ℕ
  pub st_info_of : ℕ → ℕ → ℕ
  pub stb_global : ℕ
  pub stt_object : ℕ
  pub stv_default : ℕ
  pub sht_progbits : ℕ
  pub sht_symtab : ℕ
  pub sht_strtab : ℕ
  pub shf_alloc : ℕ
  pub ei_nident : ℕ
  pub ei_mag0 : ℕ × ℕ
  pub ei_mag1 : ℕ × ℕ
  pub ei_mag2 : ℕ × ℕ
  pub ei_mag3 : ℕ × ℕ
  pub ei_class : ℕ × ℕ
  pub ei_data : ℕ × ℕ
  pub ei_version : ℕ × ℕ
  pub ei_osabi : ℕ × ℕ
  pub ei_abiversion : ℕ
  pub et_rel : ℕ
  pub em_x86_64 : ℕ
  pub ev_current : ℕ

abbrev pub sec_resource : ℕ
sec_resource = 1

abbrev pub sec_strtab : ℕ
sec_strtab = 3

abbrev pub sec_shstrtab : ℕ
sec_shstrtab = 4

abbrev pub sec_count : ℕ
sec_count = 5

abbrev pub elfr_text : List ℕ
elfr_text = b'_' ∷ b'e' ∷ b'l' ∷ b'f' ∷ b'r' ∷ []

abbrev pub start_tail : List ℕ
start_tail =
    b'_' ∷ b'r' ∷ b'e' ∷ b's' ∷ b'o' ∷ b'u' ∷ b'r' ∷ b'c' ∷ b'e' ∷ b'_' ∷ b's' ∷ b't' ∷ b'a' ∷ b'r'
    ∷ b't' ∷ []

abbrev pub end_tail : List ℕ
end_tail =
    b'_' ∷ b'r' ∷ b'e' ∷ b's' ∷ b'o' ∷ b'u' ∷ b'r' ∷ b'c' ∷ b'e' ∷ b'_' ∷ b'e' ∷ b'n' ∷ b'd' ∷ []

-- `snprintf` into 256 bytes keeps 255 of them. `none` is a prefix of NULL.
unfoldable pub symbol_name : Option (List ℕ) → List ℕ → List ℕ
symbol_name none tail = take 255 (elfr_text ++ tail)
symbol_name (some []) tail = take 255 (elfr_text ++ tail)
symbol_name (some (b ∷ s)) tail = take 255 (elfr_text ++ (b'_' ∷ (b ∷ s) ++ tail))

-- The offsets of what is appended to a table, one after the other, and the table.
unfoldable pub append_names : List ℕ → List (List ℕ) → List ℕ × List ℕ
append_names table [] = ([], table)
append_names table (name ∷ names) =
    let (offsets, table') = append_names (buf_append table (with_nul name)) names in
    (length table ∷ offsets, table')

-- `.shstrtab`: an empty string and the names of the sections.
abbrev pub section_names : List (List ℕ)
section_names =
    (b'.' ∷ b'r' ∷ b'e' ∷ b's' ∷ b'o' ∷ b'u' ∷ b'r' ∷ b'c' ∷ b'e' ∷ [])
    ∷ (b'.' ∷ b's' ∷ b'y' ∷ b'm' ∷ b't' ∷ b'a' ∷ b'b' ∷ [])
    ∷ (b'.' ∷ b's' ∷ b't' ∷ b'r' ∷ b't' ∷ b'a' ∷ b'b' ∷ [])
    ∷ (b'.' ∷ b's' ∷ b'h' ∷ b's' ∷ b't' ∷ b'r' ∷ b't' ∷ b'a' ∷ b'b' ∷ [])
    ∷ []

unfoldable pub shstrtab : List ℕ × List ℕ
shstrtab = append_names (buf_append_zeros [] 1) section_names

-- `.strtab`: an empty string and the names of the two symbols.
unfoldable pub strtab : Option (List ℕ) → List ℕ × List ℕ
strtab prefix =
    append_names (buf_append_zeros [] 1)
      (symbol_name prefix start_tail ∷ symbol_name prefix end_tail ∷ [])
