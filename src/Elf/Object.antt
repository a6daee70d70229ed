-- ===== src/Elf/Object.antt =====
-- `elfrc_write_elf_object` of src/elfrc/elf_writer.c: the object is laid out, and written.
use elfrc.Base.{
  ℕ, ◌%◌, ◌^◌, List, [], ◌∷◌, ◌++◌, Option, Bool, ◌==◌, if◌then◌else◌, length, replicate, set,
  get_or, foldl, ◌*◌,
}
use elfrc.ByteBuf.Refine.{buf_append, buf_append_zeros, buf_align}
use elfrc.Container.Build.{overwrite}
use elfrc.Elf.{
  Sym, Shdr, Ehdr, ElfH, sec_resource, sec_strtab, sec_shstrtab, sec_count, shstrtab, strtab,
}

-- Where the sections stand in the file.
pub record Placed : Type 0 where
  pub resource_off : ℕ
  pub symtab_off : ℕ
  pub strtab_off : ℕ
  pub shstrtab_off : ℕ
  pub shoff : ℕ
  pub file : List ℕ

module _ (h : ElfH) where
  -- A boundary symbol, at `value` of the section.
  abbrev pub boundary : ℕ → ℕ → Sym
  boundary name value = record {
    st_name = name % 2 ^ 32;
    st_info = h.st_info_of h.stb_global h.stt_object % 256;
    st_other = h.stv_default;
    st_shndx = sec_resource;
    st_value = value;
    st_size = 0;
  }

  abbrev pub null_sym : Sym
  null_sym = record {
    st_name = 0;
    st_info = 0;
    st_other = 0;
    st_shndx = 0;
    st_value = 0;
    st_size = 0;
  }

  -- The null symbol, and the two boundaries of the section.
  unfoldable pub symtab_bytes : Option (List ℕ) → ℕ → List ℕ
  symtab_bytes prefix size =
      h.sym_bytes null_sym
      ++ (h.sym_bytes (boundary (get_or (strtab prefix).0 0 0) 0)
          ++ h.sym_bytes (boundary (get_or (strtab prefix).0 1 0) size))

  -- Room for the file header, then the sections, and the place of the section headers.
  unfoldable pub place : List ℕ → Option (List ℕ) → Placed
  place content prefix =
      let start = buf_align (buf_append_zeros [] h.sizeof_ehdr) 16 in
      let symtab = buf_align (buf_append start content) 8 in
      let names = buf_align (buf_append symtab (symtab_bytes prefix (length content))) 1 in
      let section_table = buf_append names (strtab prefix).1 in
      let headers = buf_align (buf_append section_table shstrtab.1) 8 in
      record {
        resource_off = length start;
        symtab_off = length symtab;
        strtab_off = length names;
        shstrtab_off = length section_table;
        shoff = length headers;
        file = headers;
      }

  -- `memset` leaves the null section, and the fields that are not set, zero.
  abbrev pub null_shdr : Shdr
  null_shdr = record {
    sh_name = 0;
    sh_type = 0;
    sh_flags = 0;
    sh_addr = 0;
    sh_offset = 0;
    sh_size = 0;
    sh_link = 0;
    sh_info = 0;
    sh_addralign = 0;
    sh_entsize = 0;
  }

  abbrev pub section_name : ℕ → ℕ
  section_name i = get_or shstrtab.0 i 0 % 2 ^ 32

  unfoldable pub resource_shdr : Placed → ℕ → Shdr
  resource_shdr p size = record null_shdr {
    sh_name = section_name 0;
    sh_type = h.sht_progbits;
    sh_flags = h.shf_alloc;
    sh_offset = p.resource_off;
    sh_size = size;
    sh_addralign = 16;
  }

  unfoldable pub symtab_shdr : Placed → Shdr
  symtab_shdr p = record null_shdr {
    sh_name = section_name 1;
    sh_type = h.sht_symtab;
    sh_offset = p.symtab_off;
    sh_size = 3 * h.sizeof_sym;
    sh_link = sec_strtab;
    sh_info = 1;
    sh_addralign = 8;
    sh_entsize = h.sizeof_sym;
  }

  -- A table of strings.
  unfoldable pub strings_shdr : ℕ → ℕ → ℕ → Shdr
  strings_shdr name offset size = record null_shdr {
    sh_name = name;
    sh_type = h.sht_strtab;
    sh_offset = offset;
    sh_size = size;
    sh_addralign = 1;
  }

  unfoldable pub section_headers : Placed → ℕ → Option (List ℕ) → List ℕ
  section_headers p size prefix =
      h.shdr_bytes null_shdr
      ++ (h.shdr_bytes (resource_shdr p size)
          ++ (h.shdr_bytes (symtab_shdr p)
              ++ (h.shdr_bytes
                    (strings_shdr (section_name 2) p.strtab_off (length (strtab prefix).1))
                  ++ h.shdr_bytes
                      (strings_shdr (section_name 3) p.shstrtab_off (length shstrtab.1)))))

  abbrev pub put : List ℕ → ℕ × ℕ → List ℕ
  put ident (i, v) = set ident i v

  unfoldable pub ident : List ℕ
  ident = foldl put (replicate h.ei_nident 0) (
      h.ei_mag0
      ∷ h.ei_mag1
      ∷ h.ei_mag2
      ∷ h.ei_mag3
      ∷ h.ei_class
      ∷ h.ei_data
      ∷ h.ei_version
      ∷ h.ei_osabi
      ∷ (h.ei_abiversion, 0)
      ∷ [])

  unfoldable pub file_header : Placed → Ehdr
  file_header p = record {
    e_ident = ident;
    e_type = h.et_rel;
    e_machine = h.em_x86_64;
    e_version = h.ev_current;
    e_entry = 0;
    e_phoff = 0;
    e_shoff = p.shoff;
    e_flags = 0;
    e_ehsize = h.sizeof_ehdr;
    e_phentsize = 0;
    e_phnum = 0;
    e_shentsize = h.sizeof_shdr;
    e_shnum = sec_count;
    e_shstrndx = sec_shstrtab;
  }

  -- The bytes of the object.
  unfoldable pub elf_object : List ℕ → Option (List ℕ) → List ℕ
  elf_object content prefix =
      let p = place content prefix in
      overwrite (buf_append p.file (section_headers p (length content) prefix)) 0
        (h.ehdr_bytes (file_header p))

-- What became of the output: it was not opened, or too few bytes were written, or it was written.
pub data Output : Type 0 where
  cannot_open : Output
  short_write : Output
  complete : List ℕ → Output

-- The file system: whether the path can be opened, and how many of the bytes `fwrite` takes.
unfoldable pub elfrc_write_elf_object :
    ElfH → Bool → (List ℕ → ℕ) → List ℕ → Option (List ℕ) → Output
elfrc_write_elf_object h opens takes content prefix =
    let bytes = elf_object h content prefix in
    if opens
    then (if takes bytes == length bytes then complete bytes else short_write)
    else cannot_open
