-- ===== src/Elf/Sample.antt =====
-- A 64-bit `elf.h`.
use elfrc.Base.{◌+◌, ◌*◌, ◌++◌, [], ◌∷◌, ℕ, List, map, get_or}
use elfrc.Bytes.{le_bytes}
use elfrc.Elf.{ElfH}

abbrev sixteen : List ℕ
sixteen = 0 ∷ 1 ∷ 2 ∷ 3 ∷ 4 ∷ 5 ∷ 6 ∷ 7 ∷ 8 ∷ 9 ∷ 10 ∷ 11 ∷ 12 ∷ 13 ∷ 14 ∷ 15 ∷ []

-- The structs in their little-endian layout.
abbrev pub elf_h : ElfH
elf_h = record {
  sizeof_ehdr = 64;
  sizeof_shdr = 64;
  sizeof_sym = 24;
  ehdr_bytes = λ e.
      map (λ i. get_or e.e_ident i 0) sixteen
      ++ (le_bytes 2 e.e_type
          ++ (le_bytes 2 e.e_machine
              ++ (le_bytes 4 e.e_version
                  ++ (le_bytes 8 e.e_entry
                      ++ (le_bytes 8 e.e_phoff
                          ++ (le_bytes 8 e.e_shoff
                              ++ (le_bytes 4 e.e_flags
                                  ++ (le_bytes 2 e.e_ehsize
                                      ++ (le_bytes 2 e.e_phentsize
                                          ++ (le_bytes 2 e.e_phnum
                                              ++ (le_bytes 2 e.e_shentsize
                                                  ++ (le_bytes 2 e.e_shnum
                                                      ++ le_bytes 2 e.e_shstrndx))))))))))));
  shdr_bytes = λ s.
      le_bytes 4 s.sh_name
      ++ (le_bytes 4 s.sh_type
          ++ (le_bytes 8 s.sh_flags
              ++ (le_bytes 8 s.sh_addr
                  ++ (le_bytes 8 s.sh_offset
                      ++ (le_bytes 8 s.sh_size
                          ++ (le_bytes 4 s.sh_link
                              ++ (le_bytes 4 s.sh_info
                                  ++ (le_bytes 8 s.sh_addralign ++ le_bytes 8 s.sh_entsize))))))));
  sym_bytes = λ s.
      le_bytes 4 s.st_name
      ++ (le_bytes 1 s.st_info
          ++ (le_bytes 1 s.st_other
              ++ (le_bytes 2 s.st_shndx ++ (le_bytes 8 s.st_value ++ le_bytes 8 s.st_size))));
  st_info_of = λ b t. b * 16 + t;
  stb_global = 1;
  stt_object = 1;
  stv_default = 0;
  sht_progbits = 1;
  sht_symtab = 2;
  sht_strtab = 3;
  shf_alloc = 2;
  ei_nident = 16;
  ei_mag0 = (0, 0x7f);
  ei_mag1 = (1, b'E');
  ei_mag2 = (2, b'L');
  ei_mag3 = (3, b'F');
  ei_class = (4, 2);
  ei_data = (5, 1);
  ei_version = (6, 1);
  ei_osabi = (7, 0);
  ei_abiversion = 8;
  et_rel = 1;
  em_x86_64 = 62;
  ev_current = 1;
}
