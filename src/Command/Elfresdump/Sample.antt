-- ===== src/Command/Elfresdump/Sample.antt =====
-- A 64-bit `elf.h`, as a file is read with it.
use elfrc.Base.{[], ◌∷◌, take}
use elfrc.Format.{field}
use elfrc.Command.Elfresdump.{ElfView}

-- The structs of a 64-bit `elf.h`, as far as the program looks at them.
abbrev pub view : ElfView
view = record {
  sizeof_ehdr = 64;
  sizeof_shdr = 64;
  ehdr_of = λ mem. record {
    e_ident = take 16 mem;
    e_type = 0;
    e_machine = 0;
    e_version = 0;
    e_entry = 0;
    e_phoff = 0;
    e_shoff = field mem 40 8;
    e_flags = 0;
    e_ehsize = 0;
    e_phentsize = 0;
    e_phnum = 0;
    e_shentsize = field mem 58 2;
    e_shnum = field mem 60 2;
    e_shstrndx = field mem 62 2;
  };
  shdr_of = λ mem. record {
    sh_name = field mem 0 4;
    sh_type = 0;
    sh_flags = 0;
    sh_addr = 0;
    sh_offset = field mem 24 8;
    sh_size = field mem 32 8;
    sh_link = 0;
    sh_info = 0;
    sh_addralign = 0;
    sh_entsize = 0;
  };
  elfmag = 0x7f ∷ b'E' ∷ b'L' ∷ b'F' ∷ [];
  selfmag = 4;
  ei_class = 4;
  elfclass64 = 2;
  ei_data = 5;
  elfdata2lsb = 1;
}
