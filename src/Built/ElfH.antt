-- ===== src/Built/ElfH.antt =====
-- `elf.h`, as elf_writer.c writes its structs and elfresdump reads them.
use elfrc.Base.{◌^◌, ◌<◌, ◌≡◌, refl, [], ◌∷◌, length, take, get_or}
use elfrc.Elf.{Ehdr, Shdr, Sym, ElfH}
use elfrc.Elf.Object.{ident}
use elfrc.Command.Elfresdump.{ElfView}

-- What the program reads of a file header that was written.
pub record IsEhdrRead (d e : Ehdr) : Type 0 where
  pub class : get_or d.e_ident 4 0 ≡ get_or e.e_ident 4 0
  pub encoding : get_or d.e_ident 5 0 ≡ get_or e.e_ident 5 0
  pub shoff : d.e_shoff ≡ e.e_shoff
  pub shentsize : d.e_shentsize ≡ e.e_shentsize
  pub shnum : d.e_shnum ≡ e.e_shnum
  pub shstrndx : d.e_shstrndx ≡ e.e_shstrndx

-- What it reads of a section header.
pub record IsShdrRead (d s : Shdr) : Type 0 where
  pub name : d.sh_name ≡ s.sh_name
  pub offset : d.sh_offset ≡ s.sh_offset
  pub size : d.sh_size ≡ s.sh_size

-- The `elf.h` of both programs: sizes and constants of the 64-bit format, and structs whose fields
-- are read as they were written, if they fit their widths. `e_ident` comes first.
pub record IsElfH (h : ElfH) (v : ElfView) : Type 0 where
  pub ehdr_size : h.sizeof_ehdr ≡ 64
  pub shdr_size : h.sizeof_shdr ≡ 64
  pub sym_size : h.sizeof_sym ≡ 24
  pub ehdr_size_read : v.sizeof_ehdr ≡ 64
  pub shdr_size_read : v.sizeof_shdr ≡ 64
  pub ehdr_sized : (e : Ehdr) → length (h.ehdr_bytes e) ≡ 64
  pub shdr_sized : (s : Shdr) → length (h.shdr_bytes s) ≡ 64
  pub sym_sized : (s : Sym) → length (h.sym_bytes s) ≡ 24
  pub nident : h.ei_nident ≡ 16
  pub mag0 : h.ei_mag0 ≡ (0, 0x7f)
  pub mag1 : h.ei_mag1 ≡ (1, b'E')
  pub mag2 : h.ei_mag2 ≡ (2, b'L')
  pub mag3 : h.ei_mag3 ≡ (3, b'F')
  pub class : h.ei_class ≡ (4, 2)
  pub encoding : h.ei_data ≡ (5, 1)
  pub version : h.ei_version ≡ (6, 1)
  pub osabi : h.ei_osabi ≡ (7, 0)
  pub abiversion : h.ei_abiversion ≡ 8
  pub elfmag : v.elfmag ≡ 0x7f ∷ b'E' ∷ b'L' ∷ b'F' ∷ []
  pub selfmag : v.selfmag ≡ 4
  pub class_read : v.ei_class ≡ 4
  pub class_64 : v.elfclass64 ≡ 2
  pub encoding_read : v.ei_data ≡ 5
  pub little_endian : v.elfdata2lsb ≡ 1
  pub ident_first :
      (e : Ehdr)
      → take 4 (h.ehdr_bytes e)
        ≡ get_or e.e_ident 0 0
          ∷ get_or e.e_ident 1 0
          ∷ get_or e.e_ident 2 0
          ∷ get_or e.e_ident 3 0
          ∷ []
  pub ehdr_read :
      (e : Ehdr)
      → e.e_shoff < 2 ^ 64
      → e.e_shentsize < 2 ^ 16
      → e.e_shnum < 2 ^ 16
      → e.e_shstrndx < 2 ^ 16
      → IsEhdrRead (v.ehdr_of (h.ehdr_bytes e)) e
  pub shdr_read :
      (s : Shdr)
      → s.sh_name < 2 ^ 32
      → s.sh_offset < 2 ^ 64
      → s.sh_size < 2 ^ 64
      → IsShdrRead (v.shdr_of (h.shdr_bytes s)) s

pub ident_lem :
    (h : ElfH) (v : ElfView)
    → IsElfH h v
    → ident h ≡ 0x7f ∷ b'E' ∷ b'L' ∷ b'F' ∷ 2 ∷ 1 ∷ 1 ∷ 0 ∷ 0 ∷ 0 ∷ 0 ∷ 0 ∷ 0 ∷ 0 ∷ 0 ∷ 0 ∷ []
unfolding ident
ident_lem h v a =
    rw
      (
        a.nident, a.mag0, a.mag1, a.mag2, a.mag3, a.class, a.encoding, a.version, a.osabi,
        a.abiversion,
      )
      refl
