-- ===== src/Built/Symbols.antt =====
-- The symbols of the object, found through its section headers.
use elfrc.Base.{ℕ, ◌≡◌, List, Option, length}
use elfrc.Elf.{Ehdr, Shdr, ElfH, start_tail, end_tail}
use elfrc.Elf.Symbols.{full_name, IsBoundary}
use elfrc.Command.Elfresdump.{ElfView, seen, read_ehdr, section_header}

-- The object's header and its sections 2 and 3 are read, and with the offsets that they name symbol
-- 1 is the start of the container and symbol 2 its end.
pub record HasSymbols (h : ElfH) (v : ElfView) (content : List ℕ) (prefix : Option (List ℕ))
    (object : List ℕ) : Type 0 where
  pub header : Ehdr
  pub symbols : Shdr
  pub names : Shdr
  pub header_read : read_ehdr v object ≡ seen header
  pub symbols_read : section_header v object header 2 ≡ seen symbols
  pub names_read : section_header v object header 3 ≡ seen names
  pub start :
      IsBoundary h object symbols.sh_offset names.sh_offset 1 (full_name prefix start_tail) 0
  pub end :
      IsBoundary h object symbols.sh_offset names.sh_offset 2
        (full_name prefix end_tail)
        (length content)
