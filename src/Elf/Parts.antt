-- ===== src/Elf/Parts.antt =====
-- What stands where in the object that elf_writer.c writes.
use elfrc.Base.{
  ℕ, ◌+◌, ◌≤◌, ◌≡◌, arith, List, [], ◌++◌, Option, length, length-append, length-replicate,
}
use elfrc.Bytes.Sits.{Sits}
use elfrc.ByteBuf.Refine.{buf_append_zeros, buf_align}
use elfrc.Container.Build.{overwrite}
use elfrc.Elf.{Ehdr, ElfH, shstrtab, strtab}
use elfrc.Elf.Object.{symtab_bytes, place, file_header, section_headers, elf_object}
use elfrc.Container.Written.Data.{buf_align-Grows}
use elfrc.Container.Written.Finish.{overwrite-Sits, overwrite-kept}
use elfrc.Container.Written.Strings.{
  Grows, Grows-append, Grows-trans, Grows-le, Stands, Stands-Grows, Stands-end,
}

-- The parts of the object, behind the room of the file header.
pub record HasParts (h : ElfH) (content : List ℕ) (prefix : Option (List ℕ)) (object : List ℕ)
    : Type 0 where
  pub header : Sits object 0 (h.ehdr_bytes (file_header h (place h content prefix)))
  pub container : Sits object (place h content prefix).resource_off content
  pub symbols :
      Sits object (place h content prefix).symtab_off (symtab_bytes h prefix (length content))
  pub symbol_names : Sits object (place h content prefix).strtab_off (strtab prefix).1
  pub section_names : Sits object (place h content prefix).shstrtab_off shstrtab.1
  pub headers :
      Sits object
        (place h content prefix).shoff
        (section_headers h (place h content prefix) (length content) prefix)
  pub behind : h.sizeof_ehdr ≤ (place h content prefix).shoff

module _ (h : ElfH) (content : List ℕ) (prefix : Option (List ℕ)) where
  abbrev low : ℕ
  low = length (buf_append_zeros [] h.sizeof_ehdr)

  abbrev start : List ℕ
  start = buf_align (buf_append_zeros [] h.sizeof_ehdr) 16

  abbrev symtab_at : List ℕ
  symtab_at = buf_align (start ++ content) 8

  abbrev strtab_at : List ℕ
  strtab_at = buf_align (symtab_at ++ symtab_bytes h prefix (length content)) 1

  abbrev shstrtab_at : List ℕ
  shstrtab_at = strtab_at ++ (strtab prefix).1

  abbrev headers_at : List ℕ
  headers_at = buf_align (shstrtab_at ++ shstrtab.1) 8

  abbrev table : List ℕ
  table = section_headers h (place h content prefix) (length content) prefix

  abbrev whole : List ℕ
  whole = headers_at ++ table

  after_headers : Grows headers_at whole
  after_headers = Grows-append headers_at table

  after_names : Grows (shstrtab_at ++ shstrtab.1) whole
  after_names = Grows-trans (buf_align-Grows (shstrtab_at ++ shstrtab.1) 8) after_headers

  after_strings : Grows shstrtab_at whole
  after_strings = Grows-trans (Grows-append shstrtab_at shstrtab.1) after_names

  after_symbols : Grows (symtab_at ++ symtab_bytes h prefix (length content)) whole
  after_symbols =
      Grows-trans (buf_align-Grows (symtab_at ++ symtab_bytes h prefix (length content)) 1)
        (Grows-trans (Grows-append strtab_at (strtab prefix).1) after_strings)

  after_content : Grows (start ++ content) whole
  after_content =
      Grows-trans (buf_align-Grows (start ++ content) 8) (
        Grows-trans (Grows-append symtab_at (symtab_bytes h prefix (length content))) after_symbols)

  low_lem : low ≡ h.sizeof_ehdr
  low_lem = length-replicate {A = ℕ} h.sizeof_ehdr 0

  to_start : low ≤ length start
  to_start = Grows-le (buf_align-Grows (buf_append_zeros [] h.sizeof_ehdr) 16)

  to_symtab : low ≤ length symtab_at
  to_symtab = omega (
    arith,
    to_start,
    Grows-le (buf_align-Grows (start ++ content) 8),
    length-append start content,
  )

  to_strtab : low ≤ length strtab_at
  to_strtab =
      let bytes = symtab_bytes h prefix (length content) in
      omega (
        arith,
        to_symtab,
        Grows-le (buf_align-Grows (symtab_at ++ bytes) 1),
        length-append symtab_at bytes,
      )

  to_shstrtab : low ≤ length shstrtab_at
  to_shstrtab = omega (arith, to_strtab, length-append strtab_at (strtab prefix).1)

  to_headers : low ≤ length headers_at
  to_headers = omega (
    arith,
    to_shstrtab,
    Grows-le (buf_align-Grows (shstrtab_at ++ shstrtab.1) 8),
    length-append shstrtab_at shstrtab.1,
  )

  module _ (sized : (e : Ehdr) → length (h.ehdr_bytes e) ≡ h.sizeof_ehdr) where
    abbrev over : List ℕ
    over = h.ehdr_bytes (file_header h (place h content prefix))

    over_room : 0 + length over ≤ length whole
    over_room = omega (
      arith,
      to_headers,
      Grows-le after_headers,
      sized (file_header h (place h content prefix)),
      low_lem,
    )

    -- The file header is written over zeros only.
    kept :
        {off : ℕ} {bytes : List ℕ}
        → Stands low whole off bytes
        → Sits (overwrite whole 0 over) off bytes
    kept s =
        overwrite-kept whole 0 over over_room
          (omega (arith, s.behind, sized (file_header h (place h content prefix)), low_lem)) s.sits

    pub elf_object-HasParts : HasParts h content prefix (elf_object h content prefix)
    unfolding elf_object place
    elf_object-HasParts = record {
      header = overwrite-Sits whole 0 over over_room;
      container = kept (Stands-Grows after_content (Stands-end start content to_start));
      symbols = kept (Stands-Grows after_symbols (Stands-end symtab_at _ to_symtab));
      symbol_names =
          kept (Stands-Grows after_strings (Stands-end strtab_at (strtab prefix).1 to_strtab));
      section_names =
          kept (Stands-Grows after_names (Stands-end shstrtab_at shstrtab.1 to_shstrtab));
      headers = kept (Stands-end headers_at table to_headers);
      behind = omega (arith, to_headers, low_lem);
    }
