-- ===== src/Built/Object.antt =====
-- The object that elf_writer.c writes, in the hands of elfresdump.
use elfrc.Base.{
  ℕ, ◌+◌, ◌*◌, ◌%◌, ◌^◌, ◌≤◌, ◌<◌, ◌≡◌, refl, sym, ap, subst, ◌∙◌, arith, List, [], ◌∷◌, ◌++◌,
  Option, some, true, length, length-append, take, drop, get_or, take-append-drop, leb,
}
use elfrc.Bytes.{read, string_at, with_nul, bytes_eq}
use elfrc.Bytes.Laws.{IsCString}
use elfrc.Bytes.Sits.{Sits, Sits-left, Sits-right, Sits-room, read-Sits, string_at-Sits}
use elfrc.Elf.{Ehdr, Shdr, ElfH, shstrtab, strtab, append_names}
use elfrc.Elf.Object.{
  Placed, place, file_header, null_shdr, resource_shdr, symtab_shdr, strings_shdr, section_name,
  section_headers, elf_object,
}
use elfrc.Built.ElfH.{IsEhdrRead, IsShdrRead, IsElfH, ident_lem}
use elfrc.Elf.Parts.{HasParts, elf_object-HasParts}
use elfrc.Elf.Section.{elf_object-section}
use elfrc.Reader.Find.Names.{strcmp_eq-c_string}
use elfrc.Command.Elfresdump.{
  ElfView, seen, load, check_ehdr, section_header, is_resource, find_section, read_ehdr,
  resource_section_of,
}
use elfrc.Command.Elfresdump.Texts.{resource_section}

check_ehdr_lem :
    (v : ElfView) (size : ℕ) (d : Ehdr)
    → get_or d.e_ident v.ei_class 0 ≡ v.elfclass64
    → get_or d.e_ident v.ei_data 0 ≡ v.elfdata2lsb
    → d.e_shnum ≡ 5
    → d.e_shentsize ≡ 64
    → 0 < d.e_shoff
    → d.e_shoff + 320 ≤ size
    → size < 2 ^ 64
    → check_ehdr v size d ≡ seen tt
unfolding check_ehdr
check_ehdr_lem v size d class encoding shnum shentsize some_shoff room short =
    rw (shnum, shentsize) (ground (arith, class, encoding))

resource_section-IsCString : IsCString resource_section
resource_section-IsCString = (
  (omega arith, omega arith),
  (
    (omega arith, omega arith),
    (
      (omega arith, omega arith),
      (
        (omega arith, omega arith),
        (
          (omega arith, omega arith),
          (
            (omega arith, omega arith),
            (
              (omega arith, omega arith),
              ((omega arith, omega arith), ((omega arith, omega arith), tt)),
            ),
          ),
        ),
      ),
    ),
  ),
)

module _ (h : ElfH) (v : ElfView) (a : IsElfH h v) (content : List ℕ) (prefix : Option (List ℕ))
    (short : length (elf_object h content prefix) < 2 ^ 64) where
  abbrev object : List ℕ
  object = elf_object h content prefix

  abbrev p : Placed
  p = place h content prefix

  abbrev e : Ehdr
  e = file_header h p

  abbrev d : Ehdr
  d = v.ehdr_of (h.ehdr_bytes e)

  parts : HasParts h content prefix object
  parts = elf_object-HasParts h content prefix (λ e. a.ehdr_sized e ∙ sym a.ehdr_size)

  -- The five section headers.
  abbrev symtab_header : Shdr
  symtab_header = symtab_shdr h p

  abbrev strtab_header : Shdr
  strtab_header = strings_shdr h (section_name h 2) p.strtab_off (length (strtab prefix).1)

  abbrev shstrtab_header : Shdr
  shstrtab_header = strings_shdr h (section_name h 3) p.shstrtab_off (length shstrtab.1)

  abbrev resource_header : Shdr
  resource_header = resource_shdr h p (length content)

  -- A section header is followed by the next one.
  next_header :
      (off : ℕ) (s : Shdr) (rest : List ℕ)
      → Sits object off (h.shdr_bytes s ++ rest)
      → Sits object (off + 64) rest
  next_header off s rest sits =
      subst (λ n. Sits object (off + n) rest) (a.shdr_sized s)
        (Sits-right (h.shdr_bytes s) rest sits)

  record HeadersSit : Type 0 where
    null : Sits object p.shoff (h.shdr_bytes (null_shdr h))
    resource : Sits object (p.shoff + 64) (h.shdr_bytes resource_header)
    symtab : Sits object (p.shoff + 64 + 64) (h.shdr_bytes symtab_header)
    strtab : Sits object (p.shoff + 64 + 64 + 64) (h.shdr_bytes strtab_header)
    names : Sits object (p.shoff + 64 + 64 + 64 + 64) (h.shdr_bytes shstrtab_header)

  headers-Sit : HeadersSit
  unfolding section_headers
  headers-Sit =
      let all = parts.headers in
      let second = next_header p.shoff (null_shdr h) _ all in
      let third = next_header (p.shoff + 64) resource_header _ second in
      let fourth = next_header (p.shoff + 64 + 64) symtab_header _ third in
      let fifth = next_header (p.shoff + 64 + 64 + 64) strtab_header _ fourth in
      record {
        null = Sits-left (h.shdr_bytes (null_shdr h)) _ all;
        resource = Sits-left (h.shdr_bytes resource_header) _ second;
        symtab = Sits-left (h.shdr_bytes symtab_header) _ third;
        strtab = Sits-left (h.shdr_bytes strtab_header) _ fourth;
        names = fifth;
      }

  shoff_room : p.shoff + 320 ≤ length object
  shoff_room = omega (arith, Sits-room headers-Sit.names, a.shdr_sized shstrtab_header)

  d-IsEhdrRead : IsEhdrRead d e
  unfolding file_header
  d-IsEhdrRead =
      a.ehdr_read e (omega (arith, shoff_room)) (omega (arith, a.shdr_size)) (omega arith)
        (omega arith)

  magic_sits : Sits object 0 (0x7f ∷ b'E' ∷ b'L' ∷ b'F' ∷ [])
  unfolding file_header
  magic_sits =
      let bytes = h.ehdr_bytes e in
      subst (Sits object 0)
        (a.ident_first e
          ∙ ap (λ (i : List ℕ). get_or i 0 0 ∷ get_or i 1 0 ∷ get_or i 2 0 ∷ get_or i 3 0 ∷ [])
              (ident_lem h v a))
        (Sits-left (take 4 bytes) (drop 4 bytes)
          (subst (Sits object 0) (sym (take-append-drop 4 bytes)) parts.header))

  pub reads_ehdr : read_ehdr v object ≡ seen d
  unfolding read_ehdr bytes_eq
  reads_ehdr =
      let long : leb 64 (length object) ≡ true =
        ground (arith, Sits-room parts.header, a.ehdr_sized e) in
      let magic = read-Sits (0x7f ∷ b'E' ∷ b'L' ∷ b'F' ∷ []) refl magic_sits in
      let header = read-Sits (h.ehdr_bytes e) (sym (a.ehdr_sized e)) parts.header in
      rw (a.ehdr_size_read, a.selfmag, a.elfmag, long, magic, header) refl

  passes : check_ehdr v (length object) d ≡ seen tt
  unfolding file_header
  passes =
      let r = d-IsEhdrRead in
      let known = ident_lem h v a in
      let class : get_or d.e_ident v.ei_class 0 ≡ v.elfclass64 =
        ap (λ (i : ℕ). get_or d.e_ident i 0) a.class_read
        ∙ r.class
        ∙ ap (λ (l : List ℕ). get_or l 4 0) known
        ∙ sym a.class_64 in
      let encoding : get_or d.e_ident v.ei_data 0 ≡ v.elfdata2lsb =
        ap (λ (i : ℕ). get_or d.e_ident i 0) a.encoding_read
        ∙ r.encoding
        ∙ ap (λ (l : List ℕ). get_or l 5 0) known
        ∙ sym a.little_endian in
      check_ehdr_lem v (length object) d class encoding r.shnum (r.shentsize ∙ a.shdr_size)
        (omega (arith, r.shoff, parts.behind, a.ehdr_size)) (omega (arith, r.shoff, shoff_room))
        short

  -- A header that stands in the table is read.
  reads_shdr :
      (i : ℕ) (s : Shdr)
      → Sits object (p.shoff + i * 64) (h.shdr_bytes s)
      → section_header v object d i ≡ seen (v.shdr_of (h.shdr_bytes s))
  unfolding section_header file_header
  reads_shdr i s sits =
      let size = a.shdr_sized s in
      let at : (d.e_shoff + i * v.sizeof_shdr) % 2 ^ 64 ≡ p.shoff + i * 64 =
        ap (λ (n : ℕ). (n + i * v.sizeof_shdr) % 2 ^ 64) d-IsEhdrRead.shoff
        ∙ ap (λ (n : ℕ). (p.shoff + i * n) % 2 ^ 64) a.shdr_size_read
        ∙ omega (arith, Sits-room sits, size) in
      rw (at, a.shdr_size_read, read-Sits (h.shdr_bytes s) (sym size) sits) refl

  -- A name that stands in the table of names is compared.
  reads_name :
      (s : Shdr) (k : ℕ) (text : List ℕ)
      → IsCString text
      → s.sh_name ≡ k
      → Sits object (p.shstrtab_off + k) (with_nul text)
      → is_resource object p.shstrtab_off s ≡ seen (bytes_eq text resource_section)
  unfolding is_resource string_at
  reads_name s k text ok at sits =
      let off : (p.shstrtab_off + s.sh_name) % 2 ^ 64 ≡ p.shstrtab_off + k =
        omega (arith, at, Sits-room sits, length-append text (0 ∷ [])) in
      rw off (
        ap load (
          strcmp_eq-c_string (drop (p.shstrtab_off + k) object) resource_section text
            resource_section-IsCString (string_at-Sits text ok sits)))

  empty_name : Sits object (p.shstrtab_off + 0) (with_nul [])
  unfolding shstrtab append_names
  empty_name =
      subst (λ k. Sits object k (0 ∷ [])) (omega arith)
        (Sits-left (0 ∷ []) (drop 1 shstrtab.1) parts.section_names)

  resource_name : Sits object (p.shstrtab_off + 1) (with_nul resource_section)
  unfolding shstrtab append_names
  resource_name =
      Sits-left (with_nul resource_section) (drop 11 shstrtab.1)
        (Sits-right (0 ∷ []) (drop 1 shstrtab.1) parts.section_names)

  -- What is read of the three headers that are looked at.
  names_read : IsShdrRead (v.shdr_of (h.shdr_bytes shstrtab_header)) shstrtab_header
  unfolding strings_shdr
  names_read =
      a.shdr_read shstrtab_header (omega arith) (omega (arith, Sits-room parts.section_names))
        (omega (arith, Sits-room parts.section_names))

  symtab_read : IsShdrRead (v.shdr_of (h.shdr_bytes symtab_header)) symtab_header
  unfolding symtab_shdr
  symtab_read =
      a.shdr_read symtab_header (omega arith) (omega (arith, Sits-room parts.symbols))
        (omega (arith, a.sym_size))

  strtab_read : IsShdrRead (v.shdr_of (h.shdr_bytes strtab_header)) strtab_header
  unfolding strings_shdr
  strtab_read =
      a.shdr_read strtab_header (omega arith) (omega (arith, Sits-room parts.symbol_names))
        (omega (arith, Sits-room parts.symbol_names))

  -- Sections 2 and 3 are read as the tables of the symbols and of their names.
  pub reads_tables :
      (symbols : Shdr) × (names : Shdr) × (section_header v object d 2 ≡ seen symbols)
      × (section_header v object d 3 ≡ seen names)
      × (symbols.sh_offset ≡ p.symtab_off)
      × (names.sh_offset ≡ p.strtab_off)
  unfolding symtab_shdr strings_shdr
  reads_tables = (
    v.shdr_of (h.shdr_bytes symtab_header),
    v.shdr_of (h.shdr_bytes strtab_header),
    reads_shdr 2 symtab_header (
        subst (λ (k : ℕ). Sits object k (h.shdr_bytes symtab_header)) (omega arith)
          headers-Sit.symtab),
    reads_shdr 3 strtab_header (
        subst (λ (k : ℕ). Sits object k (h.shdr_bytes strtab_header)) (omega arith)
          headers-Sit.strtab),
    symtab_read.offset,
    strtab_read.offset,
  )

  null_read : IsShdrRead (v.shdr_of (h.shdr_bytes (null_shdr h))) (null_shdr h)
  null_read = a.shdr_read (null_shdr h) (omega arith) (omega arith) (omega arith)

  resource_read : IsShdrRead (v.shdr_of (h.shdr_bytes resource_header)) resource_header
  unfolding resource_shdr
  resource_read =
      a.shdr_read resource_header (omega arith) (omega (arith, Sits-room parts.container))
        (omega (arith, Sits-room parts.container))

  finds :
      find_section v object d p.shstrtab_off 5 0 ≡ seen (v.shdr_of (h.shdr_bytes resource_header))
  unfolding find_section resource_shdr shstrtab append_names bytes_eq
  finds =
      let first = reads_shdr 0 (null_shdr h) (
        subst (λ (k : ℕ). Sits object k (h.shdr_bytes (null_shdr h))) (omega arith)
          headers-Sit.null) in
      let second = reads_shdr 1 resource_header headers-Sit.resource in
      let no =
        reads_name (v.shdr_of (h.shdr_bytes (null_shdr h))) 0 [] tt null_read.name empty_name in
      let yes =
        reads_name (v.shdr_of (h.shdr_bytes resource_header)) 1 resource_section
          resource_section-IsCString resource_read.name resource_name in
      rw (first, no, second, yes) refl

  -- If `elf.h` is that of the 64-bit format for both programs, and the object is shorter than 2^64
  -- bytes, then elfresdump finds the section header of `.resource` in the object that elfrc writes
  -- around a container, whatever the prefix of its symbols: it names the container's bytes and no
  -- others, at an offset that is a multiple of 16.
  pub resource_section_of-elf_object :
      (s : Shdr) × (resource_section_of v object ≡ seen s)
      × (s.sh_size ≡ length content)
      × (read object s.sh_offset s.sh_size ≡ some content)
      × (s.sh_offset % 16 ≡ 0)
  unfolding resource_section_of file_header resource_shdr strings_shdr
  resource_section_of-elf_object =
      let r = d-IsEhdrRead in
      let s = v.shdr_of (h.shdr_bytes resource_header) in
      let names = reads_shdr 4 shstrtab_header (
        subst (λ (k : ℕ). Sits object k (h.shdr_bytes shstrtab_header)) (omega arith)
          headers-Sit.names) in
      (
        s,
        rw (reads_ehdr, passes, r.shstrndx, names, names_read.offset, r.shnum) finds,
        resource_read.size,
        ap (λ (k : ℕ). read object k s.sh_size) resource_read.offset
            ∙ read-Sits content resource_read.size parts.container,
        ap (λ (k : ℕ). k % 16) resource_read.offset
            ∙ (elf_object-section h content prefix (λ e. a.ehdr_sized e ∙ sym a.ehdr_size)).1,
      )
