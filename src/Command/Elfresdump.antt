-- ===== src/Command/Elfresdump.antt =====
-- src/elfresdump/main.c: the sections of an ELF file, and the resources of the one that is searched.
pub mod Texts
pub mod Run
pub mod Extracted
pub mod Listed
pub mod Sample
mod Tests
use elfrc.Base.{
  ℕ, zero, suc, ◌+◌, ◌*◌, ◌%◌, ◌^◌, List, [], ◌∷◌, Option, none, some, Bool, true, false, not, ◌&&◌,
  ◌||◌, ltb, leb, ◌==◌, if◌then◌else◌, length, get_or, drop, ◌≡◌, refl,
}
use elfrc.Bytes.{bytes_eq, read, string_at}
use elfrc.Elf.{Ehdr, Shdr}
use elfrc.Elf.Object.{Output, cannot_open, short_write, complete}
use elfrc.Reader.Outcome.{ErfError, not_found, Outcome, ok, err, fault}
use elfrc.Reader.Container.{Resource, Container}
use elfrc.Reader.Open.{erf_open_memory}
use elfrc.Reader.Find.{strcmp_eq, erf_find_in, erf_resource_count, erf_resource_at}
use elfrc.Command.Text
use elfrc.Command.Elfresdump.Texts.{type_names, application_defined, resource_section}

-- `if (type < …) return names[type]`
unfoldable pub type_name : ℕ → List ℕ
type_name type =
    if ltb type (length type_names) then get_or type_names type [] else application_defined

-- The constants of `elf.h`, and its structs as they are read from memory.
pub record ElfView : Type 0 where
  pub sizeof_ehdr : ℕ
  pub sizeof_shdr : ℕ
  pub ehdr_of : List ℕ → Ehdr
  pub shdr_of : List ℕ → Shdr
  pub elfmag : List ℕ
  pub selfmag : ℕ
  pub ei_class : ℕ
  pub elfclass64 : ℕ
  pub ei_data : ℕ
  pub elfdata2lsb : ℕ

-- Why the program ends with exit code 1.
pub data Reason : Type 0 where
  not_opened not_statable not_mapped not_elf not_supported no_sections no_resource : Reason
  usage_shown output_missing name_missing not_written : Reason
  unknown_argument : List ℕ → Reason
  invalid_container : ErfError → Reason

-- A part of the program: it goes on, ends with exit code 1, or reads outside of the mapped file.
pub data Look {ℓ} (A : Type ℓ) : Type ℓ where
  seen : A → Look A
  stopped : Reason → Look A
  outside : Look A

infixl 5 ◌>>=◌ ◌>>◌
abbrev pub ◌>>=◌ {ℓ κ} : {A : Type ℓ} {B : Type κ} → Look A → (A → Look B) → Look B
seen a >>= f = f a
stopped r >>= f = stopped r
outside >>= f = outside

abbrev pub ◌>>◌ {ℓ} : {B : Type ℓ} → Look (Unit {0}) → Look B → Look B
m >> k = m >>= λ _. k

abbrev pub require : Bool → Reason → Look (Unit {0})
require true r = seen tt
require false r = stopped r

abbrev pub load {ℓ} : {A : Type ℓ} → Option A → Look A
load none = outside
load (some a) = seen a

-- A sequence that goes on has a first part that goes on.
pub >>=-eq-seen {ℓ κ} :
    {A : Type ℓ} {B : Type κ} (first : Look A) (next : A → Look B) {result : B}
    → (first >>= next) ≡ seen result
    → (mid : A) × (first ≡ seen mid) × (next mid ≡ seen result)
>>=-eq-seen outside next whole = cc
>>=-eq-seen (stopped r) next whole = cc
>>=-eq-seen (seen mid) next whole = (mid, refl, whole)

pub require-eq-seen : (b : Bool) (r : Reason) {u : Unit {0}} → require b r ≡ seen u → b ≡ true
require-eq-seen true r e = refl
require-eq-seen false r e = cc

pub load-eq-seen {ℓ} : {A : Type ℓ} (o : Option A) {a : A} → load o ≡ seen a → o ≡ some a
load-eq-seen none e = cc
load-eq-seen (some b) e = cc

-- The tests of the ELF header.
unfoldable pub check_ehdr : ElfView → ℕ → Ehdr → Look (Unit {0})
check_ehdr v file_size e = do
  require
      (get_or e.e_ident v.ei_class 0 == v.elfclass64
        && get_or e.e_ident v.ei_data 0 == v.elfdata2lsb)
      not_supported
  require
      (not (
        e.e_shoff == 0
        || (e.e_shnum == 0 || ltb file_size ((e.e_shoff + e.e_shnum * e.e_shentsize) % 2 ^ 64))))
      no_sections

-- `shdrs[i]`, of which all has to lie inside. A pointer is its offset from `base`, and wraps.
unfoldable pub section_header : ElfView → List ℕ → Ehdr → ℕ → Look Shdr
section_header v mem e i = do
  raw ← load (read mem ((e.e_shoff + i * v.sizeof_shdr) % 2 ^ 64) v.sizeof_shdr)
  seen (v.shdr_of raw)

-- The section's name is `.resource`.
unfoldable pub is_resource : List ℕ → ℕ → Shdr → Look Bool
is_resource mem names s =
    load (strcmp_eq (drop ((names + s.sh_name) % 2 ^ 64) mem) resource_section)

-- The loop over the sections from `i` on, with `left` rounds left.
unfoldable pub find_section : ElfView → List ℕ → Ehdr → ℕ → ℕ → ℕ → Look Shdr
find_section v mem e names zero i = stopped no_resource
find_section v mem e names (suc left) i = do
  s ← section_header v mem e i
  let rest = find_section v mem e names left (i + 1)
  hit ← is_resource mem names s
  if hit then seen s else rest

-- `memcmp` looks at the first bytes.
unfoldable pub read_ehdr : ElfView → List ℕ → Look Ehdr
read_ehdr v mem = do
  require (leb v.sizeof_ehdr (length mem)) not_elf
  magic ← load (read mem 0 v.selfmag)
  require (bytes_eq magic v.elfmag) not_elf
  raw ← load (read mem 0 v.sizeof_ehdr)
  seen (v.ehdr_of raw)

-- The `.resource` section's header.
unfoldable pub resource_section_of : ElfView → List ℕ → Look Shdr
resource_section_of v mem = do
  e ← read_ehdr v mem
  check_ehdr v (length mem) e
  names ← section_header v mem e e.e_shstrndx
  find_section v mem e names.sh_offset e.e_shnum 0

abbrev pub opened : Outcome Container → Look Container
opened (ok c) = seen c
opened (err e) = stopped (invalid_container e)
opened fault = outside

unfoldable pub open_section : ElfView → List ℕ → Look Container
open_section v mem = do
  s ← resource_section_of v mem
  opened (erf_open_memory (some (drop s.sh_offset mem)) s.sh_size)
