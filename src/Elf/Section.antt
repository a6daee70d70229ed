-- ===== src/Elf/Section.antt =====
-- Where the container stands in the object.
use elfrc.Base.{
  ℕ, ◌+◌, ◌%◌, ◌≤◌, ◌≡◌, refl, sym, ap, ◌∙◌, arith, List, [], ◌++◌, Option, length, take, drop,
  replicate, length-append, length-drop, append-nil, append_assoc, drop-append, take-append,
  length-replicate,
}
use native.Mathlib.Nat.{zero-add}
use elfrc.ByteBuf.Refine.{buf_append_zeros, buf_align, padding, padding_lem}
use elfrc.Bytes.Sits.{drop-within}
use elfrc.Container.Build.{overwrite}
use elfrc.Elf.{Ehdr, ElfH}
use elfrc.Elf.Object.{place, resource_shdr, file_header, section_headers, elf_object}

-- The bytes `a` are the first of `b`.
abbrev StartsWith : List ℕ → List ℕ → Type 0
StartsWith b a = (rest : List ℕ) × (b ≡ a ++ rest)

StartsWith-append : (a b more : List ℕ) → StartsWith b a → StartsWith (b ++ more) a
StartsWith-append a b more (rest, e) =
    (rest ++ more, ap (λ t. t ++ more) e ∙ append_assoc a rest more)

-- The bytes behind `front` are not touched by what is written over its beginning.
kept_behind :
    (front content rest over : List ℕ)
    → length over ≤ length front
    → take (length content) (drop (length front) (overwrite (front ++ (content ++ rest)) 0 over))
      ≡ content
kept_behind front content rest over fits =
    let k = length over in
    let moved : over ++ drop k (front ++ (content ++ rest))
        ≡ (over ++ drop k front) ++ (content ++ rest) =
      ap (λ t. over ++ t) (drop-within k front (content ++ rest) fits)
      ∙ sym (append_assoc over (drop k front) (content ++ rest)) in
    let behind : length front ≡ length (over ++ drop k front) =
      omega (arith, length-append over (drop k front), length-drop k front) in
    ap
      (λ n.
        take (length content) (drop (length front) (over ++ drop n (front ++ (content ++ rest)))))
      (zero-add k)
    ∙ ap (λ t. take (length content) (drop (length front) t)) moved
    ∙ ap (take (length content))
        (drop-append (over ++ drop k front) (content ++ rest) (length front) behind)
    ∙ take-append content rest (length content) refl

-- The file header's room, up to the container.
abbrev room : ElfH → List ℕ
room h = buf_align (buf_append_zeros [] h.sizeof_ehdr) 16

length-room : (h : ElfH) → length (room h) ≡ h.sizeof_ehdr + padding h.sizeof_ehdr 16
length-room h =
    let zeros : List ℕ = replicate h.sizeof_ehdr 0 in
    length-append zeros (replicate (padding (length zeros) 16) 0)
    ∙ ap (λ n. length zeros + n) (length-replicate {A = ℕ} (padding (length zeros) 16) 0)
    ∙ ap (λ n. n + padding n 16) (length-replicate {A = ℕ} h.sizeof_ehdr 0)

-- Everything in the file is appended behind the container.
object-StartsWith :
    (h : ElfH) (content : List ℕ) (prefix : Option (List ℕ)) (more : List ℕ)
    → StartsWith ((place h content prefix).file ++ more) (room h ++ content)
unfolding place
object-StartsWith h content prefix more =
    let first = room h ++ content in
    StartsWith-append first _ more (
      StartsWith-append first _ _ (
        StartsWith-append first _ _ (
          StartsWith-append first _ _ (
            StartsWith-append first _ _ (
              StartsWith-append first _ _
                (StartsWith-append first _ _ ([], sym (append-nil first))))))))

-- The section header of `.resource` names the bytes of the container, and nothing else: they stand
-- at its offset, which is a multiple of its alignment and behind the file header, if `elf.h` encodes
-- a file header in as many bytes as its size says.
pub elf_object-section :
    (h : ElfH) (content : List ℕ) (prefix : Option (List ℕ))
    → ((e : Ehdr) → length (h.ehdr_bytes e) ≡ h.sizeof_ehdr)
    → let s = resource_shdr h (place h content prefix) (length content) in
      (take s.sh_size (drop s.sh_offset (elf_object h content prefix)) ≡ content)
      × (s.sh_offset % s.sh_addralign ≡ 0)
      × (h.sizeof_ehdr ≤ s.sh_offset)
unfolding place resource_shdr elf_object
elf_object-section h content prefix sized =
    let p = place h content prefix in
    let over = h.ehdr_bytes (file_header h p) in
    let (rest, e) =
      object-StartsWith h content prefix (section_headers h p (length content) prefix) in
    let whole = e ∙ append_assoc (room h) content rest in
    let long = length-room h in
    (
      ap (λ t. take (length content) (drop (length (room h)) (overwrite t 0 over))) whole
          ∙ kept_behind (room h) content rest over (omega (arith, long, sized (file_header h p))),
      ap (λ n. n % 16) long ∙ (padding_lem h.sizeof_ehdr 16 (omega arith)).0,
      omega (arith, long),
    )
