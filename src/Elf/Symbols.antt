-- ===== src/Elf/Symbols.antt =====
-- The two symbols that bound the container.
use elfrc.Base.{
  ℕ, zero, suc, ◌+◌, ◌*◌, ◌%◌, ◌^◌, ◌≤◌, ◌<◌, ◌≡◌, refl, ap, subst, arith, List, [], ◌∷◌, ◌++◌,
  Option, none, some, length, take, get_or,
}
use elfrc.Bytes.{string_at, with_nul}
use elfrc.Bytes.Laws.{IsCString}
use elfrc.Bytes.Sits.{Sits, Sits-left, Sits-right, Sits-room, string_at-Sits}
use elfrc.Elf.{Ehdr, Sym, ElfH, elfr_text, start_tail, end_tail, symbol_name, append_names, strtab}
use elfrc.Elf.Object.{place, boundary, null_sym, symtab_bytes, elf_object}
use elfrc.Elf.Parts.{HasParts, elf_object-HasParts}

-- `_elfr_PREFIX_resource_start`, or `_elfr_resource_start` if there is no prefix or it is empty, and
-- so for the end.
abbrev pub full_name : Option (List ℕ) → List ℕ → List ℕ
full_name none tail = elfr_text ++ tail
full_name (some []) tail = elfr_text ++ tail
full_name (some (b ∷ s)) tail = elfr_text ++ (b'_' ∷ (b ∷ s) ++ tail)

-- Symbol `i` of the object is a global object of section 1, at `value` of it, with this name.
pub record IsBoundary (h : ElfH) (object : List ℕ) (symbols names i : ℕ) (name : List ℕ) (value : ℕ)
    : Type 0 where
  pub symbol : Sym
  pub sits : Sits object (symbols + i * h.sizeof_sym) (h.sym_bytes symbol)
  pub named : string_at object (names + symbol.st_name) ≡ some name
  pub value_is : symbol.st_value ≡ value
  pub section : symbol.st_shndx ≡ 1
  pub info : symbol.st_info ≡ h.st_info_of h.stb_global h.stt_object % 256

take_short : (xs : List ℕ) (n : ℕ) → length xs ≤ n → take n xs ≡ xs
take_short [] zero le = refl
take_short [] (suc n) le = refl
take_short (x ∷ xs) zero le = absurd (omega arith)
take_short (x ∷ xs) (suc n) le = ap (λ l. x ∷ l) (take_short xs n (omega arith))

symbol_name-eq-full_name :
    (prefix : Option (List ℕ)) (tail : List ℕ)
    → length (full_name prefix tail) ≤ 255
    → symbol_name prefix tail ≡ full_name prefix tail
unfolding symbol_name
symbol_name-eq-full_name none tail le = take_short (full_name none tail) 255 le
symbol_name-eq-full_name (some []) tail le = take_short (full_name (some []) tail) 255 le
symbol_name-eq-full_name (some (b ∷ s)) tail le = take_short (full_name (some (b ∷ s)) tail) 255 le

module _ (h : ElfH) (content : List ℕ) (prefix : Option (List ℕ))
    (ehdr_sized : (e : Ehdr) → length (h.ehdr_bytes e) ≡ h.sizeof_ehdr)
    (sym_sized : (s : Sym) → length (h.sym_bytes s) ≡ h.sizeof_sym)
    (start_short : length (full_name prefix start_tail) ≤ 255)
    (end_short : length (full_name prefix end_tail) ≤ 255)
    (start_ok : IsCString (full_name prefix start_tail))
    (end_ok : IsCString (full_name prefix end_tail)) where
  abbrev object : List ℕ
  object = elf_object h content prefix

  parts : HasParts h content prefix object
  parts = elf_object-HasParts h content prefix ehdr_sized

  abbrev start_name : List ℕ
  start_name = full_name prefix start_tail

  abbrev end_name : List ℕ
  end_name = full_name prefix end_tail

  abbrev end_at : ℕ
  end_at = suc (length (with_nul start_name))

  -- The offsets of the two names, and the table.
  strtab_lem :
      ◌≡◌ {A = List ℕ × List ℕ}
        (strtab prefix)
        (1 ∷ (end_at ∷ []), 0 ∷ (with_nul start_name ++ with_nul end_name))
  unfolding strtab append_names
  strtab_lem =
      rw
        (
          symbol_name-eq-full_name prefix start_tail start_short,
          symbol_name-eq-full_name prefix end_tail end_short,
        )
        refl

  names_sit :
      Sits object
        (place h content prefix).strtab_off
        (0 ∷ (with_nul start_name ++ with_nul end_name))
  names_sit =
      subst (λ (t : List ℕ × List ℕ). Sits object (place h content prefix).strtab_off t.1)
        strtab_lem parts.symbol_names

  start_sits : Sits object ((place h content prefix).strtab_off + 1) (with_nul start_name)
  start_sits =
      Sits-left (with_nul start_name) (with_nul end_name)
        (Sits-right (0 ∷ []) (with_nul start_name ++ with_nul end_name) names_sit)

  end_sits : Sits object ((place h content prefix).strtab_off + end_at) (with_nul end_name)
  end_sits =
      subst (λ k. Sits object k (with_nul end_name)) (omega arith)
        (Sits-right (with_nul start_name) (with_nul end_name)
          (Sits-right (0 ∷ []) (with_nul start_name ++ with_nul end_name) names_sit))

  abbrev start_symbol : Sym
  start_symbol = boundary h 1 0

  abbrev end_symbol : Sym
  end_symbol = boundary h end_at (length content)

  symtab_lem :
      symtab_bytes h prefix (length content)
      ≡ h.sym_bytes (null_sym h) ++ (h.sym_bytes start_symbol ++ h.sym_bytes end_symbol)
  unfolding symtab_bytes
  symtab_lem =
      ap
        (λ (t : List ℕ × List ℕ).
          h.sym_bytes (null_sym h)
          ++ (h.sym_bytes (boundary h (get_or t.0 0 0) 0)
              ++ h.sym_bytes (boundary h (get_or t.0 1 0) (length content))))
        strtab_lem

  second_sits :
      Sits object
        ((place h content prefix).symtab_off + h.sizeof_sym)
        (h.sym_bytes start_symbol ++ h.sym_bytes end_symbol)
  second_sits =
      subst
        (λ n.
          Sits object ((place h content prefix).symtab_off + n)
            (h.sym_bytes start_symbol ++ h.sym_bytes end_symbol))
        (sym_sized (null_sym h))
        (Sits-right (h.sym_bytes (null_sym h)) _
          (subst (Sits object (place h content prefix).symtab_off) symtab_lem parts.symbols))

  -- The two symbols stand behind the null symbol, and their names in the table.
  pub elf_object-symbols :
      length object < 2 ^ 32
      → (let p = place h content prefix in
          IsBoundary h object p.symtab_off p.strtab_off 1 start_name 0
          × IsBoundary h object p.symtab_off p.strtab_off 2 end_name (length content))
  elf_object-symbols small =
      let p = place h content prefix in
      let room = Sits-room end_sits in
      (
        record {
          symbol = start_symbol;
          sits =
              subst (λ k. Sits object k (h.sym_bytes start_symbol)) (omega arith)
                (Sits-left (h.sym_bytes start_symbol) (h.sym_bytes end_symbol) second_sits);
          named = string_at-Sits start_name start_ok start_sits;
          value_is = refl;
          section = refl;
          info = refl;
        },
        record {
          symbol = end_symbol;
          sits =
              subst (λ k. Sits object k (h.sym_bytes end_symbol))
                (omega (arith, sym_sized start_symbol))
                (Sits-right (h.sym_bytes start_symbol) (h.sym_bytes end_symbol) second_sits);
          named =
              subst (λ (k : ℕ). string_at object (p.strtab_off + k) ≡ some end_name)
                (omega (arith, room)) (string_at-Sits end_name end_ok end_sits);
          value_is = refl;
          section = refl;
          info = refl;
        },
      )
