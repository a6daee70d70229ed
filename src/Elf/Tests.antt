-- ===== src/Elf/Tests.antt =====
-- The object around a small container.
use elfrc.Elf.Sample.{elf_h}
use elfrc.Base.{◌≡◌, refl, [], ◌∷◌, none, length}
use elfrc.Bytes.{le_bytes}
use elfrc.Elf.{symbol_name, start_tail, Ehdr}

default_name :
    symbol_name none start_tail
    ≡ b'_' ∷ b'e' ∷ b'l' ∷ b'f' ∷ b'r' ∷ b'_' ∷ b'r' ∷ b'e' ∷ b's' ∷ b'o' ∷ b'u' ∷ b'r' ∷ b'c'
      ∷ b'e' ∷ b'_' ∷ b's' ∷ b't' ∷ b'a' ∷ b'r' ∷ b't' ∷ []
unfolding symbol_name
default_name = refl

sized : (e : Ehdr) → length (elf_h.ehdr_bytes e) ≡ 64
unfolding le_bytes
sized e = refl
