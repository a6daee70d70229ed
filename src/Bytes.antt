-- ===== src/Bytes.antt =====
-- Memory as a sequence of bytes: little-endian words, reads with their bounds, and C strings.
-- The format is little-endian and so is the only machine that the program supports, so `memcpy`
-- from and to a struct is the encoding of its fields.
pub mod Laws
pub mod Sits
use elfrc.Base.{
  ℕ, zero, suc, ◌+◌, ◌*◌, ◌/◌, ◌%◌, List, [], ◌∷◌, ◌++◌, Option, none, some, Bool, true, false,
  ◌&&◌, leb, ◌==◌, if◌then◌else◌, length, take, drop,
}

-- The `w` bytes of the word `v`, lowest first.
unfoldable pub le_bytes : ℕ → ℕ → List ℕ
le_bytes zero v = []
le_bytes (suc w) v = v % 256 ∷ le_bytes w (v / 256)

unfoldable pub le_value : List ℕ → ℕ
le_value [] = 0
le_value (b ∷ bs) = b + 256 * le_value bs

-- The `len` bytes at `off`; `none` if they do not all lie in the memory.
unfoldable pub read : List ℕ → ℕ → ℕ → Option (List ℕ)
read mem off len = if leb (off + len) (length mem) then some (take len (drop off mem)) else none

-- The bytes up to the terminating zero, which is found before the memory ends or not.
unfoldable pub c_string : List ℕ → Option (List ℕ)
c_string [] = none
c_string (b ∷ bs) =
    let rest = c_string bs in
    if b == 0 then some [] else elim rest [ none ↦ none | some s ↦ some (b ∷ s) ]

-- The C string that starts at `off`.
unfoldable pub string_at : List ℕ → ℕ → Option (List ℕ)
string_at mem off = c_string (drop off mem)

-- A string as it stands in memory.
abbrev pub with_nul : List ℕ → List ℕ
with_nul s = s ++ (0 ∷ [])

-- `strcmp(a, b) == 0`, and equality of byte sequences in general.
unfoldable pub bytes_eq : List ℕ → List ℕ → Bool
bytes_eq [] [] = true
bytes_eq [] (y ∷ ys) = false
bytes_eq (x ∷ xs) [] = false
bytes_eq (x ∷ xs) (y ∷ ys) = x == y && bytes_eq xs ys
