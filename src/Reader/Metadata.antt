-- ===== src/Reader/Metadata.antt =====
-- The metadata block of a resource: a count, then for each entry a length-prefixed key and value,
-- each with a zero byte behind it.
pub mod Sound
pub mod Block
pub mod Written
use elfrc.Base.{
  ℕ, zero, suc, ◌+◌, ◌%◌, ◌^◌, List, Option, none, some, Bool, true, false, not, leb, ◌==◌,
  if◌then◌else◌,
}
use elfrc.Bytes.{read, le_value}
use elfrc.Reader.Container.{Resource, Container, in_bounds}

-- `failed` is the return value -1 (or 0 for the count); `fault` a read outside of the memory.
pub data Answer {ℓ} (A : Type ℓ) : Type ℓ where
  found : A → Answer A
  failed : Answer A
  fault : Answer A

infixl 5 ◌>>=◌ ◌>>◌
abbrev pub ◌>>=◌ {ℓ κ} : {A : Type ℓ} {B : Type κ} → Answer A → (A → Answer B) → Answer B
found a >>= f = f a
failed >>= f = failed
fault >>= f = fault

abbrev pub ◌>>◌ {ℓ} : {B : Type ℓ} → Answer (Unit {0}) → Answer B → Answer B
m >> k = m >>= λ _. k

abbrev pub require : Bool → Answer (Unit {0})
require true = found tt
require false = failed

abbrev pub load {ℓ} : {A : Type ℓ} → Option A → Answer A
load none = fault
load (some a) = found a

-- `if (!in_bounds(size, off, 4)) return -1; memcpy(&v, base + off, 4);`
unfoldable pub read_u32 : Container → ℕ → Answer ℕ
read_u32 c off = do
  require (in_bounds c.size off 4)
  raw ← load (read c.base off 4)
  found (le_value raw)

-- A string and its length: the offset of its bytes, and the offset behind its zero byte.
-- Offsets are uint64_t.
unfoldable pub read_string : Container → ℕ → Answer (ℕ × ℕ)
read_string c off = do
  len ← read_u32 c off
  let text = (off + 4) % 2 ^ 64
  require (in_bounds c.size text (len + 1))
  found (text, (text + (len + 1)) % 2 ^ 64)

-- One round: the key, the value, and the offset behind both.
unfoldable pub read_pair : Container → ℕ → Answer (ℕ × ℕ × ℕ)
read_pair c off = do k ← read_string c off; v ← read_string c k.1; found (k.0, v.0, v.1)

-- `for (i = 0; i <= index; i++)`: `index` rounds to skip, and then the one that is returned.
unfoldable pub nth_pair : Container → ℕ → ℕ → Answer (ℕ × ℕ)
nth_pair c zero off = do p ← read_pair c off; found (p.0, p.1)
nth_pair c (suc index) off = do p ← read_pair c off; nth_pair c index p.2

-- `(int)count`, as the bit pattern of the int: at 2^31 and above it is negative.
unfoldable pub erf_metadata_count : Option Container → Option Resource → Answer ℕ
erf_metadata_count none res = failed
erf_metadata_count (some c) none = failed
erf_metadata_count (some c) (some r) =
    if r.metadata_offset == 0 then failed else read_u32 c r.metadata_offset

-- The pointers to key and value. `index` is not negative here: a negative one is `none`.
unfoldable pub erf_metadata_get : Option Container → Option Resource → Option ℕ → Answer (ℕ × ℕ)
erf_metadata_get none res index = failed
erf_metadata_get (some c) none index = failed
erf_metadata_get (some c) (some r) none = failed
erf_metadata_get (some c) (some r) (some index) = if r.metadata_offset == 0 then failed else do
  count ← read_u32 c r.metadata_offset
  require (not (leb count index))
  nth_pair c index ((r.metadata_offset + 4) % 2 ^ 64)
