-- ===== src/Crc64.antt =====
-- src/common/crc64.c: CRC-64/XZ with a table of 256 entries that the constructor
-- `crc64_init_table` fills.
pub mod Bitwise
pub mod Detect
pub mod Range
mod Tests
use elfrc.Base.{
  ℕ, zero, suc, ◌+◌, ◌/◌, ◌^◌, bit_and, bit_xor, List, [], ◌∷◌, ◌==◌, if◌then◌else◌, get_or,
}

abbrev pub crc64_poly : ℕ
crc64_poly = 0xC96C5795D7870F42

abbrev pub all_ones : ℕ
all_ones = 0xFFFFFFFFFFFFFFFF

-- `c = (c & 1) ? (CRC64_POLY ^ (c >> 1)) : (c >> 1)`
unfoldable pub crc_shift : ℕ → ℕ
crc_shift c = if bit_and c 1 == 0 then c / 2 else bit_xor crc64_poly (c / 2)

-- The inner loop, with `k` rounds left.
unfoldable pub crc_shifts : ℕ → ℕ → ℕ
crc_shifts zero c = c
crc_shifts (suc k) c = crc_shifts k (crc_shift c)

-- The outer loop from index `i` on, with `n` rounds left.
unfoldable pub crc64_init_from : ℕ → ℕ → List ℕ
crc64_init_from zero i = []
crc64_init_from (suc n) i = crc_shifts 8 i ∷ crc64_init_from n (i + 1)

unfoldable pub crc64_table : List ℕ
crc64_table = crc64_init_from 256 0

-- The loop of `elfr_crc64` over the bytes that are left. The index is below 256, the table's size.
unfoldable pub crc64_loop : ℕ → List ℕ → ℕ
crc64_loop crc [] = crc
crc64_loop crc (b ∷ bs) =
    crc64_loop (bit_xor (get_or crc64_table (bit_and (bit_xor crc b) 0xff) 0) (crc / 2 ^ 8)) bs

unfoldable pub elfr_crc64 : List ℕ → ℕ
elfr_crc64 bytes = bit_xor (crc64_loop all_ones bytes) all_ones
