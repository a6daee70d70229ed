-- ===== src/Crc64/Range.antt =====
-- The checksum is a 64-bit word, whatever the bytes are.
use elfrc.Base.{
  ℕ, zero, suc, ◌+◌, ◌/◌, ◌≤◌, ◌^◌, ◌<◌, arith, List, [], ◌∷◌, get_or, bit_and, bit_xor,
}
use elfrc.Bits.{bit_xor-lt}
use elfrc.Crc64.{all_ones, crc64_init_from, crc64_table, crc64_loop, elfr_crc64}
use elfrc.Crc64.Detect.{crc_shifts-lt}

init-lt : (n i j : ℕ) → i + n ≤ 256 → get_or (crc64_init_from n i) j 0 < 2 ^ 64
unfolding crc64_init_from
init-lt zero i j le = omega arith
init-lt (suc n) i zero le = crc_shifts-lt 8 i (omega arith)
init-lt (suc n) i (suc j) le = init-lt n (i + 1) j (omega arith)

table-lt : (j : ℕ) → get_or crc64_table j 0 < 2 ^ 64
unfolding crc64_table
table-lt j = init-lt 256 0 j (omega arith)

loop-lt : (crc : ℕ) (bytes : List ℕ) → crc < 2 ^ 64 → crc64_loop crc bytes < 2 ^ 64
unfolding crc64_loop
loop-lt crc [] h = h
loop-lt crc (b ∷ bs) h =
    loop-lt (bit_xor (get_or crc64_table (bit_and (bit_xor crc b) 0xff) 0) (crc / 2 ^ 8)) bs (
      bit_xor-lt 64 (get_or crc64_table (bit_and (bit_xor crc b) 0xff) 0) (crc / 2 ^ 8)
        (table-lt (bit_and (bit_xor crc b) 0xff)) (omega arith))

pub elfr_crc64_word : (bytes : List ℕ) → elfr_crc64 bytes < 2 ^ 64
unfolding elfr_crc64
elfr_crc64_word bytes =
    bit_xor-lt 64 (crc64_loop all_ones bytes) all_ones (loop-lt all_ones bytes (omega arith))
      (omega arith)
