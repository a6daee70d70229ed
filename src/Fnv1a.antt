-- ===== src/Fnv1a.antt =====
-- src/common/fnv1a.c: the FNV-1a hashes of 64 and of 32 bits. A product is cut to the word's width.
pub mod Laws
mod Tests
use elfrc.Base.{ℕ, ◌*◌, ◌%◌, ◌^◌, bit_xor, List, [], ◌∷◌}

abbrev pub fnv64_offset : ℕ
fnv64_offset = 0xcbf29ce484222325

abbrev pub fnv64_prime : ℕ
fnv64_prime = 0x100000001b3

-- `hash ^= p[i]; hash *= 0x100000001b3ULL;` for each byte that is left.
unfoldable pub fnv64_loop : ℕ → List ℕ → ℕ
fnv64_loop hash [] = hash
fnv64_loop hash (b ∷ bs) = fnv64_loop (bit_xor hash b * fnv64_prime % 2 ^ 64) bs

unfoldable pub elfr_fnv1a64 : List ℕ → ℕ
elfr_fnv1a64 bytes = fnv64_loop fnv64_offset bytes

unfoldable pub fnv32_loop : ℕ → List ℕ → ℕ
fnv32_loop hash [] = hash
fnv32_loop hash (b ∷ bs) = fnv32_loop (bit_xor hash b * 0x01000193 % 2 ^ 32) bs

unfoldable pub elfr_fnv1a32 : List ℕ → ℕ
elfr_fnv1a32 bytes = fnv32_loop 0x811c9dc5 bytes
