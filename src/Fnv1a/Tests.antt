-- ===== src/Fnv1a/Tests.antt =====
-- The published values of FNV-1a.
use elfrc.Base.{List, [], ◌∷◌, ℕ, ◌≡◌, refl}
use elfrc.Fnv1a.{fnv64_loop, elfr_fnv1a64, fnv32_loop, elfr_fnv1a32}

abbrev foobar : List ℕ
foobar = b'f' ∷ b'o' ∷ b'o' ∷ b'b' ∷ b'a' ∷ b'r' ∷ []

hash_empty : elfr_fnv1a64 [] ≡ 0xcbf29ce484222325
unfolding fnv64_loop elfr_fnv1a64
hash_empty = refl

hash_foobar : elfr_fnv1a64 foobar ≡ 0x85944171f73967e8
unfolding fnv64_loop elfr_fnv1a64
hash_foobar = refl

hash32_foobar : elfr_fnv1a32 foobar ≡ 0xbf9cf968
unfolding fnv32_loop elfr_fnv1a32
hash32_foobar = refl
