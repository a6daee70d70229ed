-- ===== src/Fnv1a/Laws.antt =====
-- The hashes of fnv1a.c stay in their words and tell names apart that differ in one byte.
use elfrc.Base.{
  ℕ, ◌*◌, ◌%◌, ◌^◌, ◌<◌, ◌≡◌, ◌≢◌, refl, sym, ◌∙◌, arith, bit_xor, List, [], ◌∷◌, ◌++◌, All,
}
use elfrc.Bits.{bit_xor_injective, bit_xor-lt, bit_xor_comm}
use elfrc.Fnv1a.{fnv64_offset, fnv64_prime, fnv64_loop, elfr_fnv1a64, fnv32_loop, elfr_fnv1a32}

-- The prime is odd, so a product with it can be undone.
times_prime_injective :
    (a b : ℕ)
    → a < 2 ^ 64
    → b < 2 ^ 64
    → a * fnv64_prime % 2 ^ 64 ≡ b * fnv64_prime % 2 ^ 64
    → a ≡ b
times_prime_injective a b ha hb e = omega arith

fnv64_loop-lt : (hash : ℕ) (bytes : List ℕ) → hash < 2 ^ 64 → fnv64_loop hash bytes < 2 ^ 64
unfolding fnv64_loop
fnv64_loop-lt hash [] h = h
fnv64_loop-lt hash (b ∷ bs) h =
    fnv64_loop-lt (bit_xor hash b * fnv64_prime % 2 ^ 64) bs (omega arith)

-- The hash is a 64-bit word.
pub elfr_fnv1a64-lt : (bytes : List ℕ) → elfr_fnv1a64 bytes < 2 ^ 64
unfolding elfr_fnv1a64
elfr_fnv1a64-lt bytes = fnv64_loop-lt fnv64_offset bytes (omega arith)

fnv32_loop-lt : (hash : ℕ) (bytes : List ℕ) → hash < 2 ^ 32 → fnv32_loop hash bytes < 2 ^ 32
unfolding fnv32_loop
fnv32_loop-lt hash [] h = h
fnv32_loop-lt hash (b ∷ bs) h =
    fnv32_loop-lt (bit_xor hash b * 0x01000193 % 2 ^ 32) bs (omega arith)

pub elfr_fnv1a32-lt : (bytes : List ℕ) → elfr_fnv1a32 bytes < 2 ^ 32
unfolding elfr_fnv1a32
elfr_fnv1a32-lt bytes = fnv32_loop-lt 0x811c9dc5 bytes (omega arith)

fnv64_loop_injective :
    (a b : ℕ) (bytes : List ℕ)
    → a < 2 ^ 64
    → b < 2 ^ 64
    → All (λ x. x < 256) bytes
    → fnv64_loop a bytes ≡ fnv64_loop b bytes
    → a ≡ b
unfolding fnv64_loop
fnv64_loop_injective a b [] ha hb h e = e
fnv64_loop_injective a b (x ∷ xs) ha hb (hx, hxs) e = bit_xor_injective a b x (
    times_prime_injective (bit_xor a x) (bit_xor b x) (bit_xor-lt 64 a x ha (omega arith))
      (bit_xor-lt 64 b x hb (omega arith))
      (fnv64_loop_injective (bit_xor a x * fnv64_prime % 2 ^ 64)
        (bit_xor b x * fnv64_prime % 2 ^ 64) xs (omega arith) (omega arith) hxs e))

pub fnv64_loop-append :
    (hash : ℕ) (front back : List ℕ)
    → fnv64_loop hash (front ++ back) ≡ fnv64_loop (fnv64_loop hash front) back
unfolding fnv64_loop
fnv64_loop-append hash [] back = refl
fnv64_loop-append hash (b ∷ front) back =
    fnv64_loop-append (bit_xor hash b * fnv64_prime % 2 ^ 64) front back

-- Two names of bytes that differ in exactly one byte have different hashes.
elfr_fnv1a64_one_byte :
    (front back : List ℕ) (b b' : ℕ)
    → All (λ x. x < 256) back
    → b < 256
    → b' < 256
    → b ≢ b'
    → elfr_fnv1a64 (front ++ (b ∷ back)) ≢ elfr_fnv1a64 (front ++ (b' ∷ back))
unfolding elfr_fnv1a64 fnv64_loop
elfr_fnv1a64_one_byte front back b b' hk hb hb' ne e =
    let s = fnv64_loop fnv64_offset front in
    let hs = fnv64_loop-lt fnv64_offset front (omega arith) in
    let same =
      sym (fnv64_loop-append fnv64_offset front (b ∷ back))
      ∙ e
      ∙ fnv64_loop-append fnv64_offset front (b' ∷ back) in
    let multiplied = fnv64_loop_injective _ _ back (omega arith) (omega arith) hk same in
    let mixed =
      times_prime_injective (bit_xor s b) (bit_xor s b') (bit_xor-lt 64 s b hs (omega arith))
        (bit_xor-lt 64 s b' hs (omega arith)) multiplied in
    ne (bit_xor_injective b b' s (bit_xor_comm b s ∙ mixed ∙ bit_xor_comm s b'))
