-- ===== src/Crc64/Detect.antt =====
-- What the checksum of crc64.c detects: one wrong byte, anywhere in a message of any length.
use elfrc.Base.{
  ℕ, zero, suc, ◌/◌, ◌%◌, ◌^◌, ◌<◌, ◌≡◌, ◌≢◌, refl, sym, ap, ◌∙◌, inl, inr, arith, bit_xor, List,
  [], ◌∷◌, ◌++◌, All,
}
use elfrc.Bits.{bit_xor_injective, bit_xor-lt, bit_xor_comm, bit_xor_shift, bit_xor-zero}
use elfrc.Crc64.{crc64_poly, all_ones, crc_shift, crc_shifts, elfr_crc64}
use elfrc.Crc64.Bitwise.{
  IsByte, crc64_register, crc64_bitwise, crc_shift_odd, crc_shift_even, elfr_crc64-eq-crc64_bitwise,
  parity,
}

abbrev IsU64 : ℕ → Type 0
IsU64 x = x < 2 ^ 64

crc_shift-lt : (c : ℕ) → IsU64 c → IsU64 (crc_shift c)
crc_shift-lt c h = elim (parity c) [
  | inl p ↦ rw (crc_shift_even c p) (omega arith)
  | inr p ↦ rw (crc_shift_odd c p) (bit_xor-lt 64 crc64_poly (c / 2) (omega arith) (omega arith))
]

-- The top bit of the shifted register is the bit that was shifted out.
top_bit : (c : ℕ) → IsU64 c → crc_shift c / 2 ^ 63 ≡ c % 2
top_bit c h =
    let e : c / 2 / 2 ^ 63 ≡ 0 = omega arith in
    elim (parity c) [
      | inl p ↦ rw (crc_shift_even c p) (omega arith)
      | inr p ↦ rw (crc_shift_odd c p, bit_xor_shift 63 crc64_poly (c / 2), e, bit_xor-zero, p) refl
    ]

halves : (a b : ℕ) → a / 2 ≡ b / 2 → a % 2 ≡ b % 2 → a ≡ b
halves a b p q = omega arith

crc_shift_injective : (a b : ℕ) → IsU64 a → IsU64 b → crc_shift a ≡ crc_shift b → a ≡ b
crc_shift_injective a b ha hb e =
    let same : a % 2 ≡ b % 2 = sym (top_bit a ha) ∙ ap (λ (t : ℕ). t / 2 ^ 63) e ∙ top_bit b hb in
    elim (parity a) [
      | inl p ↦ halves a b (sym (crc_shift_even a p) ∙ e ∙ crc_shift_even b (omega arith)) same
      | inr p ↦
          let f : bit_xor crc64_poly (a / 2) ≡ bit_xor crc64_poly (b / 2) =
            sym (crc_shift_odd a p) ∙ e ∙ crc_shift_odd b (omega arith) in
          halves a b
            (bit_xor_injective (a / 2) (b / 2) crc64_poly (bit_xor_comm _ _ ∙ f ∙ bit_xor_comm _ _))
            same
    ]

pub crc_shifts-lt : (k c : ℕ) → IsU64 c → IsU64 (crc_shifts k c)
unfolding crc_shifts
crc_shifts-lt zero c h = h
crc_shifts-lt (suc k) c h = crc_shifts-lt k (crc_shift c) (crc_shift-lt c h)

crc_shifts_injective : (k a b : ℕ) → IsU64 a → IsU64 b → crc_shifts k a ≡ crc_shifts k b → a ≡ b
unfolding crc_shifts
crc_shifts_injective zero a b ha hb e = e
crc_shifts_injective (suc k) a b ha hb e =
    crc_shift_injective a b ha hb
      (crc_shifts_injective k (crc_shift a) (crc_shift b) (crc_shift-lt a ha) (crc_shift-lt b hb) e)

absorb-lt : (c b : ℕ) → IsU64 c → IsByte b → IsU64 (bit_xor c b)
absorb-lt c b hc hb = bit_xor-lt 64 c b hc (omega arith)

-- Distinct registers stay distinct, whatever bytes follow.
crc64_register_injective :
    (a b : ℕ) (bytes : List ℕ)
    → IsU64 a
    → IsU64 b
    → All IsByte bytes
    → crc64_register a bytes ≡ crc64_register b bytes
    → a ≡ b
unfolding crc64_register
crc64_register_injective a b [] ha hb h e = e
crc64_register_injective a b (x ∷ xs) ha hb (hx, hxs) e =
    let pa = absorb-lt a x ha hx in
    let pb = absorb-lt b x hb hx in
    bit_xor_injective a b x (
      crc_shifts_injective 8 _ _ pa pb (
        crc64_register_injective (crc_shifts 8 (bit_xor a x)) (crc_shifts 8 (bit_xor b x)) xs
          (crc_shifts-lt 8 _ pa) (crc_shifts-lt 8 _ pb) hxs e))

crc64_register-append :
    (c : ℕ) (front back : List ℕ)
    → crc64_register c (front ++ back) ≡ crc64_register (crc64_register c front) back
unfolding crc64_register
crc64_register-append c [] back = refl
crc64_register-append c (x ∷ front) back =
    crc64_register-append (crc_shifts 8 (bit_xor c x)) front back

crc64_register-lt :
    (c : ℕ) (bytes : List ℕ) → IsU64 c → All IsByte bytes → IsU64 (crc64_register c bytes)
unfolding crc64_register
crc64_register-lt c [] hc h = hc
crc64_register-lt c (x ∷ xs) hc (hx, hxs) =
    crc64_register-lt (crc_shifts 8 (bit_xor c x)) xs (crc_shifts-lt 8 _ (absorb-lt c x hc hx)) hxs

All-append {ℓ κ} :
    {A : Type ℓ} (P : A → Type κ) (xs ys : List A) → All P xs → All P ys → All P (xs ++ ys)
All-append P [] ys h k = k
All-append P (x ∷ xs) ys (hx, hxs) k = (hx, All-append P xs ys hxs k)

-- The checksum is a 64-bit word.
pub elfr_crc64-lt : (bytes : List ℕ) → All IsByte bytes → IsU64 (elfr_crc64 bytes)
unfolding crc64_bitwise
elfr_crc64-lt bytes h =
    rw (elfr_crc64-eq-crc64_bitwise bytes h)
      (bit_xor-lt 64 _ all_ones (crc64_register-lt all_ones bytes (omega arith) h) (omega arith))

-- Two messages of bytes that differ in exactly one byte have different checksums.
pub elfr_crc64_detects_byte :
    (front back : List ℕ) (b b' : ℕ)
    → All IsByte front
    → All IsByte back
    → IsByte b
    → IsByte b'
    → b ≢ b'
    → elfr_crc64 (front ++ (b ∷ back)) ≢ elfr_crc64 (front ++ (b' ∷ back))
unfolding crc64_bitwise crc64_register
elfr_crc64_detects_byte front back b b' hf hk hb hb' ne e =
    let s = crc64_register all_ones front in
    let hs = crc64_register-lt all_ones front (omega arith) hf in
    let same : crc64_register s (b ∷ back) ≡ crc64_register s (b' ∷ back) =
      sym (crc64_register-append all_ones front (b ∷ back))
      ∙ bit_xor_injective _ _ all_ones (
          sym (elfr_crc64-eq-crc64_bitwise _ (All-append IsByte front (b ∷ back) hf (hb, hk)))
          ∙ e
          ∙ elfr_crc64-eq-crc64_bitwise _ (All-append IsByte front (b' ∷ back) hf (hb', hk)))
      ∙ crc64_register-append all_ones front (b' ∷ back) in
    let absorbed : bit_xor s b ≡ bit_xor s b' =
      crc_shifts_injective 8 _ _ (absorb-lt s b hs hb) (absorb-lt s b' hs hb') (
        crc64_register_injective _ _ back (crc_shifts-lt 8 _ (absorb-lt s b hs hb))
          (crc_shifts-lt 8 _ (absorb-lt s b' hs hb')) hk same) in
    ne (bit_xor_injective b b' s (bit_xor_comm b s ∙ absorbed ∙ bit_xor_comm s b'))
