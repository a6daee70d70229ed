-- ===== src/Crc64/Bitwise.antt =====
-- The table of crc64.c against the checksum's definition, one bit at a time.
use elfrc.Base.{
  ℕ, zero, suc, ◌+◌, ◌*◌, ◌/◌, ◌%◌, ◌^◌, ◌<◌, ◌≡◌, refl, sym, ap, ◌⊎◌, inl, inr, arith, bit_and,
  bit_xor, List, [], ◌∷◌, get_or, All,
}
use elfrc.Bits.{
  zero-bit_xor, bit_xor-zero, bit_xor_self, bit_xor_assoc, bit_xor_left_comm, bit_xor_half,
  bit_xor_parity, bit_xor_fields, bit_xor_shift, bit_and_byte, bit_and-one,
}
use elfrc.Crc64.{
  crc64_poly, all_ones, crc_shift, crc_shifts, crc64_init_from, crc64_table, crc64_loop, elfr_crc64,
}
use native.Mathlib.Nat.{pow-suc, add-zero}
use Prim.Native.Nat.add
use mathlib.Core.Path.{◌≡⟨◌⟩◌, ◌∎}

abbrev pub IsByte : ℕ → Type 0
IsByte b = b < 256

-- CRC-64/XZ as its catalogue entry defines it: each byte is added to the register's low end, and
-- the register is shifted out eight times. No table.
unfoldable pub crc64_register : ℕ → List ℕ → ℕ
crc64_register crc [] = crc
crc64_register crc (b ∷ bs) = crc64_register (crc_shifts 8 (bit_xor crc b)) bs

unfoldable pub crc64_bitwise : List ℕ → ℕ
crc64_bitwise bytes = bit_xor (crc64_register all_ones bytes) all_ones

pub crc_shift_odd : (c : ℕ) → c % 2 ≡ 1 → crc_shift c ≡ bit_xor crc64_poly (c / 2)
unfolding crc_shift
crc_shift_odd c h = ground (arith, bit_and-one c)

pub crc_shift_even : (c : ℕ) → c % 2 ≡ 0 → crc_shift c ≡ c / 2
unfolding crc_shift
crc_shift_even c h = ground (arith, bit_and-one c)

pub parity : (c : ℕ) → (c % 2 ≡ 0) ⊎ (c % 2 ≡ 1)
parity c = ground arith

xor_pair : (p x y : ℕ) → bit_xor (bit_xor p x) (bit_xor p y) ≡ bit_xor x y
xor_pair p x y =
    rw (bit_xor_assoc p x (bit_xor p y), bit_xor_left_comm x p y, ← bit_xor_assoc p p)
      (rw (bit_xor_self p) (zero-bit_xor (bit_xor x y)))

-- One shift is linear.
crc_shift-bit_xor : (a b : ℕ) → crc_shift (bit_xor a b) ≡ bit_xor (crc_shift a) (crc_shift b)
crc_shift-bit_xor a b =
    let half = bit_xor_half a b in
    let par = bit_xor_parity a b in
    elim (parity a) [
      | inl p ↦ elim (parity b) [
        | inl q ↦
            rw (crc_shift_even (bit_xor a b) (omega arith), crc_shift_even a p, crc_shift_even b q)
              half
        | inr q ↦
            rw
              (
                crc_shift_odd (bit_xor a b) (omega arith),
                crc_shift_even a p,
                crc_shift_odd b q,
                half,
              )
              (bit_xor_left_comm _ _ _)
      ]
      | inr p ↦ elim (parity b) [
        | inl q ↦
            rw
              (
                crc_shift_odd (bit_xor a b) (omega arith),
                crc_shift_odd a p,
                crc_shift_even b q,
                half,
              )
              (sym (bit_xor_assoc _ _ _))
        | inr q ↦
            rw
              (
                crc_shift_even (bit_xor a b) (omega arith),
                crc_shift_odd a p,
                crc_shift_odd b q,
                half,
              )
              (sym (xor_pair crc64_poly _ _))
      ]
    ]

crc_shifts-bit_xor :
    (k a b : ℕ) → crc_shifts k (bit_xor a b) ≡ bit_xor (crc_shifts k a) (crc_shifts k b)
unfolding crc_shifts
crc_shifts-bit_xor zero a b = refl
crc_shifts-bit_xor (suc k) a b =
    rw (crc_shift-bit_xor a b) (crc_shifts-bit_xor k (crc_shift a) (crc_shift b))

-- Shifting out zeros only moves the register down.
crc_shifts_zeros : (k y : ℕ) → crc_shifts k (y * 2 ^ k) ≡ y
unfolding crc_shifts
crc_shifts_zeros zero y = omega arith
crc_shifts_zeros (suc k) y =
    let e : y * 2 ^ suc k ≡ y * 2 ^ k * 2 = omega (arith, ap (λ (t : ℕ). y * t) (pow-suc 2 k)) in
    let half : y * 2 ^ k * 2 / 2 ≡ y * 2 ^ k = omega arith in
    rw (e, crc_shift_even (y * 2 ^ k * 2) (omega arith), half) (crc_shifts_zeros k y)

table_entry : (n i j : ℕ) → j < n → get_or (crc64_init_from n i) j 0 ≡ crc_shifts 8 (i + j)
unfolding crc64_init_from
table_entry zero i j h = absurd (omega arith)
table_entry (suc n) i zero h = rw add-zero
table_entry (suc n) i (suc j) h =
    let e : i + suc j ≡ i + 1 + j = omega arith in rw e (table_entry n (i + 1) j (omega arith))

-- One round of `elfr_crc64`: the table entry for the low byte and the shifted rest are the eight
-- shifts of the register.
table_round :
    (crc b : ℕ)
    → b < 256
    → bit_xor (get_or crc64_table (bit_and (bit_xor crc b) 0xff) 0) (crc / 2 ^ 8)
      ≡ crc_shifts 8 (bit_xor crc b)
unfolding crc64_table
table_round crc b h =
    let x = bit_xor crc b in
    let high : x / 2 ^ 8 ≡ crc / 2 ^ 8 =
      rw (bit_xor_shift 8 crc b) (let e : b / 2 ^ 8 ≡ 0 = omega arith in rw e (bit_xor-zero _)) in
    let split : x ≡ bit_xor (x % 256) (x / 2 ^ 8 * 2 ^ 8) =
      rw (bit_xor_fields 8 (x % 256) (x / 2 ^ 8) (omega arith)) (omega arith) in
    rw (bit_and_byte x, table_entry 256 0 (x % 256) (omega arith), ← high, add.zero)
      (sym (
        crc_shifts 8 x
        ≡⟨ ap (crc_shifts 8) split ⟩ crc_shifts 8 (bit_xor (x % 256) (x / 2 ^ 8 * 2 ^ 8))
        ≡⟨ crc_shifts-bit_xor 8 (x % 256) (x / 2 ^ 8 * 2 ^ 8) ⟩
          bit_xor (crc_shifts 8 (x % 256)) (crc_shifts 8 (x / 2 ^ 8 * 2 ^ 8))
        ≡⟨ ap (bit_xor (crc_shifts 8 (x % 256))) (crc_shifts_zeros 8 (x / 2 ^ 8)) ⟩
          bit_xor (crc_shifts 8 (x % 256)) (x / 2 ^ 8) ∎))

crc64_loop-eq-crc64_register :
    (crc : ℕ) (bytes : List ℕ) → All IsByte bytes → crc64_loop crc bytes ≡ crc64_register crc bytes
unfolding crc64_loop crc64_register
crc64_loop-eq-crc64_register crc [] h = refl
crc64_loop-eq-crc64_register crc (b ∷ bs) (hb, hbs) =
    rw (table_round crc b hb) (crc64_loop-eq-crc64_register (crc_shifts 8 (bit_xor crc b)) bs hbs)

-- `elfr_crc64` computes CRC-64/XZ: on bytes, the loop over the table gives what shifting the
-- register out bit by bit gives.
pub elfr_crc64-eq-crc64_bitwise :
    (bytes : List ℕ) → All IsByte bytes → elfr_crc64 bytes ≡ crc64_bitwise bytes
unfolding elfr_crc64 crc64_bitwise
elfr_crc64-eq-crc64_bitwise bytes h =
    ap (λ (t : ℕ). bit_xor t all_ones) (crc64_loop-eq-crc64_register all_ones bytes h)
