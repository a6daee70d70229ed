-- ===== src/Bits.antt =====
-- `^`, `&` and `>>` on machine words: the laws that the checksum of common/crc64.c and the hash of
-- common/fnv1a.c rest on, from the digit recursion that the native operations stand for.
mod Step
use mathlib.Core.WellFounded
use elfrc.Base.{
  ℕ, zero, suc, ◌+◌, ◌-◌, ◌*◌, ◌/◌, ◌%◌, ◌^◌, ◌<◌, ◌≡◌, refl, sym, ap, ◌∙◌, arith, bit_and, bit_xor,
}
use elfrc.Base.Order.{lt_wf}
use native.Mathlib.Nat.{pow-suc, div-one, div-div-eq-div-mul}
use Step.{bit_and_step, bit_xor_step}
pub use Step.{zero-bit_xor}

-- Induction on the binary digits.
bits_ind : (P : ℕ → Type 0) → P 0 → ((n : ℕ) → P (suc n / 2) → P (suc n)) → (n : ℕ) → P n
bits_ind P base next n = WellFounded.induction lt_wf {C = P} n step
  where
    step : (k : ℕ) → ((m : ℕ) → m < k → P m) → P k
    step zero ih = base
    step (suc k) ih = next k (ih (suc k / 2) (omega arith))

pub bit_xor-zero : (a : ℕ) → bit_xor a 0 ≡ a
bit_xor-zero =
    bits_ind (λ a. bit_xor a 0 ≡ a) refl (λ n ih. omega (arith, bit_xor_step (suc n) 0, ih))

bit_and-zero : (a : ℕ) → bit_and a 0 ≡ 0
bit_and-zero =
    bits_ind (λ a. bit_and a 0 ≡ 0) refl (λ n ih. omega (arith, bit_and_step (suc n) 0, ih))

pub bit_xor_self : (a : ℕ) → bit_xor a a ≡ 0
bit_xor_self =
    bits_ind (λ a. bit_xor a a ≡ 0) refl (λ n ih. omega (arith, bit_xor_step (suc n) (suc n), ih))

pub bit_xor_comm : (a b : ℕ) → bit_xor a b ≡ bit_xor b a
bit_xor_comm =
    bits_ind (λ a. (b : ℕ) → bit_xor a b ≡ bit_xor b a) (λ b. zero-bit_xor b ∙ sym (bit_xor-zero b))
      (λ n ih b. omega (arith, bit_xor_step (suc n) b, bit_xor_step b (suc n), ih (b / 2)))

-- The halves and the parity of `a ^ b`.
pub bit_xor_half : (a b : ℕ) → bit_xor a b / 2 ≡ bit_xor (a / 2) (b / 2)
bit_xor_half a b = omega (arith, bit_xor_step a b)

pub bit_xor_parity : (a b : ℕ) → bit_xor a b % 2 ≡ (a + b) % 2
bit_xor_parity a b = omega (arith, bit_xor_step a b)

pub bit_xor_assoc : (a b c : ℕ) → bit_xor (bit_xor a b) c ≡ bit_xor a (bit_xor b c)
bit_xor_assoc =
    bits_ind (λ a. (b c : ℕ) → bit_xor (bit_xor a b) c ≡ bit_xor a (bit_xor b c))
      (λ b c. rw (zero-bit_xor b, zero-bit_xor (bit_xor b c)))
      (λ n ih b c.
        let left = bit_xor_step (bit_xor (suc n) b) c in
        let right = bit_xor_step (suc n) (bit_xor b c) in
        rw
          (
            left,
            right,
            bit_xor_half (suc n) b,
            bit_xor_half b c,
            bit_xor_parity (suc n) b,
            bit_xor_parity b c,
            ih (b / 2) (c / 2),
          )
          (omega arith))

-- `^ b` undoes itself.
pub bit_xor_cancel : (a b : ℕ) → bit_xor (bit_xor a b) b ≡ a
bit_xor_cancel a b = rw (bit_xor_assoc a b b, bit_xor_self b) (bit_xor-zero a)

pub bit_xor_injective : (a b c : ℕ) → bit_xor a c ≡ bit_xor b c → a ≡ b
bit_xor_injective a b c e =
    sym (bit_xor_cancel a c) ∙ ap (λ (t : ℕ). bit_xor t c) e ∙ bit_xor_cancel b c

pub bit_xor_left_comm : (a b c : ℕ) → bit_xor a (bit_xor b c) ≡ bit_xor b (bit_xor a c)
bit_xor_left_comm a b c = rw (← bit_xor_assoc a b c, bit_xor_comm a b) (bit_xor_assoc b a c)

-- Words of `k` bits are closed under `^`.
pub bit_xor-lt : (k a b : ℕ) → a < 2 ^ k → b < 2 ^ k → bit_xor a b < 2 ^ k
bit_xor-lt zero a b ha hb = ground (arith, bit_xor-zero 0)
bit_xor-lt (suc k) a b ha hb = omega (
  arith,
  bit_xor_step a b,
  pow-suc 2 k,
  bit_xor-lt k (a / 2) (b / 2) (omega (arith, pow-suc 2 k)) (omega (arith, pow-suc 2 k)),
)

pow_front : (k : ℕ) → 2 ^ suc k ≡ 2 * 2 ^ k
pow_front k = omega (arith, pow-suc 2 k)

-- A shift by `k` commutes with `^`.
pub bit_xor_shift : (k a b : ℕ) → bit_xor a b / 2 ^ k ≡ bit_xor (a / 2 ^ k) (b / 2 ^ k)
bit_xor_shift zero a b = simp div-one
bit_xor_shift (suc k) a b =
    rw (pow_front k, ← div-div-eq-div-mul, ← div-div-eq-div-mul, ← div-div-eq-div-mul, bit_xor_half)
      (bit_xor_shift k (a / 2) (b / 2))

-- One more low bit in the mask.
bit_and_odd : (a m : ℕ) → bit_and a (m * 2 + 1) ≡ bit_and (a / 2) m * 2 + a % 2
bit_and_odd a m =
    let e : (m * 2 + 1) / 2 ≡ m = omega arith in rw (bit_and_step a (m * 2 + 1), e) (omega arith)

-- `^` of disjoint fields is their sum.
pub bit_xor_fields : (k r q : ℕ) → r < 2 ^ k → bit_xor r (q * 2 ^ k) ≡ r + q * 2 ^ k
bit_xor_fields zero r q h =
    let e : r ≡ 0 = omega arith in rw e (zero-bit_xor (q * 2 ^ 0) ∙ omega arith)
bit_xor_fields (suc k) r q h =
    let e : q * 2 ^ suc k ≡ q * 2 ^ k * 2 = omega (arith, ap (λ (t : ℕ). q * t) (pow-suc 2 k)) in
    let half : q * 2 ^ k * 2 / 2 ≡ q * 2 ^ k = omega arith in
    rw (e, bit_xor_step r (q * 2 ^ k * 2), half)
      (omega (arith, bit_xor_fields k (r / 2) q (omega (arith, pow-suc 2 k))))

-- The mask of the lowest byte is the remainder by 256.
pub bit_and_byte : (a : ℕ) → bit_and a 0xff ≡ a % 256
bit_and_byte a = omega (
  arith,
  bit_and_odd (a) 127,
  bit_and_odd (a / 2) 63,
  bit_and_odd (a / 2 / 2) 31,
  bit_and_odd (a / 2 / 2 / 2) 15,
  bit_and_odd (a / 2 / 2 / 2 / 2) 7,
  bit_and_odd (a / 2 / 2 / 2 / 2 / 2) 3,
  bit_and_odd (a / 2 / 2 / 2 / 2 / 2 / 2) 1,
  bit_and_odd (a / 2 / 2 / 2 / 2 / 2 / 2 / 2) 0,
  bit_and-zero (a / 2 / 2 / 2 / 2 / 2 / 2 / 2 / 2),
)

-- The lowest bit is the remainder by 2.
pub bit_and-one : (a : ℕ) → bit_and a 1 ≡ a % 2
bit_and-one a = let rest = bit_and-zero (a / 2) in omega (arith, rest, bit_and_step a 1)
