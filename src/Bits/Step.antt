-- ===== src/Bits/Step.antt =====
-- One equation for the lowest digit of `&` and `^`; the fuel of the library's recursion is dropped.
use Prim.Native.Nat.{min, differ, digits, bitwise, bit_and-bitwise, bit_xor-bitwise}
use elfrc.Base.{ℕ, zero, suc, ◌+◌, ◌*◌, ◌/◌, ◌%◌, ◌≤◌, ◌<◌, ◌≡◌, refl, arith, bit_and, bit_xor}

module _ (lone : ℕ → ℕ) (both : ℕ → ℕ → ℕ) where
  -- Any fuel that is at least the first number gives the same digits.
  fuel_irrelevant : (x y k l : ℕ) → x ≤ k → x ≤ l → digits lone both k x y ≡ digits lone both l x y
  fuel_irrelevant zero y zero zero _ _ = refl
  fuel_irrelevant zero y zero (suc l) _ _ = refl
  fuel_irrelevant zero y (suc k) zero _ _ = refl
  fuel_irrelevant zero y (suc k) (suc l) _ _ = refl
  fuel_irrelevant (suc x) y zero l below _ = absurd (omega arith)
  fuel_irrelevant (suc x) y (suc k) zero _ below = absurd (omega arith)
  fuel_irrelevant (suc x) y (suc k) (suc l) low high =
      let half : suc x / 2 ≤ x = omega arith in
      omega
        (arith, fuel_irrelevant (suc x / 2) (y / 2) k l (omega (arith, half)) (omega (arith, half)))

  first_digit :
      (x y : ℕ)
      → bitwise lone both (suc x) y
        ≡ both (suc x % 2) (y % 2) + bitwise lone both (suc x / 2) (y / 2) * 2
  first_digit x y =
      let half = suc x / 2 in
      omega (arith, fuel_irrelevant half (y / 2) x half (omega arith) (omega arith))

differ_bits : (x y : ℕ) → x < 2 → y < 2 → differ x y ≡ (x + y) % 2
differ_bits zero y hx hy = omega arith
differ_bits (suc zero) zero hx hy = refl
differ_bits (suc zero) (suc zero) hx hy = refl
differ_bits (suc zero) (suc (suc y)) hx hy = absurd (omega arith)
differ_bits (suc (suc x)) y hx hy = absurd (omega arith)

pub bit_and_step : (x y : ℕ) → bit_and x y ≡ min (x % 2) (y % 2) + bit_and (x / 2) (y / 2) * 2
bit_and_step zero y = simp bit_and-bitwise (omega arith)
bit_and_step (suc x) y = simp bit_and-bitwise (first_digit (λ _. 0) min x y)

pub zero-bit_xor : (b : ℕ) → bit_xor 0 b ≡ b
zero-bit_xor b = bit_xor-bitwise 0 b

pub bit_xor_step : (x y : ℕ) → bit_xor x y ≡ (x % 2 + y % 2) % 2 + bit_xor (x / 2) (y / 2) * 2
bit_xor_step zero y = omega (arith, zero-bit_xor y, zero-bit_xor (y / 2))
bit_xor_step (suc x) y = omega (
  arith,
  first_digit (λ t. t) differ x y,
  differ_bits (suc x % 2) (y % 2) (omega arith) (omega arith),
  bit_xor-bitwise (suc x / 2) (y / 2),
  bit_xor-bitwise (suc x) y,
)
