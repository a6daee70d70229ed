-- ===== src/Manifest/Uint/Laws.antt =====
-- What `parse_uint` makes of a decimal number.
use native.Mathlib.Nat.{pow-suc}
use elfrc.Base.{
  ℕ, zero, suc, ◌+◌, ◌-◌, ◌*◌, ◌/◌, ◌%◌, ◌^◌, ◌≤◌, ◌<◌, ◌≡◌, refl, sym, subst, ap, ◌∙◌, arith, min,
  List, [], ◌∷◌, ◌++◌, some, length, length-append, false, All, ltb, if◌then◌else◌, dec_lt,
}
use elfrc.Manifest.Uint.{
  isspace, isdigit, skip_space, strtol_sign, strtol_digits, number_of, unsigned_of, parse_uint,
}

-- The decimal digits of `n`, at most `fuel` of them.
unfoldable pub decimal : ℕ → ℕ → List ℕ
decimal zero n = []
decimal (suc fuel) n =
    let front = decimal fuel (n / 10) in
    if ltb n 10 then (b'0' + n) ∷ [] else front ++ ((b'0' + n % 10) ∷ [])

abbrev IsDigit : ℕ → Type 0
IsDigit b = (b'0' ≤ b) × (b ≤ b'9')

-- One digit behind others.
digits_step :
    (v b : ℕ) (s : List ℕ)
    → IsDigit b
    → strtol_digits v (b ∷ s) ≡ strtol_digits (v * 10 + (b - b'0')) s
unfolding strtol_digits isdigit
digits_step v b s h = ground arith

strtol_nil : (v : ℕ) → strtol_digits v [] ≡ (v, [])
unfolding strtol_digits
strtol_nil v = refl

digits-append :
    (v d : ℕ) (s : List ℕ) {w : ℕ}
    → All IsDigit s
    → d < 10
    → strtol_digits v s ≡ (w, [])
    → strtol_digits v (s ++ ((b'0' + d) ∷ [])) ≡ (w * 10 + d, [])
digits-append v d [] {w} hs hd e =
    let same : v ≡ w = ap (λ (p : ℕ × List ℕ). p.0) (sym (strtol_nil v) ∙ e) in
    let digit : b'0' + d - b'0' ≡ d = omega arith in
    digits_step v (b'0' + d) [] (omega arith, omega arith)
    ∙ strtol_nil (v * 10 + (b'0' + d - b'0'))
    ∙ ap (λ (k : ℕ). (k, [])) (omega (arith, same, digit))
digits-append v d (b ∷ s) (hb, hs) hd e =
    digits_step v b (s ++ ((b'0' + d) ∷ [])) hb
    ∙ digits-append (v * 10 + (b - b'0')) d s hs hd (sym (digits_step v b s hb) ∙ e)

All-append : (xs : List ℕ) (y : ℕ) → All IsDigit xs → IsDigit y → All IsDigit (xs ++ (y ∷ []))
All-append [] y h k = (k, tt)
All-append (x ∷ xs) y (hx, h) k = (hx, All-append xs y h k)

abbrev Reads : List ℕ → ℕ → Type 0
Reads ds n = All IsDigit ds × (strtol_digits 0 ds ≡ (n, []))

Reads-one : (n : ℕ) → n < 10 → Reads ((b'0' + n) ∷ []) n
Reads-one n h = (
  (((omega arith), (omega arith)), tt),
  digits-append 0 n [] tt h (strtol_nil 0) ∙ ap (λ (k : ℕ). (k, [])) (omega arith),
)

decimal_small : (fuel n : ℕ) → n < 10 → decimal (suc fuel) n ≡ (b'0' + n) ∷ []
unfolding decimal
decimal_small fuel n h = ground arith

decimal_big :
    (fuel n : ℕ) → 10 ≤ n → decimal (suc fuel) n ≡ decimal fuel (n / 10) ++ ((b'0' + n % 10) ∷ [])
unfolding decimal
decimal_big fuel n h = ground arith

-- The digits are digits, and read back.
decimal-Reads : (fuel n : ℕ) → n < 10 ^ fuel → Reads (decimal fuel n) n
unfolding decimal
decimal-Reads zero n h =
    let nought : n ≡ 0 = omega arith in (tt, strtol_nil 0 ∙ ap (λ (k : ℕ). (k, [])) (omega arith))
decimal-Reads (suc fuel) n h = elim (dec_lt n 10) [
  | yes small ↦ subst (λ ds. Reads ds n) (sym (decimal_small fuel n small)) (Reads-one n small)
  | no big ↦
      let (ds, e) = decimal-Reads fuel (n / 10) (omega (arith, pow-suc 10 fuel)) in
      let whole : n / 10 * 10 + n % 10 ≡ n = omega arith in
      subst (λ ds. Reads ds n) (sym (decimal_big fuel n (omega arith)))
        (
          All-append _ _ ds (omega arith, omega arith),
          digits-append 0 (n % 10) _ ds (omega arith) e ∙ ap (λ (k : ℕ). (k, [])) whole,
        )
]

-- A sequence of digits is taken whole: no blank and no sign comes before it.
unsigned_digits :
    (b : ℕ) (s : List ℕ) → IsDigit b → parse_uint (some (b ∷ s)) ≡ unsigned_of false (b ∷ s)
unfolding parse_uint skip_space strtol_sign isspace
unsigned_digits b s h = ground arith

unsigned_value :
    (b n : ℕ) (s : List ℕ)
    → strtol_digits 0 (b ∷ s) ≡ (n, [])
    → unsigned_of false (b ∷ s) ≡ some (min n (2 ^ 63 - 1) % 2 ^ 32)
unfolding unsigned_of number_of
unsigned_value b n s e = ap (number_of false) e

parse_digits :
    (ds : List ℕ) (n : ℕ)
    → 0 < length ds
    → Reads ds n
    → parse_uint (some ds) ≡ some (min n (2 ^ 63 - 1) % 2 ^ 32)
parse_digits [] n pos r = absurd (omega arith)
parse_digits (b ∷ s) n pos ((digit, ds), e) = unsigned_digits b s digit ∙ unsigned_value b n s e

length-decimal : (fuel n : ℕ) → 0 < fuel → 0 < length (decimal fuel n)
unfolding decimal
length-decimal zero n pos = absurd (omega arith)
length-decimal (suc fuel) n pos =
    ground (arith, length-append (decimal fuel (n / 10)) ((b'0' + n % 10) ∷ []))

-- A number that is written with enough decimal digits is never refused: below 2^32 it is read back,
-- and otherwise what is read is cut to 32 bits, with LONG_MAX in place of all from 2^63 on.
pub parse_uint-decimal :
    (fuel n : ℕ)
    → 0 < fuel
    → n < 10 ^ fuel
    → (n < 2 ^ 32 → parse_uint (some (decimal fuel n)) ≡ some n)
      × (parse_uint (some (decimal fuel n)) ≡ some (min n (2 ^ 63 - 1) % 2 ^ 32))
parse_uint-decimal fuel n pos h =
    let read =
      parse_digits (decimal fuel n) n (length-decimal fuel n pos) (decimal-Reads fuel n h) in
    ((λ small. read ∙ ap some (omega (arith, small))), read)
