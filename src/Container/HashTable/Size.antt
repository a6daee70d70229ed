-- ===== src/Container/HashTable/Size.antt =====
-- `next_pow2`: when its loop ends, and what it returns.
use native.Mathlib.Nat.{pow-suc, one-le-pow}
use elfrc.Base.{
  ℕ, zero, suc, ◌*◌, ◌%◌, ◌^◌, ◌≤◌, ◌<◌, ◌≡◌, ◌⊎◌, inl, inr, refl, ap, ◌∙◌, arith, none, some,
  dec_lt, lt→ltb, if◌then◌else◌, ◌==◌,
}
use elfrc.Base.Maybe.{>>=-some}
use elfrc.Container.HashTable.{double_until, next_pow2, bucket_count_for}

double_until_go :
    (fuel p v : ℕ)
    → p < v
    → p * 2 < 2 ^ 32
    → double_until (suc fuel) p v ≡ double_until fuel (p * 2) v
unfolding double_until
double_until_go fuel p v below word =
    let wrap : p * 2 % 2 ^ 32 ≡ p * 2 = omega arith in
    rw (lt→ltb p v below) (ap (λ t. double_until fuel t v) wrap)

double_until_stop : (fuel p v : ℕ) → v ≤ p → double_until (suc fuel) p v ≡ some p
unfolding double_until
double_until_stop fuel p v room = ground arith

power_le : (p k : ℕ) → p * 2 ^ k ≡ 2 ^ 31 → p ≤ 2 ^ 31
power_le p k e = grind (arith, one-le-pow k 2)

-- What the loop returns from a power of two `p`.
pub record IsNextPow2 (p v r : ℕ) : Type 0 where
  pub exponent : ℕ
  pub power : r ≡ p * 2 ^ exponent
  pub enough : v ≤ r
  pub least : (r ≡ p) ⊎ (r < 2 * v)
  pub bound : r ≤ 2 ^ 31

double_until-IsNextPow2 :
    (fuel p v : ℕ)
    → v ≤ 2 ^ 31
    → p * 2 ^ fuel ≡ 2 ^ 31
    → (r : ℕ) × (double_until (suc fuel) p v ≡ some r) × IsNextPow2 p v r
double_until-IsNextPow2 zero p v small e = (
  p,
  double_until_stop zero p v (omega arith),
  record {
    exponent = 0;
    power = omega arith;
    enough = omega arith;
    least = inl refl;
    bound = omega arith;
  },
)
double_until-IsNextPow2 (suc fuel) p v small e = elim (dec_lt p v) [
  | no stop ↦ (
    p,
    double_until_stop (suc fuel) p v (omega arith),
    record {
      exponent = 0;
      power = omega arith;
      enough = omega arith;
      least = inl refl;
      bound = power_le p (suc fuel) e;
    },
  )
  | yes below ↦
      let (r, run, next) =
        double_until-IsNextPow2 fuel (p * 2) v small
          (omega (arith, e, ap (λ (t : ℕ). p * t) (pow-suc 2 fuel))) in
      (
        r,
        double_until_go (suc fuel) p v below (omega arith) ∙ run,
        record {
          exponent = suc next.exponent;
          power = omega (arith, next.power, ap (λ (t : ℕ). p * t) (pow-suc 2 next.exponent));
          enough = next.enough;
          least = inr (elim next.least [ inl f ↦ omega arith | inr lt ↦ lt ]);
          bound = next.bound;
        },
      )
]

-- For a request of at most 2^31 the loop ends, with a power of two that is large enough; above the
-- minimum of 16 it is less than twice the request.
next_pow2-IsNextPow2 : (v : ℕ) → v ≤ 2 ^ 31 → (r : ℕ) × (next_pow2 v ≡ some r) × IsNextPow2 16 v r
unfolding next_pow2
next_pow2-IsNextPow2 v small = double_until-IsNextPow2 27 16 v small refl

double_until_zero : (fuel v : ℕ) → 0 < v → double_until fuel 0 v ≡ none
unfolding double_until
double_until_zero zero v pos = refl
double_until_zero (suc fuel) v pos = rw (lt→ltb 0 v pos) (double_until_zero fuel v pos)

double_until_wrap :
    (fuel p v : ℕ) → p < v → double_until (suc fuel) p v ≡ double_until fuel (p * 2 % 2 ^ 32) v
unfolding double_until
double_until_wrap fuel p v below = rw (lt→ltb p v below) refl

-- From a power of two up to 2^31, and for a request above 2^31, the doubling wraps to zero and the
-- loop never ends, however many rounds it is given.
pub double_until_diverges :
    (fuel k p v : ℕ) → p * 2 ^ k ≡ 2 ^ 31 → 2 ^ 31 < v → double_until fuel p v ≡ none
double_until_diverges zero k p v e big = unfold double_until in refl
double_until_diverges (suc fuel) zero p v e big =
    let wrap : p * 2 % 2 ^ 32 ≡ 0 = omega arith in
    double_until_wrap fuel p v (omega arith)
    ∙ ap (λ t. double_until fuel t v) wrap
    ∙ double_until_zero fuel v (omega arith)
double_until_diverges (suc fuel) (suc k) p v e big =
    let f : p * 2 * 2 ^ k ≡ 2 ^ 31 = omega (arith, e, ap (λ (t : ℕ). p * t) (pow-suc 2 k)) in
    let wrap : p * 2 % 2 ^ 32 ≡ p * 2 = omega (arith, power_le (p * 2) k f) in
    double_until_wrap fuel p v (omega (arith, power_le p (suc k) e))
    ∙ ap (λ t. double_until fuel t v) wrap
    ∙ double_until_diverges fuel k (p * 2) v f big

abbrev count_of : ℕ → ℕ → ℕ
count_of n c = if n == 0 then 16 else c

count_of_bounds :
    (n r : ℕ)
    → 16 ≤ r
    → n * 2 ≤ r
    → r ≤ 2 ^ 31
    → (16 ≤ count_of n r) × (n * 2 ≤ count_of n r) × (count_of n r ≤ 2 ^ 31)
count_of_bounds n r a b c = ground arith

-- Up to 2^30 resources the table has a power of two of buckets, at least 16 and at least twice as
-- many as there are resources.
pub bucket_count_for_lem :
    (n : ℕ)
    → n ≤ 2 ^ 30
    → (count : ℕ) × (bucket_count_for n ≡ some count)
      × (16 ≤ count)
      × (n * 2 ≤ count)
      × (count ≤ 2 ^ 31)
unfolding bucket_count_for
bucket_count_for_lem n small =
    let (r, run, next) = next_pow2-IsNextPow2 (n * 2) (omega arith) in
    let e : n * 2 % 2 ^ 32 ≡ n * 2 = omega arith in
    let two : 16 ≤ r = omega (arith, next.power, one-le-pow next.exponent 2) in
    (
      count_of n r,
      >>=-some (λ c. some (count_of n c)) (ap next_pow2 e ∙ run) refl,
      (count_of_bounds n r two next.enough next.bound).0,
      (count_of_bounds n r two next.enough next.bound).1,
      (count_of_bounds n r two next.enough next.bound).2,
    )
