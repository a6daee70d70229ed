-- ===== src/Manifest/Ids/Counts.antt =====
-- Counting: what a sorted list without equal neighbours holds.
use elfrc.Base.{
  ℕ, suc, ◌+◌, List, [], ◌∷◌, none, some, ◌==◌, leb, ◌≤◌, ◌<◌, ◌≡◌, if◌then◌else◌, length, arith,
  refl, Bool-cases, inl, inr,
}
use elfrc.Manifest.{Resource}
use elfrc.Manifest.Ids.{repeat_after, first_repeat}

-- How often `x` occurs.
unfoldable pub count : ℕ → List ℕ → ℕ
count x [] = 0
count x (y ∷ ys) = let rest = count x ys in if x == y then suc rest else rest

unfoldable pub final_ids : List Resource → List ℕ
final_ids [] = []
final_ids (r ∷ rs) = r.final_id ∷ final_ids rs

abbrev pub IsSortedAfter : ℕ → List ℕ → Type 0
IsSortedAfter x [] = Unit {0}
IsSortedAfter x (y ∷ ys) = (x ≤ y) × IsSortedAfter y ys

abbrev pub IsSorted : List ℕ → Type 0
IsSorted [] = Unit {0}
IsSorted (x ∷ xs) = IsSortedAfter x xs

-- How many are at least `n`.
unfoldable pub count_from : ℕ → List ℕ → ℕ
count_from n [] = 0
count_from n (y ∷ ys) = let rest = count_from n ys in if leb n y then suc rest else rest

pub count_from-le : (n : ℕ) (ys : List ℕ) → count_from n ys ≤ length ys
unfolding count_from
count_from-le n [] = omega arith
count_from-le n (y ∷ ys) = ground (arith, count_from-le n ys)

pub count_from-suc : (n : ℕ) (ys : List ℕ) → count_from (n + 1) ys ≤ count_from n ys
unfolding count_from
count_from-suc n [] = omega arith
count_from-suc n (y ∷ ys) = ground (arith, count_from-suc n ys)

pub count_from-taken :
    (n : ℕ) (ys : List ℕ) → 0 < count n ys → count_from (n + 1) ys < count_from n ys
unfolding count count_from
count_from-taken n [] h = omega arith
count_from-taken n (y ∷ ys) h = elim (Bool-cases (n == y)) [
  | inl same ↦ ground (arith, count_from-suc n ys)
  | inr other ↦ ground (arith, count_from-taken n ys)
]

-- A sorted list without equal neighbours holds nothing twice.
repeat_after-none :
    (x : ℕ) (ys : List ℕ)
    → IsSortedAfter x ys
    → repeat_after x ys ≡ none
    → (z : ℕ) → (count z ys ≤ 1) × (z ≤ x → count z ys ≡ 0)
unfolding repeat_after count
repeat_after-none x [] sorted e z = (omega arith, λ h. refl)
repeat_after-none x (y ∷ ys) (le, sorted) e z =
    let later : repeat_after y ys ≡ none = ground arith in
    let above : x < y = ground arith in
    let (once, never) = repeat_after-none y ys sorted later z in
    (ground (arith, once, never), λ h. ground (arith, once, never))

pub first_repeat-none :
    (xs : List ℕ) → IsSorted xs → first_repeat xs ≡ none → (z : ℕ) → count z xs ≤ 1
unfolding first_repeat count
first_repeat-none [] sorted e z = omega arith
first_repeat-none (x ∷ xs) sorted e z =
    let (once, never) = repeat_after-none x xs sorted e z in ground (arith, once, never)

repeat_after-some :
    (x : ℕ) (ys : List ℕ) (z : ℕ) → repeat_after x ys ≡ some z → 1 < count z (x ∷ ys)
unfolding repeat_after count
repeat_after-some x [] z e = cc
repeat_after-some x (y ∷ ys) z e = elim (Bool-cases (y == x)) [
  | inl same ↦ ground arith
  | inr other ↦ ground (arith, repeat_after-some y ys z)
]

pub first_repeat-some : (xs : List ℕ) (z : ℕ) → first_repeat xs ≡ some z → 1 < count z xs
unfolding first_repeat
first_repeat-some [] z e = cc
first_repeat-some (x ∷ xs) z e = repeat_after-some x xs z e
