-- ===== src/Manifest/Ids/Sample.antt =====
-- A sort and a search that do what the C library documents of `qsort` and `bsearch`.
use elfrc.Base.{
  ℕ, suc, ◌≤◌, ◌<◌, ◌≡◌, ◌↔◌, refl, arith, List, [], ◌∷◌, Bool, true, false, leb, ◌==◌,
  if◌then◌else◌, length, Bool-cases, inl, inr,
}
use elfrc.Manifest.Ids.Counts.{count, IsSorted, IsSortedAfter}
use elfrc.Manifest.Ids.Unique.{IsLibrary}

unfoldable pub insert : ℕ → List ℕ → List ℕ
insert x [] = x ∷ []
insert x (y ∷ ys) = let rest = insert x ys in if leb x y then x ∷ y ∷ ys else y ∷ rest

unfoldable pub sort : List ℕ → List ℕ
sort [] = []
sort (x ∷ xs) = insert x (sort xs)

unfoldable pub member : ℕ → List ℕ → Bool
member x [] = false
member x (y ∷ ys) = let rest = member x ys in if x == y then true else rest

length-insert : (x : ℕ) (ys : List ℕ) → length (insert x ys) ≡ suc (length ys)
unfolding insert
length-insert x [] = refl
length-insert x (y ∷ ys) = ground (arith, length-insert x ys)

length-sort : (xs : List ℕ) → length (sort xs) ≡ length xs
unfolding sort
length-sort [] = refl
length-sort (x ∷ xs) = omega (arith, length-insert x (sort xs), length-sort xs)

count-insert : (z x : ℕ) (ys : List ℕ) → count z (insert x ys) ≡ count z (x ∷ ys)
unfolding insert count
count-insert z x [] = refl
count-insert z x (y ∷ ys) = ground (arith, count-insert z x ys)

count-sort : (z : ℕ) (xs : List ℕ) → count z (sort xs) ≡ count z xs
unfolding sort count
count-sort z [] = refl
count-sort z (x ∷ xs) = ground (arith, count-insert z x (sort xs), count-sort z xs)

insert_after : (w x : ℕ) (ys : List ℕ) → w ≤ x → IsSortedAfter w ys → IsSortedAfter w (insert x ys)
unfolding insert
insert_after w x [] low sorted = (low, tt)
insert_after w x (y ∷ ys) low (le, sorted) = elim (Bool-cases (leb x y)) [
  | inl here ↦ ground (arith, here)
  | inr later ↦ ground (arith, insert_after y x ys)
]

insert-IsSorted : (x : ℕ) (ys : List ℕ) → IsSorted ys → IsSorted (insert x ys)
unfolding insert
insert-IsSorted x [] sorted = tt
insert-IsSorted x (y ∷ ys) sorted = ground (arith, insert_after y x ys)

sort-IsSorted : (xs : List ℕ) → IsSorted (sort xs)
unfolding sort
sort-IsSorted [] = tt
sort-IsSorted (x ∷ xs) = insert-IsSorted x (sort xs) (sort-IsSorted xs)

member_iff : (x : ℕ) (ys : List ℕ) → (member x ys ≡ true) ↔ (0 < count x ys)
unfolding member count
member_iff x [] = ground arith
member_iff x (y ∷ ys) = ground (arith, member_iff x ys)

pub library : IsLibrary sort member
library = record {
  sorts = sort-IsSorted;
  lengths = length-sort;
  permutes = λ xs z. count-sort z xs;
  finds = λ xs z _. member_iff z xs;
}
