-- ===== src/Manifest/Ids/Unique.antt =====
-- The ids that are assigned are unique, and there is always a free one.
use elfrc.Base.{
  ℕ, ◌+◌, ◌^◌, List, [], ◌∷◌, Option, none, some, Bool, true, ◌≤◌, ◌<◌, ◌≡◌, ◌↔◌, length, arith,
  refl, inl, inr, Option-cases, dec_lt,
}
use elfrc.Base.Maybe.{◌>>=◌}
use elfrc.Manifest.{Resource}
use elfrc.Manifest.Ids.{
  duplicate_id, Assigned, explicit_ids, first_repeat, first_duplicate, assign_ids,
  assign_and_validate_ids,
}
use elfrc.Manifest.Ids.Counts.{
  count, final_ids, IsSorted, count_from, count_from-le, first_repeat-none, first_repeat-some,
}
use elfrc.Manifest.Ids.Free.{Kept, open_ids, Given, assign_ids-Given}

-- What the C library documents of `qsort` and `bsearch`.
pub record IsLibrary (qsort : List ℕ → List ℕ) (bsearch : ℕ → List ℕ → Bool) : Type 0 where
  pub sorts : (xs : List ℕ) → IsSorted (qsort xs)
  pub lengths : (xs : List ℕ) → length (qsort xs) ≡ length xs
  pub permutes : (xs : List ℕ) (z : ℕ) → count z (qsort xs) ≡ count z xs
  pub finds : (xs : List ℕ) (z : ℕ) → IsSorted xs → (bsearch z xs ≡ true) ↔ (0 < count z xs)

-- What the call leaves behind: an error and no ids for a repeated explicit id; else an id for each
-- resource, the explicit one where there is one, no two of them equal.
pub data IsAssigned (rs : List Resource) : Assigned → Type 0 where
  refused :
      (z : ℕ)
      → 1 < count z (explicit_ids rs)
      → IsAssigned rs (record { resources = rs; error = some (duplicate_id z) })
  assigned :
      (rs' : List Resource)
      → Kept rs rs'
      → ((z : ℕ) → count z (final_ids rs') ≤ 1)
      → IsAssigned rs (record { resources = rs'; error = first_duplicate rs' })

length-explicit_ids : (rs : List Resource) → length (explicit_ids rs) + open_ids rs ≡ length rs
unfolding explicit_ids open_ids
length-explicit_ids [] = omega arith
length-explicit_ids (r ∷ rs) = ground (arith, length-explicit_ids rs)

refuse_lem :
    (bsearch : ℕ → List ℕ → Bool) (ids : List ℕ) (rs : List Resource) (z : ℕ)
    → first_repeat ids ≡ some z
    → ◌≡◌ {A = Option Assigned}
        (elim (first_repeat ids) [
          | some id ↦ some (record { resources = rs; error = some (duplicate_id id) })
          | none ↦
              assign_ids bsearch ids 1 rs
              >>= (λ done. some (record { resources = done; error = first_duplicate done }))
        ])
        (some (record { resources = rs; error = some (duplicate_id z) }))
refuse_lem bsearch ids rs z repeated = rw repeated refl

validate_lem :
    (bsearch : ℕ → List ℕ → Bool) (ids : List ℕ) (rs rs' : List Resource)
    → first_repeat ids ≡ none
    → assign_ids bsearch ids 1 rs ≡ some rs'
    → ◌≡◌ {A = Option Assigned}
        (elim (first_repeat ids) [
          | some id ↦ some (record { resources = rs; error = some (duplicate_id id) })
          | none ↦
              assign_ids bsearch ids 1 rs
              >>= (λ done. some (record { resources = done; error = first_duplicate done }))
        ])
        (some (record { resources = rs'; error = first_duplicate rs' }))
validate_lem bsearch ids rs rs' none_twice got = rw (none_twice, got) refl

final_once :
    (bsearch : ℕ → List ℕ → Bool) (ids : List ℕ)
    (finds : (x : ℕ) → (bsearch x ids ≡ true) ↔ (0 < count x ids)) (rs rs' : List Resource) (z : ℕ)
    → count z ids ≡ count z (explicit_ids rs)
    → count z ids ≤ 1
    → Given bsearch ids finds 1 rs rs' z
    → count z (final_ids rs') ≤ 1
final_once bsearch ids finds rs rs' z same once g = elim (dec_lt 0 (count z ids)) [
  | yes has ↦ omega (arith, g.taken has, same, once)
  | no has_not ↦ omega (arith, g.once, same, has_not)
]

-- If `qsort` and `bsearch` do what the C library documents, and there are fewer resources than
-- 2^32 - 1, the loops end, and the call either reports an explicit id that occurs twice and
-- changes nothing, or gives each resource an id of its own, the explicit one where there is one,
-- and changes nothing else.
pub assign_and_validate_ids-IsAssigned :
    (qsort : List ℕ → List ℕ) (bsearch : ℕ → List ℕ → Bool) (rs : List Resource)
    → IsLibrary qsort bsearch
    → length rs + 1 < 2 ^ 32
    → (a : Assigned) × (assign_and_validate_ids qsort bsearch rs ≡ some a) × IsAssigned rs a
unfolding assign_and_validate_ids
assign_and_validate_ids-IsAssigned qsort bsearch rs lib few =
    let ids = qsort (explicit_ids rs) in
    elim (Option-cases (first_repeat ids)) [
      | inr (z, e) ↦ (
        _,
        refuse_lem bsearch ids rs z e,
        refused z (omega (arith, first_repeat-some ids z e, lib.permutes (explicit_ids rs) z)),
      )
      | inl none_twice ↦
          let sorted = lib.sorts (explicit_ids rs) in
          let finds : (x : ℕ) → (bsearch x ids ≡ true) ↔ (0 < count x ids) =
            λ x. lib.finds ids x sorted in
          let room : 1 + count_from 1 ids + open_ids rs < 2 ^ 32 = omega (
            arith,
            few,
            count_from-le 1 ids,
            lib.lengths (explicit_ids rs),
            length-explicit_ids rs,
          ) in
          let (rs', got, kept, g) = assign_ids-Given bsearch ids finds 1 rs room in
          (
            _,
            validate_lem bsearch ids rs rs' none_twice got,
            assigned rs' kept (λ z.
                final_once bsearch ids finds rs rs' z (lib.permutes (explicit_ids rs) z)
                  (first_repeat-none ids sorted none_twice z) (g z)),
          )
    ]
