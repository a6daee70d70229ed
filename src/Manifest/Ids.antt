-- ===== src/Manifest/Ids.antt =====
-- src/elfrc/manifest_yaml.c, `assign_and_validate_ids`: the ids that the manifest leaves open, and the
-- tests for duplicates. `qsort` and `bsearch` are the C library's.
pub mod Counts
pub mod Free
pub mod Unique
pub mod Sample
mod Tests
use elfrc.Base.{
  ℕ, zero, suc, ◌+◌, ◌%◌, ◌^◌, List, [], ◌∷◌, Option, none, some, Bool, true, false, ◌&&◌, ◌==◌,
  if◌then◌else◌, length,
}
use elfrc.Base.Maybe.{◌>>=◌}
use elfrc.Bytes.{bytes_eq}
use elfrc.Manifest.{Resource}

-- What `set_error` is called with: the id, or the two resources.
pub data IdError : Type 0 where
  duplicate_id : ℕ → IdError
  duplicate_resource : Resource → Resource → IdError

-- The resources after the call, and the error if one was set.
pub record Assigned : Type 0 where
  pub resources : List Resource
  pub error : Option IdError

unfoldable pub explicit_ids : List Resource → List ℕ
explicit_ids [] = []
explicit_ids (r ∷ rs) = let rest = explicit_ids rs in if r.id_explicit then r.id ∷ rest else rest

-- The first id that equals the one before it.
unfoldable pub repeat_after : ℕ → List ℕ → Option ℕ
repeat_after x [] = none
repeat_after x (y ∷ ys) = let rest = repeat_after y ys in if y == x then some y else rest

unfoldable pub first_repeat : List ℕ → Option ℕ
first_repeat [] = none
first_repeat (x ∷ xs) = repeat_after x xs

abbrev pub with_final_id : Resource → ℕ → Resource
with_final_id r id = record r { final_id = id }

-- `for (j = i + 1; ...)`: the first resource behind `r` with its name and language.
unfoldable pub same_as : Resource → List Resource → Option Resource
same_as r [] = none
same_as r (s ∷ ss) =
    let rest = same_as r ss in
    if bytes_eq r.name s.name && r.language == s.language then some s else rest

unfoldable pub first_duplicate : List Resource → Option IdError
first_duplicate [] = none
first_duplicate (r ∷ rs) = elim (same_as r rs) [
  | some s ↦ some (duplicate_resource r s)
  | none ↦ first_duplicate rs
]

module _ (bsearch : ℕ → List ℕ → Bool) where
  -- `while (bsearch(&next, ...)) next++;` on a uint32_t; `none` if the fuel runs out.
  unfoldable pub skip_taken : ℕ → List ℕ → ℕ → Option ℕ
  skip_taken zero ids next = none
  skip_taken (suc fuel) ids next =
      let rest = skip_taken fuel ids ((next + 1) % 2 ^ 32) in
      if bsearch next ids then rest else some next

  -- The loop that assigns. The fuel of the inner loop is one more than the number of explicit ids.
  unfoldable pub assign_ids : List ℕ → ℕ → List Resource → Option (List Resource)
  assign_ids ids next [] = some []
  assign_ids ids next (r ∷ rs) = elim r.id_explicit [
    | true ↦ do rest ← assign_ids ids next rs; some (with_final_id r r.id ∷ rest)
    | false ↦ do
      free ← skip_taken (suc (length ids)) ids next
      rest ← assign_ids ids ((free + 1) % 2 ^ 32) rs
      some (with_final_id r free ∷ rest)
  ]

module _ (qsort : List ℕ → List ℕ) (bsearch : ℕ → List ℕ → Bool) where
  -- An early return for no resources is the general case, with nothing to do.
  unfoldable pub assign_and_validate_ids : List Resource → Option Assigned
  assign_and_validate_ids rs =
      let ids = qsort (explicit_ids rs) in
      elim (first_repeat ids) [
        | some id ↦ some (record { resources = rs; error = some (duplicate_id id) })
        | none ↦ do
          rs' ← assign_ids bsearch ids 1 rs
          some (record { resources = rs'; error = first_duplicate rs' })
      ]
