-- ===== src/Manifest/Ids/Free.antt =====
-- The loop that assigns ids: the next free number is found, and given out once.
use elfrc.Base.{
  ℕ, zero, suc, ◌+◌, ◌%◌, ◌^◌, List, [], ◌∷◌, some, Bool, true, false, ◌==◌, ◌≤◌, ◌<◌, ◌≡◌, ◌↔◌,
  if◌then◌else◌, length, arith, refl, Bool-cases, inl, inr, ap,
}
use elfrc.Manifest.{Resource}
use elfrc.Manifest.Ids.{explicit_ids, with_final_id, skip_taken, assign_ids}
use elfrc.Manifest.Ids.Counts.{
  count, final_ids, count_from, count_from-le, count_from-suc, count_from-taken,
}

-- Only the final ids are new, and an explicit id is the final one.
abbrev pub Kept : List Resource → List Resource → Type 0
Kept [] [] = Unit {0}
Kept [] (s ∷ ss) = ⊥
Kept (r ∷ rs) [] = ⊥
Kept (r ∷ rs) (s ∷ ss) =
    (s ≡ with_final_id r s.final_id) × (r.id_explicit ≡ true → s.final_id ≡ r.id) × Kept rs ss

true-ne-false : (b : Bool) → b ≡ true → b ≡ false → ⊥
true-ne-false b e f = cc

-- How many resources leave their id open.
unfoldable pub open_ids : List Resource → ℕ
open_ids [] = 0
open_ids (r ∷ rs) = let rest = open_ids rs in if r.id_explicit then rest else suc rest

-- `ids` is what the loop searches: `bsearch` finds exactly what is in it.
module _ (bsearch : ℕ → List ℕ → Bool) (ids : List ℕ)
    (finds : (x : ℕ) → (bsearch x ids ≡ true) ↔ (0 < count x ids)) where
  -- The loop ends at the next number that is free.
  record IsFree (next free : ℕ) : Type 0 where
    low : next ≤ free
    unused : count free ids ≡ 0
    room : free + count_from free ids ≤ next + count_from next ids

  skip_taken-IsFree :
      (fuel next : ℕ)
      → count_from next ids < fuel
      → next + count_from next ids < 2 ^ 32
      → (free : ℕ) × (skip_taken bsearch fuel ids next ≡ some free) × IsFree next free
  unfolding skip_taken
  skip_taken-IsFree zero next enough small = absurd (omega arith)
  skip_taken-IsFree (suc fuel) next enough small = elim (Bool-cases (bsearch next ids)) [
    | inl taken ↦
        let fewer = count_from-taken next ids ((finds next).0 taken) in
        let (free, got, is_free) =
          skip_taken-IsFree fuel (next + 1) (omega (arith, fewer)) (omega (arith, fewer)) in
        let at : (next + 1) % 2 ^ 32 ≡ next + 1 = omega (arith, fewer) in
        (
          free,
          rw (at, taken) got,
          record {
            low = omega (arith, is_free.low);
            unused = is_free.unused;
            room = omega (arith, is_free.room, fewer);
          },
        )
    | inr here ↦ (
      next,
      rw here refl,
      record { low = omega arith; unused = ground (arith, finds next); room = omega arith },
    )
  ]

  -- Each number is given out once, and only if it is at least `next` and not in `ids`.
  pub record Given (next : ℕ) (rs rs' : List Resource) (z : ℕ) : Type 0 where
    pub once : count z (final_ids rs') ≤ count z (explicit_ids rs) + 1
    pub below : z < next → count z (final_ids rs') ≡ count z (explicit_ids rs)
    pub taken : 0 < count z ids → count z (final_ids rs') ≡ count z (explicit_ids rs)

  assign_nil : (next : ℕ) → assign_ids bsearch ids next [] ≡ some []
  unfolding assign_ids
  assign_nil next = refl

  no_ids-Given : (next z : ℕ) → Given next [] [] z
  unfolding explicit_ids final_ids count
  no_ids-Given next z = record { once = omega arith; below = λ h. refl; taken = λ h. refl }

  assign_given :
      (next : ℕ) (r : Resource) (rs rest : List Resource)
      → r.id_explicit ≡ true
      → assign_ids bsearch ids next rs ≡ some rest
      → assign_ids bsearch ids next (r ∷ rs) ≡ some (with_final_id r r.id ∷ rest)
  unfolding assign_ids
  assign_given next r rs rest given got = ground (arith, got)

  assign_open :
      (next free : ℕ) (r : Resource) (rs rest : List Resource)
      → r.id_explicit ≡ false
      → skip_taken bsearch (suc (length ids)) ids next ≡ some free
      → (free + 1) % 2 ^ 32 ≡ free + 1
      → assign_ids bsearch ids (free + 1) rs ≡ some rest
      → assign_ids bsearch ids next (r ∷ rs) ≡ some (with_final_id r free ∷ rest)
  unfolding assign_ids
  assign_open next free r rs rest unset got_free at got = ground (arith, got_free, at, got)

  set_id-Given :
      (next : ℕ) (r : Resource) (rs rest : List Resource) (z : ℕ)
      → r.id_explicit ≡ true
      → Given next rs rest z
      → Given next (r ∷ rs) (with_final_id r r.id ∷ rest) z
  unfolding explicit_ids final_ids count
  set_id-Given next r rs rest z given k = record {
    once = ground (arith, k.once);
    below = λ h. ground (arith, k.below);
    taken = λ h. ground (arith, k.taken);
  }

  -- The number that is given out is not in `ids`, so a number of `ids` is not it.
  other_than : (z free : ℕ) → 0 < count z ids → count free ids ≡ 0 → (z == free) ≡ false
  other_than z free has has_not = elim (Bool-cases (z == free)) [
    | inl same ↦
        let e : z ≡ free = ground arith in
        absurd (omega (arith, has, has_not, ap (λ x. count x ids) e))
    | inr other ↦ other
  ]

  new_id-Given :
      (next free : ℕ) (r : Resource) (rs rest : List Resource) (z : ℕ)
      → r.id_explicit ≡ false
      → IsFree next free
      → Given (free + 1) rs rest z
      → Given next (r ∷ rs) (with_final_id r free ∷ rest) z
  unfolding explicit_ids final_ids count
  new_id-Given next free r rs rest z unset f k = record {
    once = ground (arith, k.once, k.below);
    below = λ h. ground (arith, k.below, f.low);
    taken = λ h. ground (arith, k.taken, other_than z free h f.unused);
  }

  pub assign_ids-Given :
      (next : ℕ) (rs : List Resource)
      → next + count_from next ids + open_ids rs < 2 ^ 32
      → (rs' : List Resource) × (assign_ids bsearch ids next rs ≡ some rs')
        × Kept rs rs'
        × ((z : ℕ) → Given next rs rs' z)
  unfolding open_ids
  assign_ids-Given next [] small = ([], assign_nil next, tt, λ z. no_ids-Given next z)
  assign_ids-Given next (r ∷ rs) small = elim (Bool-cases r.id_explicit) [
    | inl given ↦
        let (rest, got, kept, g) = assign_ids-Given next rs (ground arith) in
        (
          with_final_id r r.id ∷ rest,
          assign_given next r rs rest given got,
          (refl, (λ e. refl), kept),
          λ z. set_id-Given next r rs rest z given (g z),
        )
    | inr unset ↦
        let more : next + count_from next ids + suc (open_ids rs) < 2 ^ 32 = ground arith in
        let (free, got_free, f) =
          skip_taken-IsFree (suc (length ids)) next (omega (arith, count_from-le next ids))
            (omega arith) in
        let room : free + 1 + count_from (free + 1) ids + open_ids rs < 2 ^ 32 =
          omega (arith, f.room, more, count_from-suc free ids) in
        let at : (free + 1) % 2 ^ 32 ≡ free + 1 = omega (arith, room) in
        let (rest, got, kept, g) = assign_ids-Given (free + 1) rs room in
        (
          with_final_id r free ∷ rest,
          assign_open next free r rs rest unset got_free at got,
          (refl, (λ e. absurd (true-ne-false r.id_explicit e unset)), kept),
          λ z. new_id-Given next free r rs rest z unset f (g z),
        )
  ]
