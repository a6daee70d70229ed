-- ===== src/Container/HashTable/Probe.antt =====
-- Linear probing seen from outside: which slot a lookup stops at, and what filling one free slot
-- changes for it.
use elfrc.Base.{
  ℕ, zero, suc, ◌+◌, ◌%◌, ◌≡◌, ◌≢◌, refl, ap, subst, ◌∙◌, arith, List, Option, none, some, Bool,
  true, false, ◌==◌, if◌then◌else◌, length, get_or, Bool-cases, inl, inr, ℕ_discrete,
}
use elfrc.Format.{HashBucket, erf_hash_empty}
use elfrc.Container.HashTable.{empty_bucket, free_slot}

abbrev pub bucket_at : List HashBucket → ℕ → HashBucket
bucket_at t x = get_or t x empty_bucket

abbrev pub is_free : List HashBucket → ℕ → Bool
is_free t x = (bucket_at t x).directory_index == erf_hash_empty

-- The first slot of the probe sequence that hits, if that comes before a free one.
unfoldable pub first_hit : ℕ → (ℕ → Bool) → (ℕ → Bool) → ℕ → ℕ → Option ℕ
first_hit n free hit zero slot = none
first_hit n free hit (suc left) slot =
    let rest = first_hit n free hit left ((slot + 1) % n) in
    if free slot then none else if hit slot then some slot else rest

-- Slot `s` is filled: it was free, it is not any more, and no other slot changes.
pub record Filled (s : ℕ) (free free' hit hit' : ℕ → Bool) : Type 0 where
  pub was : free s ≡ true
  pub now : free' s ≡ false
  pub frees : (x : ℕ) → x ≢ s → free' x ≡ free x
  pub hits : (x : ℕ) → x ≢ s → hit' x ≡ hit x

module _ (n s : ℕ) (free free' hit hit' : ℕ → Bool) (f : Filled s free free' hit hit') where
  -- A lookup that ended in a hit still does.
  pub first_hit_kept :
      (left slot x : ℕ)
      → first_hit n free hit left slot ≡ some x
      → first_hit n free' hit' left slot ≡ some x
  unfolding first_hit
  first_hit_kept zero slot x e = cc
  first_hit_kept (suc left) slot x e = elim (ℕ_discrete slot s) [
    | yes same ↦ let w : free slot ≡ true = ap free same ∙ f.was in ground arith
    | no other ↦
        ground
          (arith, f.frees slot other, f.hits slot other, first_hit_kept left ((slot + 1) % n) x)
  ]

-- A lookup stops at a slot that is in use and hits.
pub first_hit_sound :
    (n : ℕ) (free hit : ℕ → Bool) (left slot x : ℕ)
    → first_hit n free hit left slot ≡ some x
    → (free x ≡ false) × (hit x ≡ true)
first_hit_sound n free hit zero slot x e = absurd (unfold first_hit in cc)
first_hit_sound n free hit (suc left) slot x e = elim (Bool-cases (free slot)) [
  | inl f ↦ absurd (unfold first_hit in ground arith)
  | inr f ↦ elim (Bool-cases (hit slot)) [
    | inl h ↦
        let same : slot ≡ x = unfold first_hit in ground arith in
        subst (λ y. (free y ≡ false) × (hit y ≡ true)) same (f, h)
    | inr h ↦ first_hit_sound n free hit left ((slot + 1) % n) x (unfold first_hit in ground arith)
  ]
]

-- Where nothing hits, nothing is found.
pub first_hit_nothing :
    (n : ℕ) (free hit : ℕ → Bool) (left slot : ℕ)
    → ((x : ℕ) → hit x ≡ false)
    → first_hit n free hit left slot ≡ none
unfolding first_hit
first_hit_nothing n free hit zero slot h = refl
first_hit_nothing n free hit (suc left) slot h =
    ground (arith, h slot, first_hit_nothing n free hit left ((slot + 1) % n) h)

-- The slot that `free_slot` returns is free.
pub free_slot-is_free :
    (t : List HashBucket) (fuel slot s : ℕ) → free_slot fuel t slot ≡ some s → is_free t s ≡ true
unfolding free_slot
free_slot-is_free t zero slot s e = cc
free_slot-is_free t (suc fuel) slot s e = elim (Bool-cases (is_free t slot)) [
  | inl here ↦ subst (λ x. is_free t x ≡ true) (stops here) here
  | inr on ↦ free_slot-is_free t fuel ((slot + 1) % length t) s (goes on)
]
  where
    stops : is_free t slot ≡ true → slot ≡ s
    stops here = ground arith

    goes : is_free t slot ≡ false → free_slot fuel t ((slot + 1) % length t) ≡ some s
    goes on = ground arith

-- The slots before it are not, so once it is filled a lookup along the same way stops there, if
-- the filled slot hits and no other does.
pub first_hit_new :
    (t : List HashBucket) (s : ℕ) (free' hit hit' : ℕ → Bool)
    → Filled s (is_free t) free' hit hit'
    → ((x : ℕ) → x ≢ s → hit x ≡ false)
    → hit' s ≡ true
    → (fuel slot : ℕ) → free_slot fuel t slot ≡ some s
    → first_hit (length t) free' hit' fuel slot ≡ some s
unfolding first_hit free_slot
first_hit_new t s free' hit hit' f clean new zero slot e = cc
first_hit_new t s free' hit hit' f clean new (suc fuel) slot e = elim (ℕ_discrete slot s) [
  | yes same ↦
      let a : free' slot ≡ false = ap free' same ∙ f.now in
      let b : hit' slot ≡ true = ap hit' same ∙ new in ground arith
  | no other ↦ ground (
    arith,
    f.frees slot other,
    f.hits slot other,
    clean slot other,
    first_hit_new t s free' hit hit' f clean new fuel ((slot + 1) % length t),
  )
]
