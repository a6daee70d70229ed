-- ===== src/Container/HashTable/Insert.antt =====
-- Insertion ends while there is a free bucket, and takes one.
use native.Mathlib.Nat.{add-zero, mod-eq_of_lt, mod-lt, mod-add-mod, add-mod-mod, add-mod_right}
use elfrc.Base.{
  ℕ, zero, suc, ◌+◌, ◌-◌, ◌*◌, ◌%◌, ◌^◌, ◌≤◌, ◌<◌, ◌≡◌, refl, sym, ap, ◌∙◌, arith, List, [], ◌∷◌,
  some, Bool, true, false, ◌==◌, length, set, length-set, replicate, length-replicate, Bool-cases,
  inl, inr,
}
use elfrc.Base.Maybe.{>>=-some}
use elfrc.Fnv1a.{elfr_fnv1a64}
use elfrc.Format.{HashBucket, erf_hash_empty}
use elfrc.Manifest.{Resource}
use elfrc.Container.HashTable.{
  empty_bucket, empty_buckets, free_slot, insert_name, insert_names, bucket_count_for,
  build_buckets,
}
use elfrc.Container.HashTable.Size.{bucket_count_for_lem}
use elfrc.Container.HashTable.Probe.{bucket_at, is_free}

-- Probing reaches a free slot that is `d` steps ahead.
free_slot-reaches :
    (t : List HashBucket) (d fuel slot : ℕ)
    → d < fuel
    → slot < length t
    → is_free t ((slot + d) % length t) ≡ true
    → (s : ℕ) × (free_slot fuel t slot ≡ some s)
free_slot-reaches t d zero slot h lt e = absurd (omega arith)
free_slot-reaches t zero (suc fuel) slot h lt e =
    let same : (slot + 0) % length t ≡ slot = rw add-zero (mod-eq_of_lt lt) in
    (slot, stop (ap (is_free t) (sym same) ∙ e))
  where
    stop : is_free t slot ≡ true → free_slot (suc fuel) t slot ≡ some slot
    stop p = unfold free_slot in rw p refl
free_slot-reaches t (suc d) (suc fuel) slot h lt e = elim (Bool-cases (is_free t slot)) [
  | inl here ↦ (slot, stop here)
  | inr on ↦
      let next : ((slot + 1) % length t + d) % length t ≡ (slot + suc d) % length t =
        mod-add-mod (slot + 1) (length t) d ∙ ap (λ (k : ℕ). k % length t) (omega arith) in
      let (s, run) =
        free_slot-reaches t d fuel ((slot + 1) % length t) (omega arith) (mod-lt _ (omega arith))
          (ap (is_free t) next ∙ e) in
      (s, go on ∙ run)
]
  where
    stop : is_free t slot ≡ true → free_slot (suc fuel) t slot ≡ some slot
    stop p = unfold free_slot in rw p refl

    go :
        is_free t slot ≡ false
        → free_slot (suc fuel) t slot ≡ free_slot fuel t ((slot + 1) % length t)
    go p = unfold free_slot in rw p refl

free_slot-lt :
    (t : List HashBucket) (fuel slot s : ℕ)
    → slot < length t
    → free_slot fuel t slot ≡ some s
    → s < length t
unfolding free_slot
free_slot-lt t zero slot s lt e = cc
free_slot-lt t (suc fuel) slot s lt e =
    ground (arith, free_slot-lt t fuel ((slot + 1) % length t) s (mod-lt (slot + 1) (omega arith)))

-- The number of buckets in use.
abbrev used_one : Bool → ℕ
used_one true = 0
used_one false = 1

unfoldable pub used : List HashBucket → ℕ
used [] = 0
used (b ∷ t) = used_one (b.directory_index == erf_hash_empty) + used t

pub used-set : (t : List HashBucket) (s : ℕ) (b : HashBucket) → used (set t s b) ≤ used t + 1
unfolding used
used-set [] s b = omega arith
used-set (x ∷ t) zero b = ground arith
used-set (x ∷ t) (suc s) b = omega (arith, used-set t s b)

free_exists :
    (t : List HashBucket) → used t < length t → (x : ℕ) × (x < length t) × (is_free t x ≡ true)
unfolding used
free_exists [] h = absurd (omega arith)
free_exists (b ∷ t) h = elim (Bool-cases (b.directory_index == erf_hash_empty)) [
  | inl here ↦ (0, omega arith, here)
  | inr on ↦ let (x, lt, e) = free_exists t (ground arith) in (suc x, omega arith, e)
]

pub used-replicate : (n : ℕ) → used (replicate n empty_bucket) ≡ 0
unfolding used
used-replicate zero = refl
used-replicate (suc n) = omega (arith, used-replicate n)

-- From any slot, probing a table that is not full ends at a slot of the table.
pub free_slot-total :
    (t : List HashBucket) (slot : ℕ)
    → used t < length t
    → slot < length t
    → (s : ℕ) × (free_slot (length t) t slot ≡ some s) × (s < length t)
free_slot-total t slot room lt =
    let n = length t in
    let (x, within, e) = free_exists t room in
    let d : ℕ = (x + n - slot) % n in
    let there : (slot + d) % n ≡ x =
      add-mod-mod slot (x + n - slot) n
      ∙ ap (λ (k : ℕ). k % n) (omega arith)
      ∙ add-mod_right x n
      ∙ mod-eq_of_lt within in
    let (s, run) =
      free_slot-reaches t d n slot (mod-lt _ (omega arith)) lt (ap (is_free t) there ∙ e) in
    (s, run, free_slot-lt t n slot s lt run)

-- The bucket that `insert_name` writes over `old`.
abbrev pub filled : HashBucket → ℕ → ℕ → HashBucket
filled old h i = record old { hash = h; directory_index = i % 2 ^ 32 }

pub insert_name_lem :
    (t : List HashBucket) (h i s : ℕ)
    → free_slot (length t) t (h % length t) ≡ some s
    → insert_name t h i ≡ some (set t s (filled (bucket_at t s) h i))
unfolding insert_name
insert_name_lem t h i s e = rw e refl

-- Every insertion ends as long as the names left are fewer than the free buckets or as many.
pub insert_names-total :
    (rs : List Resource) (t : List HashBucket) (i : ℕ)
    → used t + length rs ≤ length t
    → (t' : List HashBucket) × (insert_names t i rs ≡ some t') × (length t' ≡ length t)
unfolding insert_names
insert_names-total [] t i room = (t, refl, refl)
insert_names-total (r ∷ rs) t i room =
    let h = elfr_fnv1a64 r.name in
    let (s, run, lt) = free_slot-total t (h % length t) (omega arith) (mod-lt h (omega arith)) in
    let b = filled (bucket_at t s) h i in
    let kept = length-set t s b in
    let (t', rest, len) =
      insert_names-total rs (set t s b) (i + 1) (omega (arith, kept, used-set t s b)) in
    (t', >>=-some (λ u. insert_names u (i + 1) rs) (insert_name_lem t h i s run) rest, len ∙ kept)

-- Up to 2^30 resources, building the table ends: no probe runs for ever. The table has the size
-- that `bucket_count_for` gives, at least 16 and at least twice the number of resources.
pub build_buckets-total :
    (rs : List Resource)
    → length rs ≤ 2 ^ 30
    → (t : List HashBucket) × (build_buckets rs ≡ some t)
      × (bucket_count_for (length rs) ≡ some (length t))
      × (16 ≤ length t)
      × (length rs * 2 ≤ length t)
      × (length t ≤ 2 ^ 31)
unfolding build_buckets empty_buckets
build_buckets-total rs small =
    let (n, count, least, load, most) = bucket_count_for_lem (length rs) small in
    let len : length (replicate n empty_bucket) ≡ n = length-replicate n empty_bucket in
    let (t, run, same) =
      insert_names-total rs (replicate n empty_bucket) 0 (omega (arith, used-replicate n)) in
    (
      t,
      >>=-some (λ c. insert_names (replicate c empty_bucket) 0 rs) count run,
      count ∙ ap some (sym (same ∙ len)),
      omega arith,
      omega arith,
      omega arith,
    )
