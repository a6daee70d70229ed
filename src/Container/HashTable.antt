-- ===== src/Container/HashTable.antt =====
-- The hash table of container_build.c: open addressing with linear probing.
pub mod Size
pub mod Probe
pub mod Insert
pub mod Spec
pub mod Step
pub mod Lookup
mod Tests
use elfrc.Base.{
  ℕ, zero, suc, ◌+◌, ◌*◌, ◌%◌, ◌^◌, List, [], ◌∷◌, ◌++◌, Option, none, some, ltb, ◌==◌,
  if◌then◌else◌, length, get_or, set, replicate,
}
use elfrc.Base.Maybe.{◌>>=◌}
use elfrc.Fnv1a.{elfr_fnv1a64}
use elfrc.Format.{HashBucket, erf_hash_empty}
use elfrc.Manifest.{Resource}

-- `while (p < v) p *= 2;` on uint32_t, with fuel. `none` means that the loop still runs.
unfoldable pub double_until : ℕ → ℕ → ℕ → Option ℕ
double_until zero p v = none
double_until (suc fuel) p v =
    let more = double_until fuel (p * 2 % 2 ^ 32) v in if ltb p v then more else some p

-- From 16 on, 28 rounds reach every power of two that a uint32_t holds.
unfoldable pub next_pow2 : ℕ → Option ℕ
next_pow2 v = double_until 28 16 v

-- `calloc`, and the loop that marks every bucket as unused.
abbrev pub empty_bucket : HashBucket
empty_bucket = record { hash = 0; directory_index = erf_hash_empty; reserved0 = 0 }

unfoldable pub empty_buckets : ℕ → List HashBucket
empty_buckets n = replicate n empty_bucket

-- `while (buckets[slot].directory_index != ERF_HASH_EMPTY) slot = (slot + 1) % bucket_count;`
-- with fuel. A table without a free bucket is searched for ever.
unfoldable pub free_slot : ℕ → List HashBucket → ℕ → Option ℕ
free_slot zero buckets slot = none
free_slot (suc fuel) buckets slot =
    let more = free_slot fuel buckets ((slot + 1) % length buckets) in
    if (get_or buckets slot empty_bucket).directory_index == erf_hash_empty then some slot else more

-- One round of the loop over the resources. `calloc` has zeroed `reserved0`.
unfoldable pub insert_name : List HashBucket → ℕ → ℕ → Option (List HashBucket)
insert_name buckets h i = do
  slot ← free_slot (length buckets) buckets (h % length buckets)
  let old = get_or buckets slot empty_bucket
  some (set buckets slot (record old { hash = h; directory_index = i % 2 ^ 32 }))

-- The loop from resource `i` on.
unfoldable pub insert_names : List HashBucket → ℕ → List Resource → Option (List HashBucket)
insert_names buckets i [] = some buckets
insert_names buckets i (r ∷ rs) = do
  buckets' ← insert_name buckets (elfr_fnv1a64 r.name) i
  insert_names buckets' (i + 1) rs

-- `next_pow2((uint32_t)(n * 2))`, and 16 for an empty manifest.
unfoldable pub bucket_count_for : ℕ → Option ℕ
bucket_count_for n = do count ← next_pow2 (n * 2 % 2 ^ 32); some (if n == 0 then 16 else count)

unfoldable pub build_buckets : List Resource → Option (List HashBucket)
build_buckets rs = do count ← bucket_count_for (length rs); insert_names (empty_buckets count) 0 rs
