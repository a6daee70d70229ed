-- ===== src/Built/Buckets.antt =====
-- The hash table in the container: each bucket is read as it was built.
use elfrc.Base.{
  ℕ, zero, suc, ◌+◌, ◌*◌, ◌%◌, ◌^◌, ◌<◌, ◌≡◌, refl, sym, ap, subst, ◌∙◌, arith, List, [], ◌∷◌, none,
  some, All, length, set, replicate, inl, inr, Option-cases, append-nil,
}
use elfrc.Base.Maybe.{>>=-some}
use native.Mathlib.Nat.{add-zero}
use elfrc.Bytes.{le_bytes, read}
use elfrc.Bytes.Sits.{Sits, Sits-left, Sits-right, read-Sits}
use elfrc.Fnv1a.{elfr_fnv1a64}
use elfrc.Fnv1a.Laws.{elfr_fnv1a64-lt}
use elfrc.Format.{HashBucket, bucket_bytes, bucket_of, sizeof_bucket}
use elfrc.Format.RoundTrip.{Fits, bucket_of-bucket_bytes}
use elfrc.Manifest.{Resource}
use elfrc.Container.HashTable.{
  empty_bucket, empty_buckets, free_slot, insert_name, insert_names, bucket_count_for,
  build_buckets,
}
use elfrc.Container.HashTable.Insert.{insert_name_lem}
use elfrc.Container.HashTable.Probe.{bucket_at}
use elfrc.Container.Sections.{buckets_bytes}

-- The fields of a bucket fit their widths.
pub record IsBucket (b : HashBucket) : Type 0 where
  pub hash : Fits 8 b.hash
  pub directory_index : Fits 4 b.directory_index
  pub reserved0 : Fits 4 b.reserved0

empty_bucket-IsBucket : IsBucket empty_bucket
empty_bucket-IsBucket = record {
  hash = omega arith;
  directory_index = omega arith;
  reserved0 = omega arith;
}

replicate-AreBuckets : (n : ℕ) → All IsBucket (replicate n empty_bucket)
replicate-AreBuckets zero = tt
replicate-AreBuckets (suc n) = (empty_bucket-IsBucket, replicate-AreBuckets n)

bucket_at-IsBucket : (t : List HashBucket) (s : ℕ) → All IsBucket t → IsBucket (bucket_at t s)
bucket_at-IsBucket [] s a = empty_bucket-IsBucket
bucket_at-IsBucket (b ∷ t) zero (h, a) = h
bucket_at-IsBucket (b ∷ t) (suc s) (h, a) = bucket_at-IsBucket t s a

set-AreBuckets :
    (t : List HashBucket) (s : ℕ) (b : HashBucket)
    → All IsBucket t
    → IsBucket b
    → All IsBucket (set t s b)
set-AreBuckets [] s b a h = tt
set-AreBuckets (x ∷ t) zero b (_, a) h = (h, a)
set-AreBuckets (x ∷ t) (suc s) b (g, a) h = (g, set-AreBuckets t s b a h)

insert_name-AreBuckets :
    (t t' : List HashBucket) (h i : ℕ)
    → h < 2 ^ 64
    → All IsBucket t
    → insert_name t h i ≡ some t'
    → All IsBucket t'
insert_name-AreBuckets t t' h i word a e =
    elim (Option-cases (free_slot (length t) t (h % length t))) [
      | inl f ↦ absurd (stuck f e)
      | inr (s, f) ↦
          let old = bucket_at-IsBucket t s a in
          subst (All IsBucket) (some_injective (sym (insert_name_lem t h i s f) ∙ e)) (
            set-AreBuckets t s _ a
              (record { hash = word; directory_index = omega arith; reserved0 = old.reserved0 }))
    ]
  where
    some_injective : {A : Type 0} {x y : A} → some x ≡ some y → x ≡ y
    some_injective p = cc

    stuck : free_slot (length t) t (h % length t) ≡ none → insert_name t h i ≡ some t' → ⊥
    stuck f e = unfold insert_name in ground (arith, f, e)

insert_names-AreBuckets :
    (rs : List Resource) (t t' : List HashBucket) (i : ℕ)
    → All IsBucket t
    → insert_names t i rs ≡ some t'
    → All IsBucket t'
unfolding insert_names
insert_names-AreBuckets [] t t' i a e = subst (All IsBucket) (cc) a
insert_names-AreBuckets (r ∷ rs) t t' i a e =
    let h = elfr_fnv1a64 r.name in
    elim (Option-cases (insert_name t h i)) [
      | inl f ↦ absurd (ground (arith, f, e))
      | inr (u, f) ↦
          insert_names-AreBuckets rs u t' (i + 1)
            (insert_name-AreBuckets t u h i (elfr_fnv1a64-lt r.name) a f)
            (sym (>>=-some (λ v. insert_names v (i + 1) rs) f refl) ∙ e)
    ]

pub build_buckets-AreBuckets :
    (rs : List Resource) (t : List HashBucket) → build_buckets rs ≡ some t → All IsBucket t
unfolding build_buckets empty_buckets
build_buckets-AreBuckets rs t e = elim (Option-cases (bucket_count_for (length rs))) [
  | inl f ↦ absurd (ground (arith, f, e))
  | inr (n, f) ↦
      insert_names-AreBuckets rs (replicate n empty_bucket) t 0 (replicate-AreBuckets n)
        (sym (>>=-some (λ c. insert_names (replicate c empty_bucket) 0 rs) f refl) ∙ e)
]

length-bucket_bytes : (b : HashBucket) → length (bucket_bytes b) ≡ sizeof_bucket
unfolding bucket_bytes le_bytes
length-bucket_bytes b = refl

buckets_bytes-Sits :
    (mem : List ℕ) (off : ℕ) (t : List HashBucket) (s : ℕ)
    → s < length t
    → Sits mem off (buckets_bytes t)
    → Sits mem (off + s * sizeof_bucket) (bucket_bytes (bucket_at t s))
unfolding buckets_bytes
buckets_bytes-Sits mem off [] s lt sits = absurd (omega arith)
buckets_bytes-Sits mem off (b ∷ t) zero lt sits =
    subst (λ k. Sits mem k (bucket_bytes b)) (sym (add-zero off))
      (Sits-left (bucket_bytes b) (buckets_bytes t) sits)
buckets_bytes-Sits mem off (b ∷ t) (suc s) lt sits =
    subst (λ k. Sits mem k (bucket_bytes (bucket_at t s))) (omega (arith, length-bucket_bytes b))
      (buckets_bytes-Sits mem (off + length (bucket_bytes b)) t s (omega arith)
        (Sits-right (bucket_bytes b) (buckets_bytes t) sits))

-- Bucket `s` is read from the container as it stands in the table.
pub read_bucket :
    (mem : List ℕ) (off : ℕ) (t : List HashBucket) (s : ℕ)
    → All IsBucket t
    → s < length t
    → Sits mem off (buckets_bytes t)
    → (raw : List ℕ) × (read mem (off + s * sizeof_bucket) sizeof_bucket ≡ some raw)
      × (bucket_of raw ≡ bucket_at t s)
read_bucket mem off t s a lt sits =
    let b = bucket_at t s in
    let ok = bucket_at-IsBucket t s a in
    (
      bucket_bytes b,
      read-Sits (bucket_bytes b) (sym (length-bucket_bytes b))
          (buckets_bytes-Sits mem off t s lt sits),
      ap bucket_of (sym (append-nil (bucket_bytes b)))
          ∙ bucket_of-bucket_bytes b [] ok.hash ok.directory_index ok.reserved0,
    )
