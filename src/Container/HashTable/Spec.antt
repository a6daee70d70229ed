-- ===== src/Container/HashTable/Spec.antt =====
-- What a lookup in the hash table of container_build.c should give.
use native.Mathlib.Nat.{add-zero}
use elfrc.Base.{
  ℕ, suc, ◌+◌, ◌%◌, ◌≡◌, refl, ap, arith, List, [], ◌∷◌, ◌++◌, Option, none, some, Bool, true,
  false, ◌&&◌, ◌==◌, if◌then◌else◌, length, get_elem?, Bool-cases, inl, inr, ==_iff,
}
use elfrc.Bytes.{bytes_eq}
use elfrc.Bytes.Laws.{bytes_eq_iff}
use elfrc.Fnv1a.{elfr_fnv1a64}
use elfrc.Format.{HashBucket}
use elfrc.Manifest.{Resource}
use elfrc.Container.HashTable.Probe.{bucket_at, is_free, first_hit}

-- Resource `i` of `all` has the name `q`.
abbrev pub named : List Resource → ℕ → List ℕ → Bool
named all i q = elim (get_elem? all i) [ none ↦ false | some r ↦ bytes_eq r.name q ]

-- The reader's test on a bucket.
abbrev pub is_hit : List Resource → List HashBucket → List ℕ → ℕ → Bool
is_hit all t q x =
    let b = bucket_at t x in (b.hash == elfr_fnv1a64 q) && named all b.directory_index q

unfoldable pub lookup : List Resource → List HashBucket → List ℕ → Option ℕ
lookup all t q =
    first_hit (length t) (is_free t) (is_hit all t q) (length t) (elfr_fnv1a64 q % length t)

-- The specification: the index of the first resource with the name, counted from `i`.
unfoldable pub first_index : List ℕ → ℕ → List Resource → Option ℕ
first_index q i [] = none
first_index q i (r ∷ rs) =
    let rest = first_index q (i + 1) rs in if bytes_eq r.name q then some i else rest

pub first_index-append_some :
    (q : List ℕ) (i j : ℕ) (rs : List Resource) (r : Resource)
    → first_index q i rs ≡ some j
    → first_index q i (rs ++ (r ∷ [])) ≡ some j
unfolding first_index
first_index-append_some q i j [] r e = cc
first_index-append_some q i j (x ∷ rs) r e =
    ground (arith, first_index-append_some q (i + 1) j rs r)

pub first_index-append_none :
    (q : List ℕ) (i : ℕ) (rs : List Resource) (r : Resource)
    → first_index q i rs ≡ none
    → first_index q i (rs ++ (r ∷ [])) ≡ (if bytes_eq r.name q then some (i + length rs) else none)
unfolding first_index
first_index-append_none q i [] r e = rw add-zero refl
first_index-append_none q i (x ∷ rs) r e =
    let shift : i + 1 + length rs ≡ i + suc (length rs) = omega arith in
    ground (arith, shift, first_index-append_none q (i + 1) rs r)

pub clash : false ≡ true → ⊥
clash e = cc

pub and_false : (b : Bool) → (b && false) ≡ false
and_false true = refl
and_false false = refl

-- Equal names have equal hashes, so the test on the hash costs no hit.
pub hash_and_name :
    (n q : List ℕ) → ((elfr_fnv1a64 n == elfr_fnv1a64 q) && bytes_eq n q) ≡ bytes_eq n q
hash_and_name n q = elim (Bool-cases (bytes_eq n q)) [
  | inl e ↦
      let same : n ≡ q = (bytes_eq_iff n q).0 e in
      let hash : (elfr_fnv1a64 n == elfr_fnv1a64 q) ≡ true =
        (==_iff _ _).1 (ap elfr_fnv1a64 same) in
      rw hash refl
  | inr e ↦ rw e (and_false _)
]

pub named_here :
    (all : List Resource) (r : Resource) (q : List ℕ) (i : ℕ)
    → get_elem? all i ≡ some r
    → named all i q ≡ bytes_eq r.name q
named_here all r q i e = rw (e, named) refl

pub nothing : {x : ℕ} → ◌≡◌ {A = Option ℕ} none (some x) → ⊥
nothing e = cc

abbrev pub index_of : List HashBucket → ℕ → ℕ
index_of t x = (bucket_at t x).directory_index
