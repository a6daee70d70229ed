-- ===== src/Container/HashTable/Step.antt =====
-- One insertion keeps every lookup right.
use mathlib.Core.Option
use Prim.Native.Nat.add
use elfrc.Base.{
  ℕ, ◌%◌, ◌^◌, ◌<◌, ◌≡◌, ◌≢◌, refl, sym, ap, ◌∙◌, arith, List, [], ◌∷◌, ◌++◌, none, some, Bool,
  true, false, ◌&&◌, ◌==◌, length, get_elem?, set, length-set, get_or-set_self, get_or-set_ne,
  Bool-cases, Option-cases, inl, inr, ℕ_discrete,
}
use elfrc.Bytes.{bytes_eq}
use elfrc.Bytes.Laws.{bytes_eq_iff}
use elfrc.Fnv1a.{elfr_fnv1a64}
use elfrc.Format.{HashBucket, erf_hash_empty}
use elfrc.Manifest.{Resource}
use elfrc.Container.HashTable.{empty_bucket, free_slot}
use elfrc.Container.HashTable.Probe.{
  bucket_at, is_free, first_hit, Filled, first_hit_kept, first_hit_nothing, first_hit_new,
  free_slot-is_free, first_hit_sound,
}
use elfrc.Container.HashTable.Insert.{filled}
use elfrc.Container.HashTable.Spec.{
  named, is_hit, lookup, first_index, first_index-append_some, first_index-append_none, index_of,
  clash, hash_and_name, named_here, nothing,
}

-- The table `t` holds the resources `placed`, a front part of `all`.
pub record Holds (all placed : List Resource) (t : List HashBucket) : Type 0 where
  pub found : (q : List ℕ) → Option.map (index_of t) (lookup all t q) ≡ first_index q 0 placed
  pub hidden : (q : List ℕ) → lookup all t q ≡ none → (x : ℕ) → is_hit all t q x ≡ false

module _ (all placed : List Resource) (r : Resource) (t : List HashBucket) (s : ℕ)
    (free : free_slot (length t) t (elfr_fnv1a64 r.name % length t) ≡ some s)
    (within : s < length t) (here : get_elem? all (length placed) ≡ some r)
    (small : length placed < erf_hash_empty) where
  abbrev bucket : HashBucket
  bucket = filled (bucket_at t s) (elfr_fnv1a64 r.name) (length placed)

  abbrev next : List HashBucket
  next = set t s bucket

  at_s : bucket_at next s ≡ bucket
  at_s = get_or-set_self t s bucket empty_bucket within

  elsewhere : (x : ℕ) → x ≢ s → bucket_at next x ≡ bucket_at t x
  elsewhere x ne = get_or-set_ne t s x bucket empty_bucket (λ e. ne (sym e))

  index_at_s : index_of next s ≡ length placed
  index_at_s = ap (λ (b : HashBucket). b.directory_index) at_s ∙ omega arith

  hit_at_s : (q : List ℕ) → is_hit all next q s ≡ bytes_eq r.name q
  hit_at_s q =
      let cut : length placed % 2 ^ 32 ≡ length placed = omega arith in
      ap (λ (b : HashBucket). (b.hash == elfr_fnv1a64 q) && named all b.directory_index q) at_s
      ∙ ap (λ (i : ℕ). (elfr_fnv1a64 r.name == elfr_fnv1a64 q) && named all i q) cut
      ∙ ap (λ (b : Bool). (elfr_fnv1a64 r.name == elfr_fnv1a64 q) && b)
          (named_here all r q (length placed) here)
      ∙ hash_and_name r.name q

  next-Filled :
      (q : List ℕ) → Filled s (is_free t) (is_free next) (is_hit all t q) (is_hit all next q)
  next-Filled q = record {
    was = free_slot-is_free t (length t) _ s free;
    now = ground (arith, index_at_s);
    frees = λ x ne. ap (λ (b : HashBucket). b.directory_index == erf_hash_empty) (elsewhere x ne);
    hits = λ x ne.
        ap (λ (b : HashBucket). (b.hash == elfr_fnv1a64 q) && named all b.directory_index q)
          (elsewhere x ne);
  }

  -- The lookup for the new name itself, where there was none before.
  lookup_new :
      (q : List ℕ)
      → bytes_eq r.name q ≡ true
      → ((x : ℕ) → is_hit all t q x ≡ false)
      → lookup all next q ≡ some s
  unfolding lookup
  lookup_new q same clean =
      let slot : elfr_fnv1a64 r.name % length t ≡ elfr_fnv1a64 q % length t =
        ap (λ (n : List ℕ). elfr_fnv1a64 n % length t) ((bytes_eq_iff r.name q).0 same) in
      let run =
        first_hit_new t s (is_free next) (is_hit all t q) (is_hit all next q) (next-Filled q)
          (λ x ne. clean x) (hit_at_s q ∙ same) (length t) (elfr_fnv1a64 r.name % length t) free in
      ap (λ (n : ℕ). first_hit n (is_free next) (is_hit all next q) n (elfr_fnv1a64 q % n))
        (length-set t s bucket)
      ∙ ap (first_hit (length t) (is_free next) (is_hit all next q) (length t)) (sym slot)
      ∙ run

  lookup_kept : (q : List ℕ) (x : ℕ) → lookup all t q ≡ some x → lookup all next q ≡ some x
  unfolding lookup
  lookup_kept q x e =
      ap (λ (n : ℕ). first_hit n (is_free next) (is_hit all next q) n (elfr_fnv1a64 q % n))
        (length-set t s bucket)
      ∙ first_hit_kept (length t) s (is_free t) (is_free next) (is_hit all t q) (is_hit all next q)
          (next-Filled q) (length t) (elfr_fnv1a64 q % length t) x e

  -- No slot hits a name that differs from the new one and that had no hit.
  all_clean :
      (q : List ℕ)
      → bytes_eq r.name q ≡ false
      → ((x : ℕ) → is_hit all t q x ≡ false)
      → (x : ℕ) → is_hit all next q x ≡ false
  all_clean q other clean x = elim (ℕ_discrete x s) [
    | yes e ↦ ap (is_hit all next q) e ∙ hit_at_s q ∙ other
    | no ne ↦ (next-Filled q).hits x ne ∙ clean x
  ]

  lookup-none :
      (q : List ℕ)
      → bytes_eq r.name q ≡ false
      → ((x : ℕ) → is_hit all t q x ≡ false)
      → lookup all next q ≡ none
  unfolding lookup
  lookup-none q other clean =
      first_hit_nothing (length next) (is_free next) (is_hit all next q) (length next)
        (elfr_fnv1a64 q % length next) (all_clean q other clean)

  -- A slot in use is not the one that was filled.
  kept_index : (q : List ℕ) (x : ℕ) → lookup all t q ≡ some x → index_of next x ≡ index_of t x
  unfolding lookup
  kept_index q x e =
      let in_use = (first_hit_sound (length t) (is_free t) (is_hit all t q) (length t) _ x e).0 in
      let was = free_slot-is_free t (length t) _ s free in
      let ne : x ≢ s = λ (same : x ≡ s). clash (sym in_use ∙ ap (is_free t) same ∙ was) in
      ap (λ (b : HashBucket). b.directory_index) (elsewhere x ne)

  step_found :
      (q : List ℕ)
      → Holds all placed t
      → Option.map (index_of next) (lookup all next q) ≡ first_index q 0 (placed ++ (r ∷ []))
  step_found q held = elim (Option-cases (lookup all t q)) [
    | inr (x, e) ↦
        let old : first_index q 0 placed ≡ some (index_of t x) =
          sym (held.found q) ∙ ap (Option.map (index_of t)) e in
        ap (Option.map (index_of next)) (lookup_kept q x e)
        ∙ ap some (kept_index q x e)
        ∙ sym (first_index-append_some q 0 (index_of t x) placed r old)
    | inl e ↦
        let old : first_index q 0 placed ≡ none =
          sym (held.found q) ∙ ap (Option.map (index_of t)) e in
        let grown = first_index-append_none q 0 placed r old in
        elim (Bool-cases (bytes_eq r.name q)) [
          | inl same ↦
              ap (Option.map (index_of next)) (lookup_new q same (held.hidden q e))
              ∙ ap some (index_at_s ∙ sym (add.zero (length placed)))
              ∙ sym (grown ∙ rw same refl)
          | inr other ↦
              ap (Option.map (index_of next)) (lookup-none q other (held.hidden q e))
              ∙ sym (grown ∙ rw other refl)
        ]
  ]

  step_hidden :
      (q : List ℕ)
      → Holds all placed t
      → lookup all next q ≡ none
      → (x : ℕ) → is_hit all next q x ≡ false
  step_hidden q held e x = elim (Option-cases (lookup all t q)) [
    | inr (y, f) ↦ absurd (nothing (sym e ∙ lookup_kept q y f))
    | inl f ↦ elim (Bool-cases (bytes_eq r.name q)) [
      | inl same ↦ absurd (nothing (sym e ∙ lookup_new q same (held.hidden q f)))
      | inr other ↦ all_clean q other (held.hidden q f) x
    ]
  ]

  pub step-Holds : Holds all placed t → Holds all (placed ++ (r ∷ [])) next
  step-Holds held = record { found = λ q. step_found q held; hidden = λ q. step_hidden q held }
