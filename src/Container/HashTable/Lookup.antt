-- ===== src/Container/HashTable/Lookup.antt =====
-- The table that container_build.c builds answers a lookup with the first resource of that name.
use mathlib.Core.Option
use native.Mathlib.Nat.{mod-lt}
use elfrc.Base.{
  ℕ, zero, suc, ◌+◌, ◌%◌, ◌^◌, ◌≤◌, ◌<◌, ◌≡◌, refl, sym, ap, subst, ◌∙◌, arith, List, [], ◌∷◌, ◌++◌,
  none, some, Bool, false, ◌&&◌, ◌==◌, length, length-append, get_elem?, set, length-set, replicate,
  length-replicate, get_or-replicate, append_assoc, append-nil,
}
use elfrc.Base.Maybe.{>>=-some}
use elfrc.Fnv1a.{elfr_fnv1a64}
use elfrc.Format.{HashBucket, erf_hash_empty}
use elfrc.Manifest.{Resource}
use elfrc.Container.HashTable.{empty_bucket, empty_buckets, insert_names, build_buckets}
use elfrc.Container.HashTable.Probe.{bucket_at, first_hit_nothing}
use elfrc.Container.HashTable.Insert.{
  used, used-set, used-replicate, filled, insert_name_lem, free_slot-total, build_buckets-total,
}
use elfrc.Container.HashTable.Spec.{named, is_hit, lookup, first_index, index_of, and_false}
use elfrc.Container.HashTable.Step.{Holds, step-Holds}

get_elem?-append :
    (xs ys : List Resource) (y : Resource) → get_elem? (xs ++ (y ∷ ys)) (length xs) ≡ some y
get_elem?-append [] ys y = refl
get_elem?-append (x ∷ xs) ys y = get_elem?-append xs ys y

insert_names-Holds :
    (placed rest : List Resource) (t t' : List HashBucket)
    → used t + length rest ≤ length t
    → length placed + length rest < erf_hash_empty
    → Holds (placed ++ rest) placed t
    → insert_names t (length placed) rest ≡ some t'
    → Holds (placed ++ rest) (placed ++ rest) t'
unfolding insert_names
insert_names-Holds placed [] t t' room small held e =
    let same : t ≡ t' = cc in
    subst (λ u. Holds (placed ++ []) (placed ++ []) u) same
      (subst (λ p. Holds (placed ++ []) p t) (sym (append-nil placed)) held)
insert_names-Holds placed (r ∷ rest) t t' room small held e =
    let all = placed ++ (r ∷ rest) in
    let placed' = placed ++ (r ∷ []) in
    let h = elfr_fnv1a64 r.name in
    let (s, free, lt) = free_slot-total t (h % length t) (omega arith) (mod-lt h (omega arith)) in
    let b = filled (bucket_at t s) h (length placed) in
    let assoc : placed' ++ rest ≡ all = append_assoc placed (r ∷ []) rest in
    let count : length placed' ≡ length placed + 1 = length-append placed (r ∷ []) ∙ omega arith in
    let here = get_elem?-append placed rest r in
    let now = step-Holds all placed r t s free lt here (omega arith) held in
    let goes : insert_names (set t s b) (length placed') rest ≡ some t' =
      ap (λ (n : ℕ). insert_names (set t s b) n rest) count
      ∙ sym (
          >>=-some (λ u. insert_names u (length placed + 1) rest)
            (insert_name_lem t h (length placed) s free) refl)
      ∙ e in
    subst (λ a. Holds a a t') assoc
      (insert_names-Holds placed' rest (set t s b) t'
        (omega (arith, used-set t s b, length-set t s b)) (omega (arith, count))
        (subst (λ a. Holds a placed' (set t s b)) (sym assoc) now) goes)

pub get_elem?-none : (xs : List Resource) (i : ℕ) → length xs ≤ i → get_elem? xs i ≡ none
get_elem?-none [] i h = refl
get_elem?-none (x ∷ xs) zero h = absurd (omega arith)
get_elem?-none (x ∷ xs) (suc i) h = get_elem?-none xs i (omega arith)

pub named_outside :
    (all : List Resource) (i : ℕ) (q : List ℕ) → get_elem? all i ≡ none → named all i q ≡ false
named_outside all i q e = rw (e, named) refl

empty_hidden :
    (all : List Resource) (n : ℕ) (q : List ℕ) (x : ℕ)
    → length all ≤ 2 ^ 30
    → is_hit all (replicate n empty_bucket) q x ≡ false
empty_hidden all n q x small =
    ap (λ (b : HashBucket). (b.hash == elfr_fnv1a64 q) && named all b.directory_index q)
      (get_or-replicate n x empty_bucket)
    ∙ ap (λ (b : Bool). (0 == elfr_fnv1a64 q) && b)
        (named_outside all erf_hash_empty q (get_elem?-none all erf_hash_empty (omega arith)))
    ∙ and_false (0 == elfr_fnv1a64 q)

empty-Holds :
    (all : List Resource) (n : ℕ) → length all ≤ 2 ^ 30 → Holds all [] (replicate n empty_bucket)
unfolding first_index lookup
empty-Holds all n small = record {
  found = λ q. ap (Option.map (index_of (replicate n empty_bucket))) (
      first_hit_nothing _ _ (is_hit all (replicate n empty_bucket) q) _ _
        (λ x. empty_hidden all n q x small));
  hidden = λ q e x. empty_hidden all n q x small;
}

-- For up to 2^30 resources the table is built, and in it the probe for a name, from the name's own
-- slot up to the first free bucket and with the reader's test on hash and name, gives the index of
-- the first resource with that name, and nothing if there is none.
pub lookup-build_buckets :
    (rs : List Resource)
    → length rs ≤ 2 ^ 30
    → (t : List HashBucket) × (build_buckets rs ≡ some t)
      × ((q : List ℕ) → Option.map (index_of t) (lookup rs t q) ≡ first_index q 0 rs)
unfolding build_buckets empty_buckets
lookup-build_buckets rs small =
    let (t, built, count, least, load, most) = build_buckets-total rs small in
    let e : insert_names (replicate (length t) empty_bucket) 0 rs ≡ some t =
      sym (>>=-some (λ c. insert_names (replicate c empty_bucket) 0 rs) count refl) ∙ built in
    let held =
      insert_names-Holds [] rs (replicate (length t) empty_bucket) t
        (omega (arith, used-replicate (length t), length-replicate (length t) empty_bucket))
        (omega arith) (empty-Holds rs (length t) small) e in
    (t, built, held.found)
