-- ===== src/Built/Found.antt =====
-- `erf_find_in` on a built container: the probe of the stored table.
use elfrc.Base.{
  ℕ, zero, suc, ◌+◌, ◌*◌, ◌%◌, ◌<◌, ◌≡◌, refl, ap, ◌∙◌, arith, List, Option, none, some, true, All,
  length, drop, if◌then◌else◌, if-true, ltb, ◌==◌, ◌&&◌, dec_lt,
}
use mathlib.Core.Option
use native.Mathlib.Nat.{mod-lt}
use elfrc.Bytes.{read, string_at, bytes_eq}
use elfrc.Bytes.Laws.{IsCString}
use elfrc.Bytes.Sits.{Sits}
use elfrc.Fnv1a.{elfr_fnv1a64}
use elfrc.Format.{HashBucket, sizeof_bucket}
use elfrc.Manifest
use elfrc.Container.HashTable.Lookup.{get_elem?-none, named_outside}
use elfrc.Container.HashTable.Probe.{is_free, first_hit}
use elfrc.Container.HashTable.Spec.{named, is_hit, lookup, index_of}
use elfrc.Container.Build.{Layout}
use elfrc.Container.Sections.{Files, buckets_bytes}
use elfrc.Reader.Outcome.{not_found, Outcome, ok, err, load}
use elfrc.Reader.Container.{Resource, Container}
use elfrc.Reader.Find.{
  strcmp_eq, name_matches, bucket_matches, probe, find_hashed, find_name, erf_find_in,
}
use elfrc.Reader.Find.Names.{strcmp_eq-c_string, name_hash-eq-elfr_fnv1a64}
use elfrc.Built.Accepted.{element}
use elfrc.Built.Buckets.{IsBucket, read_bucket}
use elfrc.Built.Opened.{IsReadBack, IsHandle}

-- A lookup's result as the reader reports it.
abbrev pub reported : Option ℕ → Outcome ℕ
reported none = err not_found
reported (some i) = ok i

module _ (files : Files) (rs : List Manifest.Resource) (t : List HashBucket) (l : Layout)
    (mem : List ℕ) (c : Container) (held : IsHandle files rs t l mem c) (q : List ℕ)
    (q_ok : IsCString q) where
  name_matches_lem :
      (r : Manifest.Resource) (x : Resource)
      → IsReadBack files mem r x
      → name_matches c x q ≡ ok (bytes_eq r.name q)
  unfolding name_matches string_at
  name_matches_lem r x b =
      ap (λ (m : List ℕ). load (strcmp_eq (drop x.name m) q)) held.base
      ∙ ap load (strcmp_eq-c_string (drop x.name mem) q r.name q_ok b.name)

  -- The reader's test on a bucket is the specification's.
  bucket_matches_lem :
      (h hash index : ℕ) → bucket_matches c q h hash index ≡ ok ((hash == h) && named rs index q)
  unfolding bucket_matches
  bucket_matches_lem h hash index = elim (dec_lt index (length rs)) [
    | yes lt ↦
        let (r, e) = element rs index lt in
        let (x, f, b) = held.each index r e in
        ground (arith, e, f, held.count, name_matches_lem r x b)
    | no past ↦
        ground (arith, held.count, named_outside rs index q (get_elem?-none rs index (omega arith)))
  ]

  module _ (buckets : All IsBucket t) (sits : Sits mem c.hash_buckets (buckets_bytes t))
      (least : 0 < length t) where
    abbrev h : ℕ
    h = elfr_fnv1a64 q

    -- One round.
    probe_step :
        (slot left : ℕ)
        → slot < length t
        → probe c q h slot (suc left) ≡ (
            if is_free t slot
            then err not_found
            else if is_hit rs t q slot
            then ok (index_of t slot)
            else probe c q h ((slot + 1) % length t) left)
    unfolding probe
    probe_step slot left lt =
        let (raw, got, same) = read_bucket mem c.hash_buckets t slot buckets lt sits in
        let got' : read c.base (c.hash_buckets + slot * sizeof_bucket) sizeof_bucket ≡ some raw =
          ap (λ (m : List ℕ). read m (c.hash_buckets + slot * sizeof_bucket) sizeof_bucket)
            held.base
          ∙ got in
        rw (got', same, bucket_matches_lem)
          (ap
            (λ (n : ℕ).
              if is_free t slot
              then err not_found
              else if is_hit rs t q slot
              then ok (index_of t slot)
              else probe c q h ((slot + 1) % n) left)
            held.bucket_count)

    probe-eq-first_hit :
        (left slot : ℕ)
        → slot < length t
        → probe c q h slot left
          ≡ reported
              (Option.map (index_of t) (first_hit (length t) (is_free t) (is_hit rs t q) left slot))
    unfolding first_hit
    probe-eq-first_hit zero slot lt = unfold probe in refl
    probe-eq-first_hit (suc left) slot lt =
        probe_step slot left lt
        ∙ ground (arith, probe-eq-first_hit left ((slot + 1) % length t) (mod-lt (slot + 1) least))

    pub erf_find_in-eq-lookup :
        erf_find_in (some c) (some q) ≡ reported (Option.map (index_of t) (lookup rs t q))
    unfolding erf_find_in find_name find_hashed lookup
    erf_find_in-eq-lookup =
        let there : (c.has_hash_table && ltb 0 c.hash_bucket_count) ≡ true =
          ground (arith, held.hashed, held.bucket_count) in
        if-true _ _ there
        ∙ ap (λ (g : ℕ). probe c q g (g % c.hash_bucket_count) c.hash_bucket_count)
            (name_hash-eq-elfr_fnv1a64 q)
        ∙ ap (λ (n : ℕ). probe c q h (h % n) n) held.bucket_count
        ∙ probe-eq-first_hit (length t) (h % length t) (mod-lt h least)
