-- ===== src/Built/RoundTrip.antt =====
-- container_build.c and erf_reader.c together: what was put in comes out.
use elfrc.Base.{
  ℕ, ◌+◌, ◌^◌, ◌≤◌, ◌<◌, ◌≡◌, refl, sym, ap, subst, ◌∙◌, arith, List, some, true, All,
  All-get_elem?, length, get_elem?,
}
use mathlib.Core.Option
use elfrc.Bytes.{read, string_at}
use elfrc.Bytes.Laws.{IsCString}
use elfrc.Bytes.Sits.{Sits, Sits-right}
use elfrc.Format.{HashTableHeader, hash_header_bytes}
use elfrc.Manifest.{MetadataKv, Manifest}
use elfrc.Manifest
use elfrc.Container.HashTable.Insert.{build_buckets-total}
use elfrc.Container.HashTable.Lookup.{lookup-build_buckets}
use elfrc.Container.HashTable.Spec.{lookup, first_index, index_of}
use elfrc.Container.Sections.{Files, loaded, load_file, buckets_bytes}
use elfrc.Container.Build.{elfrc_container_build}
use elfrc.Container.Written.Blocks.{table_bytes}
use elfrc.Container.Written.Entries.{IsBuildable}
use elfrc.Container.Written.Finished.{IsFinished, finish-le, finish-IsFinished}
use elfrc.Container.Written.Laid.{IsLaidOut, lay_out-IsLaidOut}
use elfrc.Reader.Outcome.{Outcome, ok}
use elfrc.Reader.Container.{Resource, Container}
use elfrc.Reader.Open.{erf_open_memory}
use elfrc.Reader.Find.{erf_find_in, erf_resource_data_in}
use elfrc.Reader.Metadata.{found, erf_metadata_get}
use elfrc.Reader.Metadata.Block.{IsKv}
use elfrc.Built.Metadata.{erf_metadata_get-IsBlock}
use elfrc.Reader.Checksum.{erf_verify_checksum}
use elfrc.Built.Accepted.{length-hash_header_bytes}
use elfrc.Built.Buckets.{build_buckets-AreBuckets}
use elfrc.Built.Found.{reported, erf_find_in-eq-lookup}
use elfrc.Built.Call.{IsBuild, elfrc_container_build-IsBuild}
use elfrc.Built.Opened.{IsReadBack, IsHandle, finished-IsHandle}
use elfrc.Built.Verified.{erf_verify_checksum-finish}

some_injective {ℓ} : {A : Type ℓ} {x y : A} → some x ≡ some y → x ≡ y
some_injective p = cc

ok_injective : {x y : Container} → ◌≡◌ {A = Outcome Container} (ok x) (ok y) → x ≡ y
ok_injective p = cc

module _ (files : Files) (m : Manifest) (mem : List ℕ) (few : length m.resources ≤ 2 ^ 30)
    (good : All IsBuildable m.resources)
    (builds : elfrc_container_build files m ≡ some (loaded mem)) (small : length mem < 2 ^ 32) where
  -- What the proofs need of the build and of the handle.
  record IsOpen : Type 0 where
    built : IsBuild files m mem
    laid : IsLaidOut files built.buckets m.resources built.layout
    container : Container
    opens : erf_open_memory (some mem) (length mem) ≡ ok container
    done : IsFinished m.resources built.layout mem
    held : IsHandle files m.resources built.buckets built.layout mem container

  open_built : IsOpen
  open_built =
      let b = elfrc_container_build-IsBuild files m mem builds in
      let laid = lay_out-IsLaidOut files b.buckets m.resources b.layout b.lays in
      let short : length b.layout.buf < 2 ^ 32 =
        omega (arith, finish-le m.resources b.layout, ap length b.finished) in
      let (t, made, _, _, _, bound) = build_buckets-total m.resources few in
      let same : t ≡ b.buckets = some_injective (sym made ∙ b.table) in
      let done =
        subst (IsFinished m.resources b.layout) b.finished
          (finish-IsFinished files b.buckets m.resources b.layout laid short) in
      let (c, opens, held) =
        finished-IsHandle files b.buckets m.resources b.layout laid short few
          (omega (arith, bound, ap length same))
          (λ j r e. All-get_elem? IsBuildable m.resources j good e) mem done in
      record { built = b; laid = laid; container = c; opens = opens; held = held; done = done }

  -- The handle of a built container, and the container's bytes, are those of `open_built`.
  same_container :
      {c : Container} → erf_open_memory (some mem) (length mem) ≡ ok c → open_built.container ≡ c
  same_container e = ok_injective (sym open_built.opens ∙ e)

  -- If `elfrc_container_build` returns a container shorter than 2^32 bytes, for up to 2^30
  -- resources whose names are C strings and whose numbers fit 32 bits, then `erf_open_memory` opens
  -- it, and the handle has as many resources as the manifest: each, at its index, has the
  -- identifier, type, language and flags of the manifest's, its name is read from the container,
  -- and so are the bytes of its file.
  pub elfrc_container_build-opens :
      (c : Container) × (erf_open_memory (some mem) (length mem) ≡ ok c)
      × (length c.resources ≡ length m.resources)
      × ((j : ℕ) (r : Manifest.Resource)
          → get_elem? m.resources j ≡ some r
          → (x : Resource) × (get_elem? c.resources j ≡ some x) × IsReadBack files mem r x)
  elfrc_container_build-opens =
      let o = open_built in (o.container, o.opens, o.held.stored_count, o.held.each)

  -- If `elfrc_container_build` returns a container shorter than 2^32 bytes, for up to 2^30
  -- resources whose names are C strings and whose numbers fit 32 bits, and `erf_open_memory` opens
  -- it, then `erf_find_in` returns for every C string the index of the manifest's first resource
  -- with that name, and reports `not_found` if no resource has it.
  pub erf_find_in-built :
      (c : Container) (q : List ℕ)
      → erf_open_memory (some mem) (length mem) ≡ ok c
      → IsCString q
      → erf_find_in (some c) (some q) ≡ reported (first_index q 0 m.resources)
  erf_find_in-built c q e ok_q =
      let o = open_built in
      let b = o.built in
      let (t, made, answers) = lookup-build_buckets m.resources few in
      let (t', made', _, least, _, _) = build_buckets-total m.resources few in
      let same : t ≡ b.buckets = some_injective (sym made ∙ b.table) in
      let same' : t' ≡ b.buckets = some_injective (sym made' ∙ b.table) in
      let head : HashTableHeader = record { bucket_count = length b.buckets; reserved0 = 0 } in
      let sits =
        Sits-right (hash_header_bytes head) (buckets_bytes b.buckets)
          (o.done.kept b.layout.hash_table_offset (table_bytes b.buckets) o.laid.table) in
      let here =
        subst (λ (k : ℕ). Sits mem k (buckets_bytes b.buckets))
          (ap (λ (n : ℕ). b.layout.hash_table_offset + n) (length-hash_header_bytes head)
            ∙ sym o.held.buckets)
          sits in
      ap (λ (d : Container). erf_find_in (some d) (some q)) (sym (same_container e))
      ∙ erf_find_in-eq-lookup files m.resources b.buckets b.layout mem o.container o.held q ok_q
          (build_buckets-AreBuckets m.resources b.buckets b.table) here
          (omega (arith, least, ap length same'))
      ∙ ap reported (
          subst
            (λ u. Option.map (index_of u) (lookup m.resources u q) ≡ first_index q 0 m.resources)
            same (answers q))

  -- If `elfrc_container_build` returns a container shorter than 2^32 bytes, for up to 2^30
  -- resources whose names are C strings and whose numbers fit 32 bits, and `erf_open_memory` opens
  -- it, then `erf_verify_checksum` accepts it.
  pub erf_verify_checksum-built :
      (c : Container)
      → erf_open_memory (some mem) (length mem) ≡ ok c
      → erf_verify_checksum (some c) ≡ ok true
  erf_verify_checksum-built c e =
      let o = open_built in
      let b = o.built in
      ap (λ (d : Container). erf_verify_checksum (some d)) (sym (same_container e))
      ∙ erf_verify_checksum-finish files m.resources b.buckets b.layout o.container (
          subst (λ n. IsHandle files m.resources b.buckets b.layout n o.container) (sym b.finished)
            o.held)

  -- If `elfrc_container_build` returns a container shorter than 2^32 bytes, for up to 2^30
  -- resources whose names are C strings and whose numbers fit 32 bits, and `erf_open_memory` opens
  -- it, then for a C string that is the name of some resource of the manifest,
  -- `erf_resource_data_in` returns the place and the size of the bytes of the file of the first
  -- resource with that name.
  pub erf_resource_data_in-built :
      (c : Container) (q : List ℕ) (i : ℕ)
      → erf_open_memory (some mem) (length mem) ≡ ok c
      → IsCString q
      → first_index q 0 m.resources ≡ some i
      → (r : Manifest.Resource) → get_elem? m.resources i ≡ some r
      → (off : ℕ) × (size : ℕ) × (content : List ℕ) × (erf_resource_data_in (some c) (some q)
          ≡ ok (off, size))
        × (load_file files r ≡ loaded content)
        × (read c.base off size ≡ some content)
  unfolding erf_resource_data_in
  erf_resource_data_in-built c q i e ok_q first r there =
      let o = open_built in
      let found : erf_find_in (some c) (some q) ≡ ok i =
        erf_find_in-built c q e ok_q ∙ ap reported first in
      let (x, at, back) = o.held.each i r there in
      let at' : get_elem? c.resources i ≡ some x =
        ap (λ (d : Container). get_elem? d.resources i) (sym (same_container e)) ∙ at in
      let base : c.base ≡ mem =
        ap (λ (d : Container). d.base) (sym (same_container e)) ∙ o.held.base in
      (
        x.bytes,
        x.size,
        back.content,
        rw (found, at') refl,
        back.from_file,
        ap (λ (n : List ℕ). read n x.bytes x.size) base ∙ back.bytes,
      )

  -- If `elfrc_container_build` returns a container shorter than 2^32 bytes, for up to 2^30
  -- resources whose names are C strings and whose numbers fit 32 bits, and `erf_open_memory` opens
  -- it, then for resource `j`, if its metadata are fewer than 2^32 pairs of C strings whose lengths
  -- fit 32 bits with the zero byte, the handle has a resource at `j` for which `erf_metadata_get` of
  -- `i` points at the key and at the value of the `i`-th pair, zero-terminated.
  pub erf_metadata_get-built :
      (c : Container) (j i : ℕ) (r : Manifest.Resource) (kv : MetadataKv)
      → erf_open_memory (some mem) (length mem) ≡ ok c
      → get_elem? m.resources j ≡ some r
      → length r.metadata < 2 ^ 32
      → All IsKv r.metadata
      → get_elem? r.metadata i ≡ some kv
      → (x : Resource) × (key : ℕ) × (value : ℕ) × (get_elem? c.resources j ≡ some x)
        × (erf_metadata_get (some c) (some x) (some i) ≡ found (key, value))
        × (string_at c.base key ≡ some kv.key)
        × (string_at c.base value ≡ some kv.value)
  erf_metadata_get-built c j i r kv e there few_pairs kvs here =
      let held =
        subst
          (λ d. IsHandle files m.resources open_built.built.buckets open_built.built.layout mem d)
          (same_container e) open_built.held in
      let (x, at, back) = held.each j r there in
      let (key, value, got, is_key, is_value) =
        erf_metadata_get-IsBlock mem c x r.metadata i kv held.base held.size (omega (arith, small))
          few_pairs kvs here (λ some_pairs. back.block some_pairs few_pairs kvs) in
      (x, key, value, at, got, is_key, is_value)
