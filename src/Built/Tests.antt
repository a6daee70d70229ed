-- ===== src/Built/Tests.antt =====
-- The container of two resources is opened, and searched.
use elfrc.Base.{
  ℕ, ◌≡◌, ◌<◌, ◌^◌, refl, sym, ap, ◌∙◌, arith, List, [], ◌∷◌, if◌then◌else◌, none, some, true, All,
  length, get_elem?,
}
use elfrc.Bytes.{bytes_eq, le_bytes, read, string_at}
use elfrc.Bytes.Laws.{IsCString}
use elfrc.Manifest
use elfrc.Manifest.{Manifest}
use elfrc.Fnv1a.{elfr_fnv1a64, fnv64_loop}
use elfrc.Format.{bucket_bytes, hash_header_bytes, entry_bytes, header_bytes}
use elfrc.Container.HashTable.{
  build_buckets, bucket_count_for, next_pow2, double_until, insert_names, insert_name, free_slot,
  empty_buckets,
}
use elfrc.Container.Sections.{
  Files, loaded, intern_names, string_table_intern, find_string, string_offset_of, write_metadata,
  write_block, write_pairs, write_string, any_metadata, write_hash_table, buckets_bytes, write_data,
  load_file, read_content,
}
use elfrc.Container.Build.{
  elfrc_container_build, lay_out, finish, entries_bytes, entries_for, entry_for, header_for,
  header_flags,
}
use elfrc.Container.HashTable.Spec.{first_index}
use elfrc.Container.Written.Entries.{IsBuildable}
use elfrc.Container.Written.Total.{IsReadable, elfrc_container_build-loaded}
use elfrc.Reader.Outcome.{ok}
use elfrc.Reader.Container.{Resource, Container}
use elfrc.Reader.Open.{erf_open_memory}
use elfrc.Reader.Find.{erf_find_in, erf_resource_data_in}
use elfrc.Reader.Metadata.{found, erf_metadata_get}
use elfrc.Reader.Checksum.{erf_verify_checksum}
use elfrc.Built.Opened.{IsReadBack}
use elfrc.Built.RoundTrip.{
  elfrc_container_build-opens, erf_find_in-built, erf_resource_data_in-built,
  erf_verify_checksum-built, erf_metadata_get-built,
}
use elfrc.Built.Sample.{files, resource, two, content_of, container}

container_short : length container ≡ 739
unfolding elfrc_container_build build_buckets bucket_count_for next_pow2 double_until insert_names
    insert_name free_slot empty_buckets elfr_fnv1a64 fnv64_loop lay_out intern_names
    string_table_intern find_string string_offset_of write_metadata write_block write_pairs
    write_string any_metadata write_hash_table buckets_bytes write_data load_file read_content
    finish entries_bytes entries_for entry_for header_for header_flags bytes_eq le_bytes
    bucket_bytes hash_header_bytes entry_bytes header_bytes
container_short = refl

readable : All (IsReadable files) two.resources
unfolding load_file read_content
readable = ((1 ∷ 2 ∷ 3 ∷ [], refl), ((1 ∷ 2 ∷ 3 ∷ [], refl), tt))

-- The second file is not there.
abbrev one_file : Files
one_file path = if bytes_eq path (b'f' ∷ []) then files path else none

abbrev half : Manifest
half = record two {
  resources = resource (b'a' ∷ []) 7 ∷ record (resource (b'b' ∷ []) 8) { file = b'g' ∷ [] } ∷ [];
}

two_builds : elfrc_container_build files two ≡ some (loaded container)
two_builds =
    let (mem, e) = elfrc_container_build-loaded files two (omega arith) readable in
    e ∙ ap (λ b. some (loaded b)) (sym (ap content_of e))

good : All IsBuildable two.resources
good = (
  one (b'a' ∷ []) 7 ((omega arith, omega arith), tt) (omega arith),
  (one (b'b' ∷ []) 8 ((omega arith, omega arith), tt) (omega arith), tt),
)
  where
    one : (name : List ℕ) (id : ℕ) → IsCString name → id < 2 ^ 32 → IsBuildable (resource name id)
    one name id string lt = record {
      name = string;
      id = lt;
      type = omega arith;
      language = omega arith;
      flags = omega arith;
    }

small : length container < 2 ^ 32
small = omega (arith, container_short)

elfrc_container_build-opens_example :
    (c : Container) × (erf_open_memory (some container) (length container) ≡ ok c)
    × (length c.resources ≡ 2)
    × ((j : ℕ) (r : Manifest.Resource)
        → get_elem? two.resources j ≡ some r
        → (x : Resource) × (get_elem? c.resources j ≡ some x) × IsReadBack files container r x)
elfrc_container_build-opens_example =
    elfrc_container_build-opens files two container (omega arith) good two_builds small

abbrev opened : Container
opened = (elfrc_container_build-opens files two container (omega arith) good two_builds small).0

opens : erf_open_memory (some container) (length container) ≡ ok opened
opens = (elfrc_container_build-opens files two container (omega arith) good two_builds small).1

erf_verify_checksum-built_example : erf_verify_checksum (some opened) ≡ ok true
erf_verify_checksum-built_example =
    erf_verify_checksum-built files two container (omega arith) good two_builds small opened opens

erf_find_in-built_example : erf_find_in (some opened) (some (b'b' ∷ [])) ≡ ok 1
unfolding first_index bytes_eq
erf_find_in-built_example =
    erf_find_in-built files two container (omega arith) good two_builds small opened (b'b' ∷ [])
      opens ((omega arith, omega arith), tt)

erf_resource_data_in-built_example :
    (off : ℕ) × (size : ℕ) × (content : List ℕ) × (erf_resource_data_in
        (some opened)
        (some (b'b' ∷ []))
      ≡ ok (off, size))
    × (load_file files (resource (b'b' ∷ []) 8) ≡ loaded content)
    × (read opened.base off size ≡ some content)
unfolding first_index bytes_eq
erf_resource_data_in-built_example =
    erf_resource_data_in-built files two container (omega arith) good two_builds small opened
      (b'b' ∷ []) 1 opens ((omega arith, omega arith), tt) refl (resource (b'b' ∷ []) 8) refl

erf_metadata_get-built_example :
    (x : Resource) × (key : ℕ) × (value : ℕ) × (get_elem? opened.resources 1 ≡ some x)
    × (erf_metadata_get (some opened) (some x) (some 0) ≡ found (key, value))
    × (string_at opened.base key ≡ some (b'a' ∷ []))
    × (string_at opened.base value ≡ some (b'f' ∷ []))
erf_metadata_get-built_example =
    erf_metadata_get-built files two container (omega arith) good two_builds small opened 1 0
      (resource (b'b' ∷ []) 8) (record { key = b'a' ∷ []; value = b'f' ∷ [] }) opens refl
      (omega arith)
      (
        (
          ((omega arith, omega arith), tt),
          omega arith,
          ((omega arith, omega arith), tt),
          omega arith,
        ),
        tt,
      )
      refl
