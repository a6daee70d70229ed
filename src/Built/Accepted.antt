-- ===== src/Built/Accepted.antt =====
-- The finished container passes every test of `erf_open_memory`.
use elfrc.Base.{
  ℕ, zero, suc, ◌+◌, ◌*◌, ◌^◌, ◌≤◌, ◌<◌, ◌≡◌, refl, sym, ap, subst, ◌∙◌, arith, List, [], ◌∷◌, some,
  length, append-nil, length-append, get_elem?, take, drop,
}
use elfrc.Bytes.{le_bytes, bytes_eq, with_nul}
use elfrc.Bytes.Sits.{Sits, Sits-left, Sits-room, slice-Sits}
use elfrc.Format.{
  Header, HashBucket, bucket_bytes, HashTableHeader, hash_header_bytes, hash_header_of,
  sizeof_header, sizeof_entry, sizeof_bucket, sizeof_hash_header, DirectoryEntry, entry_of,
}
use elfrc.Format.RoundTrip.{hash_header_of-hash_header_bytes}
use elfrc.Manifest.{Resource}
use elfrc.Container.Sections.{Files, buckets_bytes}
use elfrc.Container.Build.{Layout, header_for, entry_for}
use elfrc.Container.Written.Blocks.{table_bytes}
use elfrc.Container.Written.Entries.{IsBuildable, HasPlace, entries_bytes-HasPlace, decoded_entry}
use elfrc.Container.Written.Finished.{signed_header, IsFinished, decoded_header}
use elfrc.Container.Written.Laid.{directory_end, IsLaidOut}
use elfrc.Reader.Open.{resource_of}
use elfrc.Reader.Open.Checks.{Checked, stored_bucket_count}
use elfrc.Reader.Open.Entries.{Within, stored_entry}
use elfrc.Reader.Open.Sound.{Acceptable, stored_header}

-- How many bytes the buckets take.
length-buckets_bytes : (t : List HashBucket) → length (buckets_bytes t) ≡ length t * sizeof_bucket
unfolding buckets_bytes bucket_bytes le_bytes
length-buckets_bytes [] = refl
length-buckets_bytes (b ∷ t) = omega (arith, length-buckets_bytes t)

pub length-hash_header_bytes :
    (h : HashTableHeader) → length (hash_header_bytes h) ≡ sizeof_hash_header
unfolding hash_header_bytes le_bytes
length-hash_header_bytes h = refl

length-with_nul : (name : List ℕ) → length (with_nul name) ≡ length name + 1
length-with_nul name = length-append name (0 ∷ [])

-- There is an element at every index of the list.
pub element {ℓ} :
    {A : Type ℓ} (xs : List A) (j : ℕ) → j < length xs → (x : A) × (get_elem? xs j ≡ some x)
element [] j lt = absurd (omega arith)
element (x ∷ xs) zero lt = (x, refl)
element (x ∷ xs) (suc j) lt = element xs j (omega arith)

module _ (files : Files) (t : List HashBucket) (rs : List Resource) (l : Layout)
    (laid : IsLaidOut files t rs l) (small : length l.buf < 2 ^ 32) (few : length rs ≤ 2 ^ 30)
    (buckets : length t < 2 ^ 32)
    (ok : (j : ℕ) (r : Resource) → get_elem? rs j ≡ some r → IsBuildable r) (mem : List ℕ)
    (f : IsFinished rs l mem) where
  abbrev h : Header
  h = signed_header rs l

  pub header_read : stored_header mem ≡ h
  header_read = decoded_header files t rs l laid small mem f

  -- The bytes at entry `j` are those of resource `j`.
  pub entry_place :
      (j : ℕ) (r : Resource)
      → get_elem? rs j ≡ some r
      → HasPlace (directory_end rs) files l.buf mem (sizeof_header + j * sizeof_entry) r
  entry_place j r e =
      entries_bytes-HasPlace (directory_end rs) files l.buf mem sizeof_header rs l.name_offsets
        l.metadata_offsets l.slots (laid.names small) laid.blocks laid.pairs laid.stored f.directory
        j r e

  pub stored_entry_lem :
      (j : ℕ) (r : Resource) (e : get_elem? rs j ≡ some r)
      → (let p = entry_place j r e in
          stored_entry mem h j ≡ entry_for r p.name_at p.block_at p.slot)
  unfolding header_for
  stored_entry_lem j r e =
      ap (λ (k : ℕ). entry_of (take sizeof_entry (drop (k + j * sizeof_entry) mem))) laid.directory
      ∙ decoded_entry (directory_end rs) files l.buf mem (sizeof_header + j * sizeof_entry) r
          (ok j r e) small (entry_place j r e)

  header-Checked : Checked h (length mem)
  unfolding header_for bytes_eq
  header-Checked = record {
    magic = refl;
    version = refl;
    header_size = omega arith;
    header_within = omega (arith, laid.room);
    total = omega (arith, f.whole);
    stride = omega arith;
    directory = omega (arith, laid.directory, laid.room);
    strings = λ p. laid.strings;
  }

  table-Sits : Sits mem l.hash_table_offset (table_bytes t)
  table-Sits = f.kept l.hash_table_offset (table_bytes t) laid.table

  pub bucket_count_read : stored_bucket_count mem h ≡ length t
  unfolding header_for
  bucket_count_read =
      let head : HashTableHeader = record { bucket_count = length t; reserved0 = 0 } in
      let sits = Sits-left (hash_header_bytes head) (buckets_bytes t) table-Sits in
      ap (λ (bs : List ℕ). (hash_header_of bs).bucket_count)
        (slice-Sits (hash_header_bytes head) (sym (length-hash_header_bytes head)) sits
          ∙ sym (append-nil (hash_header_bytes head)))
      ∙ ap (λ (g : HashTableHeader). g.bucket_count)
          (hash_header_of-hash_header_bytes head [] buckets (omega arith))

  table_room : l.hash_table_offset + sizeof_hash_header + length t * sizeof_bucket ≤ length mem
  table_room =
      let head : HashTableHeader = record { bucket_count = length t; reserved0 = 0 } in
      omega (
        arith,
        Sits-room table-Sits,
        length-append (hash_header_bytes head) (buckets_bytes t),
        length-hash_header_bytes head,
        length-buckets_bytes t,
      )

  entry-Within :
      (j : ℕ) → j < h.resource_count → Within h.total_size (resource_of (stored_entry mem h j))
  unfolding header_for resource_of entry_for
  entry-Within j lt =
      let (r, e) = element rs j (omega arith) in
      let p = entry_place j r e in
      let name = Sits-room p.named.sits in
      let content = Sits-room p.stored.stands.sits in
      subst (λ (x : DirectoryEntry). Within h.total_size (resource_of x))
        (sym (stored_entry_lem j r e))
        (omega (arith, name, length-with_nul r.name), omega (arith, content, p.stored.size))

  table-Within :
      h.hash_table_offset + sizeof_hash_header + stored_bucket_count mem h * sizeof_bucket
      ≤ h.total_size
  unfolding header_for
  table-Within = omega (arith, bucket_count_read, table_room, f.whole)

  pub finished-Acceptable : Acceptable mem (length mem)
  finished-Acceptable = record {
    long = omega (arith, f.whole, laid.room);
    checked = subst (λ g. Checked g (length mem)) (sym header_read) header-Checked;
    table = λ _.
        subst
          (λ (g : Header).
            g.hash_table_offset + sizeof_hash_header + stored_bucket_count mem g * sizeof_bucket
            ≤ g.total_size)
          (sym header_read) table-Within;
    entries =
        subst
          (λ (g : Header).
            (j : ℕ)
            → j < g.resource_count
            → Within g.total_size (resource_of (stored_entry mem g j)))
          (sym header_read) entry-Within;
  }
