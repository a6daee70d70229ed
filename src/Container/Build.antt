-- ===== src/Container/Build.antt =====
-- `elfrc_container_build` as a whole.
use elfrc.Base.{
  ℕ, ◌+◌, ◌*◌, ◌%◌, ◌^◌, List, [], ◌∷◌, ◌++◌, Option, none, some, Bool, false, ◌||◌, if◌then◌else◌,
  bit_or, length, take, drop, replicate,
}
use elfrc.Bytes.{bytes_eq}
use elfrc.ByteBuf.Refine.{buf_append_zeros, buf_align}
use elfrc.Crc64.{elfr_crc64}
use elfrc.Fnv1a.{elfr_fnv1a64}
use elfrc.Format.{
  Header, header_bytes, DirectoryEntry, entry_bytes, HashBucket, erf_magic, erf_version_major,
  erf_version_minor, hflag_localized, hflag_metadata_present, hflag_hash_table_present,
  sizeof_header, sizeof_entry,
}
use elfrc.Manifest.{Resource, Manifest}
use elfrc.Container.HashTable.{build_buckets}
use elfrc.Container.Sections.{
  Files, Loaded, loaded, failed, DataSlot, intern_names, write_metadata, any_metadata,
  write_hash_table, write_data,
}

-- `memcpy(buf.data + off, bytes, …)` inside of the buffer.
abbrev pub overwrite : List ℕ → ℕ → List ℕ → List ℕ
overwrite buf off bytes = take off buf ++ (bytes ++ drop (off + length bytes) buf)

-- The offsets at which the sections of a container start, and what the directory needs of them.
pub record Layout : Type 0 where
  pub directory_offset : ℕ
  pub string_offset : ℕ
  pub name_offsets : List ℕ
  pub metadata_offset : ℕ
  pub metadata_offsets : List ℕ
  pub hash_table_offset : ℕ
  pub data_offset : ℕ
  pub slots : List DataSlot
  pub buf : List ℕ

-- One entry of the directory.
unfoldable pub entry_for : Resource → ℕ → ℕ → DataSlot → DirectoryEntry
entry_for r name_offset metadata_offset slot = record {
  id = r.final_id;
  type = r.type;
  language = r.language;
  flags = r.flags;
  name_offset = name_offset;
  reserved0 = 0;
  data_offset = slot.offset;
  data_size = slot.size;
  original_size = slot.size;
  metadata_offset = metadata_offset;
  hash = elfr_fnv1a64 r.name;
  checksum = slot.checksum;
  timestamp = 0;
  reserved = replicate 6 0;
}

-- The loop that fills `entries`. The four lists have one element for each resource.
unfoldable pub entries_for : List Resource → List ℕ → List ℕ → List DataSlot → List DirectoryEntry
entries_for [] ns ms ss = []
entries_for (r ∷ rs) [] ms ss = []
entries_for (r ∷ rs) (n ∷ ns) [] ss = []
entries_for (r ∷ rs) (n ∷ ns) (m ∷ ms) [] = []
entries_for (r ∷ rs) (n ∷ ns) (m ∷ ms) (s ∷ ss) = entry_for r n m s ∷ entries_for rs ns ms ss

unfoldable pub entries_bytes : List DirectoryEntry → List ℕ
entries_bytes [] = []
entries_bytes (e ∷ es) = entry_bytes e ++ entries_bytes es

-- One of the resources before this one has its name.
unfoldable pub name_among : List ℕ → List Resource → Bool
name_among name [] = false
name_among name (r ∷ rs) = bytes_eq r.name name || name_among name rs

-- `localized`: some resource has the name of an earlier one.
unfoldable pub localized_after : List Resource → List Resource → Bool
localized_after before [] = false
localized_after before (r ∷ rs) =
    name_among r.name before || localized_after (before ++ (r ∷ [])) rs

unfoldable pub localized : List Resource → Bool
unfolding localized_after
localized rs = localized_after [] rs

unfoldable pub header_flags : List Resource → ℕ
header_flags rs =
    let f = hflag_hash_table_present in
    let g = if any_metadata rs then bit_or f hflag_metadata_present else f in
    if localized rs then bit_or g hflag_localized else g

-- The header with the checksum field still zero.
unfoldable pub header_for : List Resource → Layout → Header
header_for rs l = record {
  magic = erf_magic;
  version_major = erf_version_major;
  version_minor = erf_version_minor;
  header_size = sizeof_header;
  flags = header_flags rs;
  resource_count = length rs % 2 ^ 32;
  directory_entry_size = sizeof_entry;
  reserved0 = 0;
  directory_offset = l.directory_offset;
  string_offset = l.string_offset;
  metadata_offset = l.metadata_offset;
  hash_table_offset = l.hash_table_offset;
  signature_offset = 0;
  data_offset = l.data_offset;
  total_size = length l.buf;
  checksum = 0;
  reserved = replicate 8 0;
}

-- The sections from the header's place to the data, with the header and the directory still zero.
-- The hash table is at hand, since only names and indices go into it.
unfoldable pub lay_out : Files → List HashBucket → List Resource → Loaded Layout
lay_out files buckets rs =
    let n = length rs in
    let header_end = buf_append_zeros [] sizeof_header in
    let directory_end = buf_append_zeros header_end (n * sizeof_entry) in
    let strings = buf_align directory_end 8 in
    let (name_offsets, strings_end) = intern_names [] strings (length strings % 2 ^ 32) rs in
    let metadata = buf_align strings_end 8 in
    let (metadata_offsets, metadata_end) = write_metadata metadata rs in
    let hash = buf_align metadata_end 8 in
    let first_data = buf_align (write_hash_table hash buckets) 16 in
    elim (write_data files first_data rs) [
      | failed e ↦ failed e
      | loaded (slots, buf) ↦ loaded (record {
        directory_offset = length header_end;
        string_offset = length strings;
        name_offsets = name_offsets;
        metadata_offset = if any_metadata rs then length metadata else 0;
        metadata_offsets = metadata_offsets;
        hash_table_offset = length hash;
        data_offset = length first_data;
        slots = slots;
        buf = buf;
      })
    ]

-- The directory and the header are written into their places; the checksum is that of the buffer
-- with a zero checksum field.
unfoldable pub finish : List Resource → Layout → List ℕ
finish rs l =
    let entries = entries_bytes (entries_for rs l.name_offsets l.metadata_offsets l.slots) in
    let header = header_for rs l in
    let unsigned = overwrite (overwrite l.buf l.directory_offset entries) 0 (header_bytes header) in
    overwrite unsigned 0 (header_bytes (record header { checksum = elfr_crc64 unsigned }))

-- `none` is a call that does not return: the hash table's size or a probe for a free bucket loops
-- for ever.
unfoldable pub elfrc_container_build : Files → Manifest → Option (Loaded (List ℕ))
elfrc_container_build files m = elim (build_buckets m.resources) [
  | none ↦ none
  | some buckets ↦ some (elim (lay_out files buckets m.resources) [
    | failed e ↦ failed e
    | loaded l ↦ loaded (finish m.resources l)
  ])
]
