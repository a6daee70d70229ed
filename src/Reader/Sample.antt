-- ===== src/Reader/Sample.antt =====
-- A small container, and what `erf_open_memory` makes of it.
use elfrc.Base.{ℕ, List, [], ◌∷◌, ◌++◌, false, replicate}
use elfrc.Format.{Header, header_bytes, DirectoryEntry, entry_bytes, erf_magic}
use elfrc.Manifest.{MetadataKv}
use elfrc.Container.Sections.{write_block}
use elfrc.Reader.Container.{Resource, Container}

abbrev pub sample_header : Header
sample_header = record {
  magic = erf_magic;
  version_major = 1;
  version_minor = 0;
  header_size = 160;
  flags = 2;
  resource_count = 1;
  directory_entry_size = 128;
  reserved0 = 0;
  directory_offset = 160;
  string_offset = 288;
  metadata_offset = 296;
  hash_table_offset = 0;
  signature_offset = 0;
  data_offset = 312;
  total_size = 315;
  checksum = 0;
  reserved = replicate 8 0;
}

abbrev pub sample_entry : DirectoryEntry
sample_entry = record {
  id = 7;
  type = 1;
  language = 0;
  flags = 0;
  name_offset = 288;
  reserved0 = 0;
  data_offset = 312;
  data_size = 3;
  original_size = 3;
  metadata_offset = 296;
  hash = 0;
  checksum = 0;
  timestamp = 0;
  reserved = replicate 6 0;
}

-- The name `a`, one pair `k` = `v` of metadata, and three bytes of data.
abbrev pub sample_front : List ℕ
sample_front = header_bytes sample_header ++ (entry_bytes sample_entry ++ (b'a' ∷ []))

abbrev pub sample_pairs : List MetadataKv
sample_pairs = record { key = b'k' ∷ []; value = b'v' ∷ [] } ∷ []

abbrev pub sample : List ℕ
sample = (write_block sample_front sample_pairs).1 ++ (1 ∷ 2 ∷ 3 ∷ [])

abbrev pub sample_resource : Resource
sample_resource = record {
  id = 7;
  type = 1;
  language = 0;
  flags = 0;
  name = 288;
  bytes = 312;
  size = 3;
  timestamp = 0;
  metadata_offset = 296;
}

abbrev pub sample_container : Container
sample_container = record {
  base = sample;
  size = 315;
  header = sample_header;
  entry_stride = 128;
  resources = sample_resource ∷ [];
  resource_count = 1;
  has_hash_table = false;
  hash_bucket_count = 0;
  hash_buckets = 0;
}
