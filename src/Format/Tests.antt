-- ===== src/Format/Tests.antt =====
-- Structs and their bytes.
use elfrc.Base.{refl, arith}
use elfrc.Format.{HashTableHeader, HashBucket}
use elfrc.Format.RoundTrip.{IsHeader, IsEntry}
use elfrc.Reader.Sample.{sample_header, sample_entry}

sample_header-IsHeader : IsHeader sample_header
sample_header-IsHeader = record {
  magic = refl;
  version_major = omega arith;
  version_minor = omega arith;
  header_size = omega arith;
  flags = omega arith;
  resource_count = omega arith;
  directory_entry_size = omega arith;
  reserved0 = omega arith;
  directory_offset = omega arith;
  string_offset = omega arith;
  metadata_offset = omega arith;
  hash_table_offset = omega arith;
  signature_offset = omega arith;
  data_offset = omega arith;
  total_size = omega arith;
  checksum = omega arith;
  reserved_length = refl;
  reserved = (
    omega arith,
    (
      omega arith,
      (omega arith, (omega arith, (omega arith, (omega arith, (omega arith, (omega arith, tt)))))),
    ),
  );
}

sample_entry-IsEntry : IsEntry sample_entry
sample_entry-IsEntry = record {
  id = omega arith;
  type = omega arith;
  language = omega arith;
  flags = omega arith;
  name_offset = omega arith;
  reserved0 = omega arith;
  data_offset = omega arith;
  data_size = omega arith;
  original_size = omega arith;
  metadata_offset = omega arith;
  hash = omega arith;
  checksum = omega arith;
  timestamp = omega arith;
  reserved_length = refl;
  reserved =
      (omega arith, (omega arith, (omega arith, (omega arith, (omega arith, (omega arith, tt))))));
}

abbrev bucket : HashBucket
bucket = record { hash = 0xcbf29ce484222325; directory_index = 3; reserved0 = 0 }

abbrev table : HashTableHeader
table = record { bucket_count = 16; reserved0 = 0 }
