-- ===== src/Format.antt =====
-- include/elfr/erf_format.h: the on-disk structs of an ERF container, with their C layout.
pub mod RoundTrip
pub mod ResourceType
pub mod Compression
pub mod ResourceFlag
mod Tests
use elfrc.Base.{ℕ, ◌+◌, List, [], ◌∷◌, ◌++◌, take, drop, map, replicate}
use elfrc.Bytes.{le_bytes, le_value}

abbrev pub erf_magic : List ℕ
erf_magic = b'E' ∷ b'L' ∷ b'F' ∷ b'R' ∷ []

abbrev pub erf_version_major : ℕ
erf_version_major = 1

abbrev pub erf_version_minor : ℕ
erf_version_minor = 0

-- ERFHeader.flags bits
abbrev pub hflag_localized : ℕ
hflag_localized = 1

abbrev pub hflag_metadata_present : ℕ
hflag_metadata_present = 2

abbrev pub hflag_hash_table_present : ℕ
hflag_hash_table_present = 4

abbrev pub erf_hash_empty : ℕ
erf_hash_empty = 0xFFFFFFFF

-- The sizes that the header's static assertions pin.
abbrev pub sizeof_header : ℕ
sizeof_header = 160

abbrev pub sizeof_entry : ℕ
sizeof_entry = 128

abbrev pub sizeof_hash_header : ℕ
sizeof_hash_header = 8

abbrev pub sizeof_bucket : ℕ
sizeof_bucket = 16

-- ERFHeader. Its `reserved[8]` array is a list of eight words.
pub record Header : Type 0 where
  pub magic : List ℕ
  pub version_major : ℕ
  pub version_minor : ℕ
  pub header_size : ℕ
  pub flags : ℕ
  pub resource_count : ℕ
  pub directory_entry_size : ℕ
  pub reserved0 : ℕ
  pub directory_offset : ℕ
  pub string_offset : ℕ
  pub metadata_offset : ℕ
  pub hash_table_offset : ℕ
  pub signature_offset : ℕ
  pub data_offset : ℕ
  pub total_size : ℕ
  pub checksum : ℕ
  pub reserved : List ℕ

-- ERFDirectoryEntry.
pub record DirectoryEntry : Type 0 where
  pub id : ℕ
  pub type : ℕ
  pub language : ℕ
  pub flags : ℕ
  pub name_offset : ℕ
  pub reserved0 : ℕ
  pub data_offset : ℕ
  pub data_size : ℕ
  pub original_size : ℕ
  pub metadata_offset : ℕ
  pub hash : ℕ
  pub checksum : ℕ
  pub timestamp : ℕ
  pub reserved : List ℕ

-- ERFHashTableHeader.
pub record HashTableHeader : Type 0 where
  pub bucket_count : ℕ
  pub reserved0 : ℕ

-- ERFHashBucket.
pub record HashBucket : Type 0 where
  pub hash : ℕ
  pub directory_index : ℕ
  pub reserved0 : ℕ

-- The field of `w` bytes at offset `off` of a struct.
abbrev pub field : List ℕ → ℕ → ℕ → ℕ
field mem off w = le_value (take w (drop off mem))

-- An array of words, and the bytes of one.
abbrev pub words : List ℕ → List ℕ
words [] = []
words (v ∷ vs) = le_bytes 8 v ++ words vs

-- Four bytes of padding follow `reserved0`, since the next field is aligned to 8. The writer's
-- struct starts out zeroed, so they are zeros.
unfoldable pub header_bytes : Header → List ℕ
header_bytes h =
    h.magic
    ++ (le_bytes 2 h.version_major
        ++ (le_bytes 2 h.version_minor
            ++ (le_bytes 4 h.header_size
                ++ (le_bytes 4 h.flags
                    ++ (le_bytes 4 h.resource_count
                        ++ (le_bytes 4 h.directory_entry_size
                            ++ (le_bytes 4 h.reserved0
                                ++ (replicate 4 0
                                    ++ (words (
                                        h.directory_offset ∷ h.string_offset ∷ h.metadata_offset
                                        ∷ h.hash_table_offset ∷ h.signature_offset ∷ h.data_offset
                                        ∷ h.total_size ∷ h.checksum ∷ h.reserved))))))))))

unfoldable pub header_of : List ℕ → Header
header_of mem = record {
  magic = take 4 mem;
  version_major = field mem 4 2;
  version_minor = field mem 6 2;
  header_size = field mem 8 4;
  flags = field mem 12 4;
  resource_count = field mem 16 4;
  directory_entry_size = field mem 20 4;
  reserved0 = field mem 24 4;
  directory_offset = field mem 32 8;
  string_offset = field mem 40 8;
  metadata_offset = field mem 48 8;
  hash_table_offset = field mem 56 8;
  signature_offset = field mem 64 8;
  data_offset = field mem 72 8;
  total_size = field mem 80 8;
  checksum = field mem 88 8;
  reserved = map (λ off. field mem off 8) (96 ∷ 104 ∷ 112 ∷ 120 ∷ 128 ∷ 136 ∷ 144 ∷ 152 ∷ []);
}

unfoldable pub entry_bytes : DirectoryEntry → List ℕ
entry_bytes e =
    le_bytes 4 e.id
    ++ (le_bytes 4 e.type
        ++ (le_bytes 4 e.language
            ++ (le_bytes 4 e.flags
                ++ (le_bytes 4 e.name_offset
                    ++ (le_bytes 4 e.reserved0
                        ++ (words (
                            e.data_offset ∷ e.data_size ∷ e.original_size ∷ e.metadata_offset
                            ∷ e.hash ∷ e.checksum ∷ e.timestamp ∷ e.reserved)))))))

unfoldable pub entry_of : List ℕ → DirectoryEntry
entry_of mem = record {
  id = field mem 0 4;
  type = field mem 4 4;
  language = field mem 8 4;
  flags = field mem 12 4;
  name_offset = field mem 16 4;
  reserved0 = field mem 20 4;
  data_offset = field mem 24 8;
  data_size = field mem 32 8;
  original_size = field mem 40 8;
  metadata_offset = field mem 48 8;
  hash = field mem 56 8;
  checksum = field mem 64 8;
  timestamp = field mem 72 8;
  reserved = map (λ off. field mem off 8) (80 ∷ 88 ∷ 96 ∷ 104 ∷ 112 ∷ 120 ∷ []);
}

unfoldable pub hash_header_bytes : HashTableHeader → List ℕ
hash_header_bytes h = le_bytes 4 h.bucket_count ++ le_bytes 4 h.reserved0

unfoldable pub hash_header_of : List ℕ → HashTableHeader
hash_header_of mem = record { bucket_count = field mem 0 4; reserved0 = field mem 4 4 }

unfoldable pub bucket_bytes : HashBucket → List ℕ
bucket_bytes b = le_bytes 8 b.hash ++ (le_bytes 4 b.directory_index ++ le_bytes 4 b.reserved0)

unfoldable pub bucket_of : List ℕ → HashBucket
bucket_of mem = record {
  hash = field mem 0 8;
  directory_index = field mem 8 4;
  reserved0 = field mem 12 4;
}
