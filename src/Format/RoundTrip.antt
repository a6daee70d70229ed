-- ===== src/Format/RoundTrip.antt =====
-- Every struct of erf_format.h comes back from the bytes that it is written as.
use elfrc.Base.{
  ℕ, zero, suc, ◌^◌, ◌<◌, ◌≡◌, refl, sym, ap, subst, arith, List, [], ◌∷◌, ◌++◌, length, get_or,
  drop, All,
}
use elfrc.Bytes.{le_bytes}
use elfrc.Bytes.Laws.{le_value-le_bytes}
use elfrc.Format.{
  Header, header_bytes, header_of, DirectoryEntry, entry_bytes, entry_of, HashTableHeader,
  hash_header_bytes, hash_header_of, HashBucket, bucket_bytes, bucket_of,
}

-- A list of known length, spelled out.
abbrev spell : ℕ → List ℕ → List ℕ
spell zero l = []
spell (suc n) l = get_or l 0 0 ∷ spell n (drop 1 l)

spell_lem : (n : ℕ) (l : List ℕ) → length l ≡ n → spell n l ≡ l
spell_lem zero [] h = refl
spell_lem zero (x ∷ l) h = absurd (omega arith)
spell_lem (suc n) [] h = absurd (omega arith)
spell_lem (suc n) (x ∷ l) h = ap (λ t. x ∷ t) (spell_lem n l (omega arith))

abbrev pub Fits : ℕ → ℕ → Type 0
Fits w v = v < 256 ^ w

-- Every field of a header fits its width.
pub record IsHeader (h : Header) : Type 0 where
  pub magic : length h.magic ≡ 4
  pub version_major : Fits 2 h.version_major
  pub version_minor : Fits 2 h.version_minor
  pub header_size : Fits 4 h.header_size
  pub flags : Fits 4 h.flags
  pub resource_count : Fits 4 h.resource_count
  pub directory_entry_size : Fits 4 h.directory_entry_size
  pub reserved0 : Fits 4 h.reserved0
  pub directory_offset : Fits 8 h.directory_offset
  pub string_offset : Fits 8 h.string_offset
  pub metadata_offset : Fits 8 h.metadata_offset
  pub hash_table_offset : Fits 8 h.hash_table_offset
  pub signature_offset : Fits 8 h.signature_offset
  pub data_offset : Fits 8 h.data_offset
  pub total_size : Fits 8 h.total_size
  pub checksum : Fits 8 h.checksum
  pub reserved_length : length h.reserved ≡ 8
  pub reserved : All (Fits 8) h.reserved

header_spelled :
    (h : Header) (rest : List ℕ)
    → IsHeader h
    → header_of
        (header_bytes (record h { magic = spell 4 h.magic; reserved = spell 8 h.reserved }) ++ rest)
      ≡ record h { magic = spell 4 h.magic; reserved = spell 8 h.reserved }
unfolding header_of header_bytes le_bytes
header_spelled h rest fits =
    let r : All (Fits 8) (spell 8 h.reserved) =
      subst (All (Fits 8)) (sym (spell_lem 8 h.reserved fits.reserved_length)) fits.reserved in
    λ i. record {
      magic = spell 4 h.magic;
      version_major = le_value-le_bytes 2 h.version_major fits.version_major i;
      version_minor = le_value-le_bytes 2 h.version_minor fits.version_minor i;
      header_size = le_value-le_bytes 4 h.header_size fits.header_size i;
      flags = le_value-le_bytes 4 h.flags fits.flags i;
      resource_count = le_value-le_bytes 4 h.resource_count fits.resource_count i;
      directory_entry_size = le_value-le_bytes 4 h.directory_entry_size fits.directory_entry_size i;
      reserved0 = le_value-le_bytes 4 h.reserved0 fits.reserved0 i;
      directory_offset = le_value-le_bytes 8 h.directory_offset fits.directory_offset i;
      string_offset = le_value-le_bytes 8 h.string_offset fits.string_offset i;
      metadata_offset = le_value-le_bytes 8 h.metadata_offset fits.metadata_offset i;
      hash_table_offset = le_value-le_bytes 8 h.hash_table_offset fits.hash_table_offset i;
      signature_offset = le_value-le_bytes 8 h.signature_offset fits.signature_offset i;
      data_offset = le_value-le_bytes 8 h.data_offset fits.data_offset i;
      total_size = le_value-le_bytes 8 h.total_size fits.total_size i;
      checksum = le_value-le_bytes 8 h.checksum fits.checksum i;
      reserved =
          le_value-le_bytes 8 (get_or h.reserved 0 0) r.0 i
          ∷ le_value-le_bytes 8 (get_or (drop 1 h.reserved) 0 0) r.1.0 i
          ∷ le_value-le_bytes 8 (get_or (drop 1 (drop 1 h.reserved)) 0 0) r.1.1.0 i
          ∷ le_value-le_bytes 8 (get_or (drop 1 (drop 1 (drop 1 h.reserved))) 0 0) r.1.1.1.0 i
          ∷ le_value-le_bytes 8 (get_or (drop 1 (drop 1 (drop 1 (drop 1 h.reserved)))) 0 0)
              r.1.1.1.1.0 i
          ∷ le_value-le_bytes 8 (get_or (drop 1 (drop 1 (drop 1 (drop 1 (drop 1 h.reserved))))) 0 0)
              r.1.1.1.1.1.0 i
          ∷ le_value-le_bytes 8
              (get_or (drop 1 (drop 1 (drop 1 (drop 1 (drop 1 (drop 1 h.reserved)))))) 0 0)
              r.1.1.1.1.1.1.0 i
          ∷ le_value-le_bytes 8
              (get_or (drop 1 (drop 1 (drop 1 (drop 1 (drop 1 (drop 1 (drop 1 h.reserved))))))) 0 0)
              r.1.1.1.1.1.1.1.0 i
          ∷ [];
    }

-- A header whose fields fit their widths is decoded from its bytes, whatever follows them.
pub header_of-header_bytes :
    (h : Header) (rest : List ℕ) → IsHeader h → header_of (header_bytes h ++ rest) ≡ h
header_of-header_bytes h rest fits =
    subst (λ g. header_of (header_bytes g ++ rest) ≡ g)
      (λ i. record h {
        magic = spell_lem 4 h.magic fits.magic i;
        reserved = spell_lem 8 h.reserved fits.reserved_length i;
      })
      (header_spelled h rest fits)

-- Every field of a directory entry fits its width.
pub record IsEntry (e : DirectoryEntry) : Type 0 where
  pub id : Fits 4 e.id
  pub type : Fits 4 e.type
  pub language : Fits 4 e.language
  pub flags : Fits 4 e.flags
  pub name_offset : Fits 4 e.name_offset
  pub reserved0 : Fits 4 e.reserved0
  pub data_offset : Fits 8 e.data_offset
  pub data_size : Fits 8 e.data_size
  pub original_size : Fits 8 e.original_size
  pub metadata_offset : Fits 8 e.metadata_offset
  pub hash : Fits 8 e.hash
  pub checksum : Fits 8 e.checksum
  pub timestamp : Fits 8 e.timestamp
  pub reserved_length : length e.reserved ≡ 6
  pub reserved : All (Fits 8) e.reserved

entry_spelled :
    (e : DirectoryEntry) (rest : List ℕ)
    → IsEntry e
    → entry_of (entry_bytes (record e { reserved = spell 6 e.reserved }) ++ rest)
      ≡ record e { reserved = spell 6 e.reserved }
unfolding entry_of entry_bytes le_bytes
entry_spelled e rest fits =
    let r : All (Fits 8) (spell 6 e.reserved) =
      subst (All (Fits 8)) (sym (spell_lem 6 e.reserved fits.reserved_length)) fits.reserved in
    λ i. record {
      id = le_value-le_bytes 4 e.id fits.id i;
      type = le_value-le_bytes 4 e.type fits.type i;
      language = le_value-le_bytes 4 e.language fits.language i;
      flags = le_value-le_bytes 4 e.flags fits.flags i;
      name_offset = le_value-le_bytes 4 e.name_offset fits.name_offset i;
      reserved0 = le_value-le_bytes 4 e.reserved0 fits.reserved0 i;
      data_offset = le_value-le_bytes 8 e.data_offset fits.data_offset i;
      data_size = le_value-le_bytes 8 e.data_size fits.data_size i;
      original_size = le_value-le_bytes 8 e.original_size fits.original_size i;
      metadata_offset = le_value-le_bytes 8 e.metadata_offset fits.metadata_offset i;
      hash = le_value-le_bytes 8 e.hash fits.hash i;
      checksum = le_value-le_bytes 8 e.checksum fits.checksum i;
      timestamp = le_value-le_bytes 8 e.timestamp fits.timestamp i;
      reserved =
          le_value-le_bytes 8 (get_or e.reserved 0 0) r.0 i
          ∷ le_value-le_bytes 8 (get_or (drop 1 e.reserved) 0 0) r.1.0 i
          ∷ le_value-le_bytes 8 (get_or (drop 1 (drop 1 e.reserved)) 0 0) r.1.1.0 i
          ∷ le_value-le_bytes 8 (get_or (drop 1 (drop 1 (drop 1 e.reserved))) 0 0) r.1.1.1.0 i
          ∷ le_value-le_bytes 8 (get_or (drop 1 (drop 1 (drop 1 (drop 1 e.reserved)))) 0 0)
              r.1.1.1.1.0 i
          ∷ le_value-le_bytes 8 (get_or (drop 1 (drop 1 (drop 1 (drop 1 (drop 1 e.reserved))))) 0 0)
              r.1.1.1.1.1.0 i
          ∷ [];
    }

-- A directory entry whose fields fit their widths is decoded from its bytes, whatever follows
-- them.
pub entry_of-entry_bytes :
    (e : DirectoryEntry) (rest : List ℕ) → IsEntry e → entry_of (entry_bytes e ++ rest) ≡ e
entry_of-entry_bytes e rest fits =
    subst (λ g. entry_of (entry_bytes g ++ rest) ≡ g)
      (λ i. record e { reserved = spell_lem 6 e.reserved fits.reserved_length i })
      (entry_spelled e rest fits)

-- A bucket whose fields fit their widths is decoded from its bytes, whatever follows them.
pub bucket_of-bucket_bytes :
    (b : HashBucket) (rest : List ℕ)
    → Fits 8 b.hash
    → Fits 4 b.directory_index
    → Fits 4 b.reserved0
    → bucket_of (bucket_bytes b ++ rest) ≡ b
unfolding bucket_of bucket_bytes le_bytes
bucket_of-bucket_bytes b rest hash index reserved0 = λ i. record {
  hash = le_value-le_bytes 8 b.hash hash i;
  directory_index = le_value-le_bytes 4 b.directory_index index i;
  reserved0 = le_value-le_bytes 4 b.reserved0 reserved0 i;
}

-- A hash table header whose fields fit their widths is decoded from its bytes, whatever follows
-- them.
pub hash_header_of-hash_header_bytes :
    (h : HashTableHeader) (rest : List ℕ)
    → Fits 4 h.bucket_count
    → Fits 4 h.reserved0
    → hash_header_of (hash_header_bytes h ++ rest) ≡ h
unfolding hash_header_of hash_header_bytes le_bytes
hash_header_of-hash_header_bytes h rest count reserved0 = λ i. record {
  bucket_count = le_value-le_bytes 4 h.bucket_count count i;
  reserved0 = le_value-le_bytes 4 h.reserved0 reserved0 i;
}
