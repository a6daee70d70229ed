-- ===== src/Container/Sections.antt =====
-- The sections of a container in the order in which `elfrc_container_build` writes them.
use elfrc.Base.{
  ℕ, ◌+◌, ◌-◌, ◌%◌, ◌^◌, List, [], ◌∷◌, ◌++◌, Option, none, some, Bool, false, not, ◌||◌, ◌==◌,
  if◌then◌else◌, length, take,
}
use elfrc.Bytes.{le_bytes, with_nul, bytes_eq}
use elfrc.ByteBuf.Refine.{buf_append, buf_align}
use elfrc.Crc64.{elfr_crc64}
use elfrc.Format.{HashBucket, bucket_bytes, hash_header_bytes}
use elfrc.Manifest.{MetadataKv, Resource}

-- struct string_entry; the string table is the list of its entries.
pub record StringEntry : Type 0 where
  pub name : List ℕ
  pub offset : ℕ

-- The search of `string_table_intern`.
unfoldable pub find_string : List ℕ → List StringEntry → Option ℕ
find_string name [] = none
find_string name (e ∷ es) =
    let rest = find_string name es in if bytes_eq e.name name then some e.offset else rest

pub record Interned : Type 0 where
  pub offset : ℕ
  pub table : List StringEntry
  pub buf : List ℕ

-- `(uint32_t)(table_base + (buf->len - table_base))`: size_t arithmetic, cut to 32 bits at the end.
unfoldable pub string_offset_of : ℕ → ℕ → ℕ
string_offset_of table_base len = (table_base + (len + 2 ^ 64 - table_base)) % 2 ^ 64 % 2 ^ 32

-- A new name is written behind the buffer, with its zero byte, and remembered.
abbrev pub intern_new : List StringEntry → List ℕ → ℕ → List ℕ → Interned
intern_new st buf table_base name =
    let offset = string_offset_of table_base (length buf) in
    record {
      offset = offset;
      table = st ++ (record { name = name; offset = offset } ∷ []);
      buf = buf_append buf (with_nul name);
    }

unfoldable pub string_table_intern : List StringEntry → List ℕ → ℕ → List ℕ → Interned
string_table_intern st buf table_base name = elim (find_string name st) [
  | some offset ↦ record { offset = offset; table = st; buf = buf }
  | none ↦ intern_new st buf table_base name
]

-- The loop over the resources: `name_offsets`, and the buffer behind the string table.
unfoldable pub intern_names : List StringEntry → List ℕ → ℕ → List Resource → List ℕ × List ℕ
intern_names st buf table_base [] = ([], buf)
intern_names st buf table_base (r ∷ rs) =
    let i = string_table_intern st buf table_base r.name in
    let (offsets, buf') = intern_names i.table i.buf table_base rs in (i.offset ∷ offsets, buf')

-- A length of 32 bits, then that many bytes and the zero byte. `len + 1` is computed in 32 bits.
unfoldable pub write_string : List ℕ → List ℕ → List ℕ
write_string buf s =
    let len = length s % 2 ^ 32 in
    buf_append (buf_append buf (le_bytes 4 len)) (take ((len + 1) % 2 ^ 32) (with_nul s))

unfoldable pub write_pairs : List ℕ → List MetadataKv → List ℕ
write_pairs buf [] = buf
write_pairs buf (m ∷ ms) = write_pairs (write_string (write_string buf m.key) m.value) ms

-- One resource's block, and its offset; 0 stands for no block.
unfoldable pub write_block : List ℕ → List MetadataKv → ℕ × List ℕ
write_block buf [] = (0, buf)
write_block buf (m ∷ ms) =
    let start = buf_align buf 8 in
    let count = length (m ∷ ms) % 2 ^ 32 in
    (length start, write_pairs (buf_append start (le_bytes 4 count)) (m ∷ ms))

-- `metadata_offsets`, and the buffer behind the metadata table.
unfoldable pub write_metadata : List ℕ → List Resource → List ℕ × List ℕ
write_metadata buf [] = ([], buf)
write_metadata buf (r ∷ rs) =
    let (offset, buf') = write_block buf r.metadata in
    let (offsets, buf'') = write_metadata buf' rs in (offset ∷ offsets, buf'')

unfoldable pub any_metadata : List Resource → Bool
any_metadata [] = false
any_metadata (r ∷ rs) = not (length r.metadata == 0) || any_metadata rs

unfoldable pub buckets_bytes : List HashBucket → List ℕ
buckets_bytes [] = []
buckets_bytes (b ∷ bs) = bucket_bytes b ++ buckets_bytes bs

-- The table's header, and its buckets.
unfoldable pub write_hash_table : List ℕ → List HashBucket → List ℕ
write_hash_table buf buckets =
    buf_append
      (buf_append buf (hash_header_bytes (record { bucket_count = length buckets; reserved0 = 0 })))
      (buckets_bytes buckets)

-- A file of the file system, which the source only calls: what `ftell` at its end reports, `none`
-- for an error, and the bytes that `fread` can deliver.
pub record FileContent : Type 0 where
  pub told : Option ℕ
  pub delivered : List ℕ

-- `none` for a file that `fopen` cannot open.
abbrev pub Files : Type 0
Files = List ℕ → Option FileContent

-- The two messages of `elfrc_container_build`, by the texts that they name.
pub data BuildError : Type 0 where
  cannot_open : List ℕ → List ℕ → BuildError
  short_read : List ℕ → List ℕ → BuildError

pub data Loaded {ℓ} (A : Type ℓ) : Type ℓ where
  loaded : A → Loaded A
  failed : BuildError → Loaded A

infixl 5 ◌>>=◌
abbrev pub ◌>>=◌ {ℓ κ} : {A : Type ℓ} {B : Type κ} → Loaded A → (A → Loaded B) → Loaded B
loaded a >>= f = f a
failed e >>= f = failed e

-- `fread` of `fsize` bytes, none of which is asked for if `fsize` is not positive. An `fsize` of -1
-- is the size_t 2^64 - 1, which differs from the 0 bytes that were got.
unfoldable pub read_content : Resource → FileContent → Loaded (List ℕ)
read_content r f = elim f.told [
  | none ↦ failed (short_read r.name r.file)
  | some fsize ↦
      let bytes = take fsize f.delivered in
      if length bytes == fsize then loaded bytes else failed (short_read r.name r.file)
]

unfoldable pub load_file : Files → Resource → Loaded (List ℕ)
load_file files r = elim (files r.file) [
  | none ↦ failed (cannot_open r.name r.file)
  | some f ↦ read_content r f
]

-- `data_offsets`, `data_sizes` and `data_checksums` of one resource.
pub record DataSlot : Type 0 where
  pub offset : ℕ
  pub size : ℕ
  pub checksum : ℕ

abbrev pub data_slot : List ℕ → List ℕ → DataSlot
data_slot start bytes = record {
  offset = length start;
  size = length bytes;
  checksum = elfr_crc64 bytes;
}

-- The loop over the files: the slots, and the buffer behind the data.
unfoldable pub write_data : Files → List ℕ → List Resource → Loaded (List DataSlot × List ℕ)
write_data files buf [] = loaded ([], buf)
write_data files buf (r ∷ rs) = do
  bytes ← load_file files r
  let start = buf_align buf 16
  (slots, buf') ← write_data files (buf_append start bytes) rs
  loaded (data_slot start bytes ∷ slots, buf')
