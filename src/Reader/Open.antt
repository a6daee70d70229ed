-- ===== src/Reader/Open.antt =====
-- `erf_open_memory`: the checks that a container must pass, in the source's order.
pub mod Checks
pub mod Entries
pub mod Sequence
pub mod Sound
pub mod Errors
pub mod Verdict
use elfrc.Base.{
  ℕ, zero, suc, ◌+◌, ◌*◌, ◌%◌, ◌^◌, min, List, [], ◌∷◌, Option, none, some, Bool, true, false, not,
  ◌&&◌, ◌||◌, ltb, leb, ◌==◌, if◌then◌else◌, bit_and,
}
use elfrc.Bytes.{read, bytes_eq}
use elfrc.Format.{
  Header, header_of, DirectoryEntry, entry_of, hash_header_of, erf_magic, erf_version_major,
  hflag_hash_table_present, sizeof_header, sizeof_entry, sizeof_hash_header, sizeof_bucket,
}
use elfrc.Reader.Outcome.{
  ErfError, bad_magic, unsupported_version, truncated, bad_offset, invalid_argument, Outcome, ok,
  err, ◌>>=◌, ◌>>◌, require, load,
}
use elfrc.Reader.Container.{Resource, Container, in_bounds}

-- `__builtin_mul_overflow` on two uint64_t.
unfoldable pub mul_overflow : ℕ → ℕ → Bool
mul_overflow a b = leb (2 ^ 64) (a * b)

-- The `span`-byte table at `offset`, where `span` is a product that must not overflow.
unfoldable pub table_fits : ℕ → ℕ → ℕ → ℕ → Bool
table_fits total offset count stride =
    not (mul_overflow count stride) && in_bounds total offset (count * stride)

pub record HashTable : Type 0 where
  pub present : Bool
  pub bucket_count : ℕ
  pub buckets : ℕ

unfoldable pub has_hash : Header → Bool
has_hash h = not (bit_and h.flags hflag_hash_table_present == 0) && not (h.hash_table_offset == 0)

-- The hash table's own header, and the span of its buckets.
unfoldable pub read_hash_table : List ℕ → Header → Outcome HashTable
read_hash_table b h = do
  require (in_bounds h.total_size h.hash_table_offset sizeof_hash_header) bad_offset
  raw ← load (read b h.hash_table_offset sizeof_hash_header)
  let count = (hash_header_of raw).bucket_count
  let first = (h.hash_table_offset + sizeof_hash_header) % 2 ^ 64
  require (table_fits h.total_size first count sizeof_bucket) bad_offset
  ok (record {
    present = true;
    bucket_count = count;
    buckets = h.hash_table_offset + sizeof_hash_header;
  })

unfoldable pub open_hash_table : List ℕ → Header → Outcome HashTable
open_hash_table b h =
    if has_hash h
    then read_hash_table b h
    else ok (record { present = false; bucket_count = 0; buckets = 0 })

-- Entry `i` of the directory.
unfoldable pub read_entry : List ℕ → Header → ℕ → Outcome DirectoryEntry
read_entry b h i = do
  raw ← load (
      read b (h.directory_offset + i * h.directory_entry_size)
        (if ltb sizeof_entry h.directory_entry_size then sizeof_entry else h.directory_entry_size))
  ok (entry_of raw)

unfoldable pub resource_of : DirectoryEntry → Resource
resource_of e = record {
  id = e.id;
  type = e.type;
  language = e.language;
  flags = e.flags;
  name = e.name_offset;
  bytes = e.data_offset;
  size = e.data_size;
  timestamp = e.timestamp;
  metadata_offset = e.metadata_offset;
}

-- One round of the loop over the directory.
unfoldable pub open_resource : List ℕ → Header → ℕ → Outcome Resource
open_resource b h i = do
  e ← read_entry b h i
  require
      (in_bounds h.total_size e.name_offset 1 && in_bounds h.total_size e.data_offset e.data_size)
      bad_offset
  ok (resource_of e)

-- The loop from entry `i` on, with `left` rounds left.
unfoldable pub open_resources : List ℕ → Header → ℕ → ℕ → Outcome (List Resource)
open_resources b h zero i = ok []
open_resources b h (suc left) i = do
  r ← open_resource b h i
  rs ← open_resources b h left (i + 1)
  ok (r ∷ rs)

-- The tests on the header alone.
unfoldable pub check_header : Header → ℕ → Outcome (Unit {0})
check_header h size = do
  require (bytes_eq h.magic erf_magic) bad_magic
  require (h.version_major == erf_version_major) unsupported_version
  require (leb sizeof_header h.header_size) bad_offset
  require (leb h.header_size h.total_size && leb h.total_size size) bad_offset
  require (leb sizeof_entry h.directory_entry_size) bad_offset
  require (table_fits h.total_size h.directory_offset h.resource_count h.directory_entry_size)
      bad_offset
  require (h.resource_count == 0 || in_bounds h.total_size h.string_offset 0) bad_offset

unfoldable pub open_base : List ℕ → ℕ → Outcome Container
open_base b size = do
  raw ← load (read b 0 sizeof_header)
  let h = header_of raw
  check_header h size
  table ← open_hash_table b h
  rs ← open_resources b h h.resource_count 0
  ok (record {
    base = b;
    size = size;
    header = h;
    entry_stride = h.directory_entry_size;
    resources = rs;
    resource_count = h.resource_count;
    has_hash_table = table.present;
    hash_bucket_count = table.bucket_count;
    hash_buckets = table.buckets;
  })

-- `none` is a NULL base.
unfoldable pub erf_open_memory : Option (List ℕ) → ℕ → Outcome Container
erf_open_memory none size = err invalid_argument
erf_open_memory (some b) size =
    if ltb size sizeof_header
    then err (if size == 0 then invalid_argument else truncated)
    else open_base b size
