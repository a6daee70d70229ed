-- ===== src/Reader/Open/Checks.antt =====
-- The tests that `erf_open_memory` makes on the header and on the hash table's span.
use elfrc.Base.{
  ℕ, ◌+◌, ◌*◌, ◌^◌, ◌≤◌, ◌<◌, ◌≡◌, ◌≢◌, ◌↔◌, arith, List, true, false, if◌then◌else◌, length, take,
  drop,
}
use elfrc.Bytes.{bytes_eq}
use elfrc.Bytes.Laws.{read-some}
use elfrc.Format.{
  Header, hash_header_of, erf_magic, sizeof_header, sizeof_entry, sizeof_hash_header, sizeof_bucket,
}
use elfrc.Reader.Outcome.{ErfError, bad_magic, unsupported_version, bad_offset, ok, err, fault}
use elfrc.Reader.Container.{in_bounds}
use elfrc.Reader.Open.{
  mul_overflow, table_fits, HashTable, has_hash, read_hash_table, open_hash_table, check_header,
}

-- The test is exact: the range lies inside, as integers.
pub in_bounds_iff : (size off len : ℕ) → (in_bounds size off len ≡ true) ↔ (off + len ≤ size)
unfolding in_bounds
in_bounds_iff size off len = ((λ e. ground arith), (λ h. ground arith))

pub table_fits_iff :
    (total off count stride : ℕ)
    → total < 2 ^ 64
    → (table_fits total off count stride ≡ true) ↔ (off + count * stride ≤ total)
unfolding table_fits mul_overflow in_bounds
table_fits_iff total off count stride small = ((λ e. ground arith), (λ h. ground arith))

-- What the tests on the header establish.
pub record Checked (h : Header) (size : ℕ) : Type 0 where
  pub magic : bytes_eq h.magic erf_magic ≡ true
  pub version : h.version_major ≡ 1
  pub header_size : sizeof_header ≤ h.header_size
  pub header_within : h.header_size ≤ h.total_size
  pub total : h.total_size ≤ size
  pub stride : sizeof_entry ≤ h.directory_entry_size
  pub directory : h.directory_offset + h.resource_count * h.directory_entry_size ≤ h.total_size
  pub strings : 0 < h.resource_count → h.string_offset ≤ h.total_size

pub check_header-Checked :
    (h : Header) (size : ℕ) {u : Unit {0}}
    → size < 2 ^ 64
    → check_header h size ≡ ok u
    → Checked h size
unfolding check_header table_fits mul_overflow in_bounds
check_header-Checked h size small e = record {
  magic = ground arith;
  version = ground arith;
  header_size = ground arith;
  header_within = ground arith;
  total = ground arith;
  stride = ground arith;
  directory = ground arith;
  strings = λ p. ground arith;
}

pub check_header-ne-fault : (h : Header) (size : ℕ) → check_header h size ≢ fault
unfolding check_header
check_header-ne-fault h size e = ground arith

pub open_hash_table-ne-fault :
    (b : List ℕ) (h : Header) (size : ℕ)
    → Checked h size
    → size ≤ length b
    → open_hash_table b h ≢ fault
unfolding open_hash_table read_hash_table in_bounds
open_hash_table-ne-fault b h size c fits e =
    ground (arith, read-some b h.hash_table_offset sizeof_hash_header)

-- The count that the hash table's header holds.
abbrev pub stored_bucket_count : List ℕ → Header → ℕ
stored_bucket_count b h =
    (hash_header_of (take sizeof_hash_header (drop h.hash_table_offset b))).bucket_count

-- Conversely, a header within these bounds passes, and so does a hash table.
pub check_header-ok :
    (h : Header) (size : ℕ) → size < 2 ^ 64 → Checked h size → check_header h size ≡ ok tt
unfolding check_header table_fits mul_overflow in_bounds
check_header-ok h size small c = ground (arith, c.magic, c.strings)

pub open_hash_table-ok :
    (b : List ℕ) (h : Header) (size : ℕ)
    → size < 2 ^ 64
    → Checked h size
    → size ≤ length b
    → (has_hash h ≡ true
        → h.hash_table_offset + sizeof_hash_header + stored_bucket_count b h * sizeof_bucket
          ≤ h.total_size)
    → open_hash_table b h
      ≡ ok (
          if has_hash h
          then record {
            present = true;
            bucket_count = stored_bucket_count b h;
            buckets = h.hash_table_offset + sizeof_hash_header;
          }
          else record { present = false; bucket_count = 0; buckets = 0 })
unfolding open_hash_table read_hash_table table_fits mul_overflow in_bounds
open_hash_table-ok b h size small c fits room =
    ground (arith, c.total, room, read-some b h.hash_table_offset sizeof_hash_header)

pub open_hash_table_inversion :
    (b : List ℕ) (h : Header) (size : ℕ) (t : HashTable)
    → h.total_size < 2 ^ 64
    → Checked h size
    → size ≤ length b
    → open_hash_table b h ≡ ok t
    → (t.present ≡ has_hash h)
      × (has_hash h ≡ true
          → (h.hash_table_offset + sizeof_hash_header + stored_bucket_count b h * sizeof_bucket
              ≤ h.total_size)
            × (t.bucket_count ≡ stored_bucket_count b h)
            × (t.buckets ≡ h.hash_table_offset + sizeof_hash_header))
      × (has_hash h ≡ false → t.bucket_count ≡ 0)
unfolding open_hash_table read_hash_table table_fits mul_overflow in_bounds
open_hash_table_inversion b h size t small c fits e = (
  ground arith,
  (λ p. ground (arith, c.total, read-some b h.hash_table_offset sizeof_hash_header)),
  (λ p. ground arith),
)

-- The tests on the header fail with one of three errors, in this order.
pub check_header_errors :
    (h : Header) (size : ℕ)
    → (bytes_eq h.magic erf_magic ≡ false → check_header h size ≡ err bad_magic)
      × (bytes_eq h.magic erf_magic ≡ true
          → h.version_major ≢ 1
          → check_header h size ≡ err unsupported_version)
      × ((e : ErfError)
          → bytes_eq h.magic erf_magic ≡ true
          → h.version_major ≡ 1
          → check_header h size ≡ err e
          → e ≡ bad_offset)
unfolding check_header
check_header_errors h size = ((λ m. ground arith), (λ m v. ground arith), (λ e m v f. ground arith))
