-- ===== src/Reader/Open/Errors.antt =====
-- Which error `erf_open_memory` reports.
use elfrc.Base.{
  ℕ, zero, suc, ◌+◌, ◌≤◌, ◌≡◌, ◌≢◌, inl, inr, sym, ◌∙◌, arith, List, some, true, false, length,
}
use elfrc.Bytes.{bytes_eq}
use elfrc.Format.{Header, erf_magic, sizeof_header}
use elfrc.Reader.Outcome.{ErfError, bad_magic, unsupported_version, bad_offset, err}
use elfrc.Reader.Open.Sequence.{three_error, three_stops}
use elfrc.Reader.Open.Sound.{stored_header, opened, open_parts}
use elfrc.Reader.Open.{
  read_hash_table, read_entry, open_resource, open_hash_table, open_resources, check_header,
  erf_open_memory,
}
use elfrc.Reader.Open.Checks.{check_header_errors}

-- The two loops report bad offsets only.
open_hash_table_error :
    (b : List ℕ) (h : Header) {x : ErfError} → open_hash_table b h ≡ err x → x ≡ bad_offset
unfolding open_hash_table read_hash_table
open_hash_table_error b h e = ground arith

open_resource_error :
    (b : List ℕ) (h : Header) (i : ℕ) {x : ErfError} → open_resource b h i ≡ err x → x ≡ bad_offset
unfolding open_resource read_entry
open_resource_error b h i e = ground arith

open_resources_error :
    (b : List ℕ) (h : Header) (left i : ℕ) {x : ErfError}
    → open_resources b h left i ≡ err x
    → x ≡ bad_offset
unfolding open_resources
open_resources_error b h zero i e = cc
open_resources_error b h (suc left) i {x} e =
    ground (arith, open_resource_error b h i {x = x}, open_resources_error b h left (i + 1) {x = x})

module _ (b : List ℕ) (size : ℕ) (fits : size ≤ length b) where
  -- For a memory that holds at least `size` bytes, with `size` at least that of a header: a wrong
  -- magic is reported first, then a wrong major version, and every other refusal is a bad offset.
  pub erf_open_memory_errors :
      sizeof_header ≤ size
      → (bytes_eq (stored_header b).magic erf_magic ≡ false
          → erf_open_memory (some b) size ≡ err bad_magic)
        × (bytes_eq (stored_header b).magic erf_magic ≡ true
            → (stored_header b).version_major ≢ 1
            → erf_open_memory (some b) size ≡ err unsupported_version)
        × ((e : ErfError)
            → bytes_eq (stored_header b).magic erf_magic ≡ true
            → (stored_header b).version_major ≡ 1
            → erf_open_memory (some b) size ≡ err e
            → e ≡ bad_offset)
  erf_open_memory_errors long =
      let h = stored_header b in
      let (magic, version, rest) = check_header_errors h size in
      let start = open_parts b size long fits in
      (
        λ m.
            start
            ∙ three_stops (opened b size) (open_hash_table b h)
                (open_resources b h h.resource_count 0) (magic m),
        λ m v.
            start
            ∙ three_stops (opened b size) (open_hash_table b h)
                (open_resources b h h.resource_count 0) (version m v),
        λ e m v f.
            elim (three_error (opened b size) (check_header h size) (open_hash_table b h)
              (open_resources b h h.resource_count 0) (sym start ∙ f)) [
                | inl g ↦ rest e m v g
                | inr (g, inl t) ↦ open_hash_table_error b h t
                | inr (g, inr r) ↦ open_resources_error b h h.resource_count 0 r
              ],
      )
