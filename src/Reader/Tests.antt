-- ===== src/Reader/Tests.antt =====
-- The calls of libelfr on a small container.
use elfrc.Base.{
  ℕ, ◌+◌, ◌^◌, ◌≤◌, ◌<◌, ◌≡◌, ◌≢◌, ◌⊎◌, refl, arith, [], ◌∷◌, none, some, length, get_elem?, drop,
}
use elfrc.Bytes.{read, le_bytes, le_value, string_at, c_string, bytes_eq}
use elfrc.Format.{header_bytes, header_of, entry_bytes, entry_of}
use elfrc.Container.Sections.{write_string, write_pairs, write_block}
use elfrc.Reader.Outcome.{bad_offset, ok, err, fault}
use elfrc.Reader.Container.{in_bounds}
use elfrc.Reader.Open.{
  mul_overflow, table_fits, has_hash, read_hash_table, open_hash_table, read_entry, resource_of,
  open_resource, open_resources, check_header, open_base, erf_open_memory,
}
use elfrc.Reader.Open.Sound.{
  Acceptable, IsOpened, erf_open_memory-ne-fault, erf_open_memory-IsOpened,
}
use elfrc.Reader.Find.{strcmp_eq, name_matches, scan_names, find_name, erf_find_in, erf_find_id_in}
use elfrc.Reader.Find.Names.{strcmp_eq-c_string}
use elfrc.Reader.Find.Sound.{HasName, erf_find_in-HasName, erf_find_in_unterminated}
use elfrc.Reader.Find.Ids.{IsFirstId, erf_find_id_in-IsFirstId}
use elfrc.Reader.Outcome.{not_found}
use elfrc.Reader.Metadata.{found, erf_metadata_get, read_u32, read_string, read_pair, nth_pair}
use elfrc.Reader.Metadata.{fault as metadata_fault}
use elfrc.Reader.Metadata.Sound.{erf_metadata_get-ne-fault, erf_metadata_get-found}
use elfrc.Reader.Metadata.Written.{erf_metadata_get-write_block}
use elfrc.Reader.Default.{initial, erf_find, erf_find_id, erf_resource_data}
use elfrc.Reader.Default.Laws.{linked_handle, value, direct, step, find, default_calls}
use elfrc.Reader.Find.{erf_resource_data_in}
use elfrc.Base.{foldl}
use elfrc.Reader.Open.Verdict.{Verdict, erf_open_memory-Verdict}
use elfrc.Reader.Sample.{sample, sample_front, sample_pairs, sample_resource, sample_container}
use elfrc.Reader.Container.{Resource, Container}

sample_size : 315 ≤ length sample
unfolding header_bytes entry_bytes le_bytes write_string write_pairs write_block
sample_size = omega arith

opened_sample : erf_open_memory (some sample) 315 ≡ ok sample_container
unfolding header_bytes entry_bytes le_bytes le_value write_string write_pairs write_block read
    header_of entry_of bytes_eq in_bounds mul_overflow table_fits has_hash read_hash_table
    open_hash_table read_entry resource_of open_resource open_resources check_header open_base
    erf_open_memory
opened_sample = refl

erf_open_memory-IsOpened_example : Acceptable sample 315 × IsOpened sample 315 sample_container
erf_open_memory-IsOpened_example =
    erf_open_memory-IsOpened sample 315 sample_size (omega arith) opened_sample

erf_open_memory-ne-fault_example : erf_open_memory (some sample) 315 ≢ fault
erf_open_memory-ne-fault_example = erf_open_memory-ne-fault sample 315 sample_size (omega arith)

-- Opened with one byte less than its header claims.
erf_open_memory-Verdict_example : Verdict sample 314 (err bad_offset)
unfolding header_bytes entry_bytes le_bytes le_value write_string write_pairs write_block read
    header_of entry_of bytes_eq in_bounds mul_overflow table_fits has_hash read_hash_table
    open_hash_table read_entry resource_of open_resource open_resources check_header open_base
    erf_open_memory
erf_open_memory-Verdict_example =
    erf_open_memory-Verdict sample 314 (omega (arith, sample_size)) (omega arith)

found_a : erf_find_in (some sample_container) (some (b'a' ∷ [])) ≡ ok 0
unfolding header_bytes entry_bytes le_bytes write_string write_pairs write_block strcmp_eq
    name_matches scan_names find_name erf_find_in
found_a = refl

erf_find_in-HasName_example : HasName sample_container (b'a' ∷ []) 0
erf_find_in-HasName_example = erf_find_in-HasName sample_container (b'a' ∷ []) 0 found_a

-- Its name starts at the data, which ends with the memory.
abbrev unterminated_resource : Resource
unterminated_resource = record sample_resource { name = 312 }

abbrev unterminated : Container
unterminated = record sample_container { resources = unterminated_resource ∷ [] }

name_at_end : drop 312 unterminated.base ≡ 1 ∷ 2 ∷ 3 ∷ []
unfolding header_bytes entry_bytes le_bytes write_string write_pairs write_block
name_at_end = refl

erf_find_in_unterminated_example :
    erf_find_in (some unterminated) (some (1 ∷ 2 ∷ 3 ∷ 4 ∷ [])) ≡ fault
erf_find_in_unterminated_example =
    erf_find_in_unterminated unterminated unterminated_resource (1 ∷ 2 ∷ 3 ∷ []) (4 ∷ []) refl refl
      name_at_end

erf_find_id_in-IsFirstId_example :
    ((i : ℕ) × (erf_find_id_in (some sample_container) 7 ≡ ok i)
      × IsFirstId 7 i sample_container.resources)
    ⊎ ((erf_find_id_in (some sample_container) 7 ≡ err not_found)
        × ((j : ℕ) (r : Resource) → get_elem? sample_container.resources j ≡ some r → r.id ≢ 7))
erf_find_id_in-IsFirstId_example = erf_find_id_in-IsFirstId sample_container 7

sample_string : c_string (drop 288 sample) ≡ some (b'a' ∷ [])
unfolding header_bytes entry_bytes le_bytes write_string write_pairs write_block c_string
sample_string = refl

strcmp_eq-c_string_example :
    strcmp_eq (drop 288 sample) (b'b' ∷ []) ≡ some (bytes_eq (b'a' ∷ []) (b'b' ∷ []))
strcmp_eq-c_string_example =
    strcmp_eq-c_string (drop 288 sample) (b'b' ∷ []) (b'a' ∷ []) ((omega arith, omega arith), tt)
      sample_string

block_memory : 315 ≡ length sample
unfolding header_bytes entry_bytes le_bytes write_string write_pairs write_block
block_memory = refl

front_filled : 0 < length sample_front
unfolding header_bytes entry_bytes le_bytes
front_filled = omega arith

block_offset : 296 ≡ (write_block sample_front sample_pairs).0
unfolding header_bytes entry_bytes le_bytes write_block
block_offset = refl

erf_metadata_get-write_block_example :
    (key : ℕ) × (value_at : ℕ) × (erf_metadata_get
        (some sample_container)
        (some sample_resource)
        (some 0)
      ≡ found (key, value_at))
    × (string_at sample key ≡ some (b'k' ∷ []))
    × (string_at sample value_at ≡ some (b'v' ∷ []))
erf_metadata_get-write_block_example =
    erf_metadata_get-write_block sample_container block_memory (omega arith) sample_resource
      sample_front (1 ∷ 2 ∷ 3 ∷ []) sample_pairs 0 front_filled (omega arith)
      (
        (
          ((omega arith, omega arith), tt),
          omega arith,
          ((omega arith, omega arith), tt),
          omega arith,
        ),
        tt,
      )
      refl block_offset refl

erf_metadata_get-ne-fault_example :
    erf_metadata_get (some sample_container) (some sample_resource) (some 5) ≢ metadata_fault
erf_metadata_get-ne-fault_example =
    erf_metadata_get-ne-fault sample_container sample_size (omega arith) (some sample_resource)
      (some 5)

got_pair :
    erf_metadata_get (some sample_container) (some sample_resource) (some 0) ≡ found (304, 310)
unfolding header_bytes entry_bytes le_bytes le_value write_string write_pairs write_block read
    in_bounds read_u32 read_string read_pair nth_pair erf_metadata_get
got_pair = refl

erf_metadata_get-found_example : (296 + 4 < 304) × (304 < 310) × (310 < 315)
erf_metadata_get-found_example =
    erf_metadata_get-found sample_container sample_size (omega arith) sample_resource 0 304 310
      got_pair

sample_word : length sample < 2 ^ 64
unfolding header_bytes entry_bytes le_bytes write_string write_pairs write_block
sample_word = omega arith

default_calls_example :
    (value (
        erf_find
          (some sample)
          (some (b'a' ∷ []))
          (foldl (step (some sample)) initial (find none ∷ [])))
      ≡ direct (linked_handle (some sample)) (λ c. erf_find_in (some c) (some (b'a' ∷ []))))
    × (value (erf_find_id (some sample) 7 (foldl (step (some sample)) initial (find none ∷ [])))
        ≡ direct (linked_handle (some sample)) (λ c. erf_find_id_in (some c) 7))
    × (value (
          erf_resource_data
            (some sample)
            (some (b'a' ∷ []))
            (foldl (step (some sample)) initial (find none ∷ [])))
        ≡ direct
            (linked_handle (some sample))
            (λ c. erf_resource_data_in (some c) (some (b'a' ∷ []))))
default_calls_example =
    default_calls (some sample) (find none ∷ []) (some (b'a' ∷ [])) 7 sample_word
