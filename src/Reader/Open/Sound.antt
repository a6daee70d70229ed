-- ===== src/Reader/Open/Sound.antt =====
-- `erf_open_memory` as a whole: it stays inside the memory, accepts exactly the containers whose
-- parts are in bounds, and reports the first test that fails.
use elfrc.Base.{
  ℕ, ◌+◌, ◌*◌, ◌^◌, ◌≤◌, ◌<◌, ◌≡◌, ◌≢◌, ◌⊎◌, inl, inr, refl, sym, dec_lt, ◌∙◌, arith, List, Option,
  none, some, true, false, ltb, length, take, subst,
}
use elfrc.Bytes.Laws.{read-some}
use elfrc.Format.{Header, header_of, sizeof_header, sizeof_hash_header, sizeof_bucket}
use elfrc.Reader.Outcome.{truncated, invalid_argument, Outcome, ok, err, fault}
use elfrc.Reader.Open.Sequence.{three, three_inversion, three-ne-fault, three_ok}
use elfrc.Reader.Container.{Resource, Container}
use elfrc.Reader.Open.{
  HashTable, has_hash, open_hash_table, resource_of, open_resources, check_header, open_base,
  erf_open_memory,
}
use elfrc.Reader.Open.Checks.{
  Checked, check_header-Checked, check_header-ne-fault, check_header-ok, open_hash_table-ne-fault,
  open_hash_table-ok, open_hash_table_inversion, stored_bucket_count,
}
use elfrc.Reader.Open.Entries.{
  Within, stored_entry, Loaded, Loaded-Within, open_resources-ne-fault, open_resources-Loaded,
  open_resources-total,
}

-- The header that the memory starts with.
abbrev pub stored_header : List ℕ → Header
stored_header b = header_of (take sizeof_header b)

-- What a container must be for `erf_open_memory` to accept it: the header's fields are in range,
-- and the directory, the hash table, every name's start and all the data lie inside `total_size`.
pub record Acceptable (b : List ℕ) (size : ℕ) : Type 0 where
  pub long : sizeof_header ≤ size
  pub checked : Checked (stored_header b) size
  pub table :
      has_hash (stored_header b) ≡ true
      → (stored_header b).hash_table_offset
          + sizeof_hash_header
          + stored_bucket_count b (stored_header b) * sizeof_bucket
        ≤ (stored_header b).total_size
  pub entries :
      (j : ℕ)
      → j < (stored_header b).resource_count
      → Within (stored_header b).total_size (resource_of (stored_entry b (stored_header b) j))

-- The container that stands for the memory `b`.
pub record IsOpened (b : List ℕ) (size : ℕ) (c : Container) : Type 0 where
  pub base : c.base ≡ b
  pub memory : c.size ≡ size
  pub header : c.header ≡ stored_header b
  pub count : c.resource_count ≡ (stored_header b).resource_count
  pub loaded : Loaded b (stored_header b) (stored_header b).resource_count 0 c.resources
  pub has_table : c.has_hash_table ≡ has_hash (stored_header b)
  pub table :
      has_hash (stored_header b) ≡ true
      → (c.hash_bucket_count ≡ stored_bucket_count b (stored_header b))
        × (c.hash_buckets ≡ (stored_header b).hash_table_offset + sizeof_hash_header)
  pub no_table : has_hash (stored_header b) ≡ false → c.hash_bucket_count ≡ 0

-- What `open_base` returns once its three parts have passed.
abbrev pub opened : List ℕ → ℕ → HashTable → List Resource → Container
opened b size t rs =
    let h = stored_header b in
    record {
      base = b;
      size = size;
      header = h;
      entry_stride = h.directory_entry_size;
      resources = rs;
      resource_count = h.resource_count;
      has_hash_table = t.present;
      hash_bucket_count = t.bucket_count;
      hash_buckets = t.buckets;
    }

abbrev pub parts : List ℕ → ℕ → Outcome Container
parts b size =
    let h = stored_header b in
    three (opened b size) (check_header h size) (open_hash_table b h)
      (open_resources b h h.resource_count 0)

pub open_parts :
    (b : List ℕ) (size : ℕ)
    → sizeof_header ≤ size
    → size ≤ length b
    → erf_open_memory (some b) size ≡ parts b size
unfolding erf_open_memory open_base
open_parts b size long fits =
    let test : ltb size sizeof_header ≡ false = ground arith in
    rw (test, read-some b 0 sizeof_header (omega arith)) refl

open_short :
    (b : Option (List ℕ)) (size : ℕ)
    → size < sizeof_header
    → (erf_open_memory b size ≡ err invalid_argument) ⊎ (erf_open_memory b size ≡ err truncated)
unfolding erf_open_memory
open_short none size short = inl refl
open_short (some b) size short = ground arith

module _ (b : List ℕ) (size : ℕ) (fits : size ≤ length b) (word : size < 2 ^ 64) where
  -- If the memory holds at least the `size` bytes it is opened with, and `size` is a 64-bit word,
  -- `erf_open_memory` reads nothing outside of it, whatever bytes it holds.
  pub erf_open_memory-ne-fault : erf_open_memory (some b) size ≢ fault
  erf_open_memory-ne-fault e = elim (dec_lt size sizeof_header) [
    | yes short ↦ elim (open_short (some b) size short) [ inl f ↦ cc | inr f ↦ cc ]
    | no long ↦
        let h = stored_header b in
        three-ne-fault (opened b size) (check_header h size) (open_hash_table b h)
          (open_resources b h h.resource_count 0) (check_header-ne-fault h size)
          (λ passed.
            let c = check_header-Checked h size word passed in
            (
              open_hash_table-ne-fault b h size c fits,
              open_resources-ne-fault b h c fits h.resource_count 0 (omega arith),
            ))
          (sym (open_parts b size (omega arith) fits) ∙ e)
  ]

  long_of_ok : {c : Container} → erf_open_memory (some b) size ≡ ok c → sizeof_header ≤ size
  long_of_ok e = elim (dec_lt size sizeof_header) [
    | yes short ↦ elim (open_short (some b) size short) [ inl f ↦ cc | inr f ↦ cc ]
    | no long ↦ omega arith
  ]

  -- If the memory holds at least the `size` bytes it is opened with, and `size` is a 64-bit word,
  -- then a container that `erf_open_memory` returns passed every test (the header, the directory,
  -- the hash table, the start of each name and all of each resource's data lie inside
  -- `total_size`, and that inside `size`), and the handle holds the header and the resources that
  -- the memory encodes.
  pub erf_open_memory-IsOpened :
      {c : Container} → erf_open_memory (some b) size ≡ ok c → Acceptable b size × IsOpened b size c
  erf_open_memory-IsOpened {c} e =
      let h = stored_header b in
      let long = long_of_ok e in
      let (t, rs, passed, hashed, loaded, same) =
        three_inversion (opened b size) (check_header h size) (open_hash_table b h)
          (open_resources b h h.resource_count 0) (sym (open_parts b size long fits) ∙ e) in
      let k = check_header-Checked h size word passed in
      let (present, table, absent) =
        open_hash_table_inversion b h size t (omega (arith, k.total)) k fits hashed in
      let l = open_resources-Loaded b h k fits h.resource_count 0 (omega arith) loaded in
      (
        record {
          long = long;
          checked = k;
          table = λ p. (table p).0;
          entries = λ j lt. Loaded-Within b h h.resource_count j l lt;
        },
        subst (IsOpened b size) same (record {
          base = refl;
          memory = refl;
          header = refl;
          count = refl;
          loaded = l;
          has_table = present;
          table = λ p. ((table p).1, (table p).2);
          no_table = absent;
        }),
      )

  -- If the memory holds at least the `size` bytes it is opened with, and `size` is a 64-bit word,
  -- then every container that passes all the tests is opened.
  pub erf_open_memory_accepts :
      Acceptable b size → (c : Container) × (erf_open_memory (some b) size ≡ ok c)
  erf_open_memory_accepts a =
      let h = stored_header b in
      let t = open_hash_table-ok b h size word a.checked fits a.table in
      let (rs, loaded) =
        open_resources-total b h a.checked fits h.resource_count 0 (omega arith)
          (λ j lo hi. a.entries j (omega arith)) in
      (
        opened b size _ rs,
        open_parts b size a.long fits
            ∙ three_ok (opened b size) (check_header-ok h size word a.checked) t loaded,
      )
