-- ===== src/Reader/Container.antt =====
-- struct ERFContainer and ERFResource. A pointer into the container is its offset from `base`.
use elfrc.Base.{ℕ, List, Bool, ltb, if◌then◌else◌, true, false, ◌-◌}
use elfrc.Format.{Header}

pub record Resource : Type 0 where
  pub id : ℕ
  pub type : ℕ
  pub language : ℕ
  pub flags : ℕ
  pub name : ℕ
  pub bytes : ℕ
  pub size : ℕ
  pub timestamp : ℕ
  pub metadata_offset : ℕ

pub record Container : Type 0 where
  pub base : List ℕ
  pub size : ℕ
  pub header : Header
  pub entry_stride : ℕ
  pub resources : List Resource
  pub resource_count : ℕ
  pub has_hash_table : Bool
  pub hash_bucket_count : ℕ
  pub hash_buckets : ℕ

-- `offset > size` is tested first, so that `size - offset` does not wrap.
unfoldable pub in_bounds : ℕ → ℕ → ℕ → Bool
in_bounds size offset len =
    if ltb size offset then false else if ltb (size - offset) len then false else true
