-- ===== src/Manifest.antt =====
-- src/elfrc/manifest.h: the parsed manifest. C strings are the bytes before their zero.
pub mod Ids
pub mod Names
pub mod Uint
pub mod Yaml
pub mod Parse
use elfrc.Base.{ℕ, List, Bool, Option}

pub record MetadataKv : Type 0 where
  pub key : List ℕ
  pub value : List ℕ

pub record Resource : Type 0 where
  pub name : List ℕ
  pub file : List ℕ
  pub type : ℕ
  pub language : ℕ
  pub compression : ℕ
  pub flags : ℕ
  pub id_explicit : Bool
  pub id : ℕ
  pub final_id : ℕ
  pub metadata : List MetadataKv
  pub line : ℕ

-- `none` is the NULL of a manifest without a `module` field.
pub record Manifest : Type 0 where
  pub version : ℕ
  pub module_name : Option (List ℕ)
  pub resources : List Resource
