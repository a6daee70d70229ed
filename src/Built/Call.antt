-- ===== src/Built/Call.antt =====
-- What a call of `elfrc_container_build` that returns a container went through.
use elfrc.Base.{◌≡◌, refl, List, Option, none, some, ℕ}
use elfrc.Format.{HashBucket}
use elfrc.Manifest.{Manifest}
use elfrc.Container.HashTable.{build_buckets}
use elfrc.Container.Sections
use elfrc.Container.Sections.{Files, loaded, failed}
use elfrc.Container.Build.{Layout, lay_out, finish, elfrc_container_build}

-- The parts of a call that returns a container.
pub record IsBuild (files : Files) (m : Manifest) (mem : List ℕ) : Type 0 where
  pub buckets : List HashBucket
  pub layout : Layout
  pub table : build_buckets m.resources ≡ some buckets
  pub lays : lay_out files buckets m.resources ≡ loaded layout
  pub finished : finish m.resources layout ≡ mem

pub elfrc_container_build-IsBuild :
    (files : Files) (m : Manifest) (mem : List ℕ)
    → elfrc_container_build files m ≡ some (loaded mem)
    → IsBuild files m mem
unfolding elfrc_container_build
elfrc_container_build-IsBuild files m mem e = by_table (build_buckets m.resources) refl e
  where
    by_layout :
        (t : List HashBucket) (o : Sections.Loaded Layout)
        → build_buckets m.resources ≡ some t
        → lay_out files t m.resources ≡ o
        → some (elim o [ failed x ↦ failed x | loaded l ↦ loaded (finish m.resources l) ])
          ≡ some (loaded mem)
        → IsBuild files m mem
    by_layout t (failed x) f g e = cc
    by_layout t (loaded l) f g e = record {
      buckets = t;
      layout = l;
      table = f;
      lays = g;
      finished = cc;
    }

    by_table :
        (o : Option (List HashBucket))
        → build_buckets m.resources ≡ o
        → elim o [
          | none ↦ none
          | some t ↦ some (elim (lay_out files t m.resources) [
            | failed x ↦ failed x
            | loaded l ↦ loaded (finish m.resources l)
          ])
        ]
          ≡ some (loaded mem)
        → IsBuild files m mem
    by_table none f e = cc
    by_table (some t) f e = by_layout t (lay_out files t m.resources) f refl e
