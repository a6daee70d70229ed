-- ===== src/Container/HashTable/Tests.antt =====
-- The hash table on a manifest of two resources.
use mathlib.Core.Option
use elfrc.Base.{ℕ, ◌+◌, ◌^◌, ◌≡◌, arith, List, [], ◌∷◌, none, some, false}
use elfrc.Format.{HashBucket}
use elfrc.Manifest.{Resource}
use elfrc.Container.HashTable.{double_until, build_buckets}
use elfrc.Container.HashTable.Size.{double_until_diverges}
use elfrc.Container.HashTable.Spec.{index_of, lookup, first_index}
use elfrc.Container.HashTable.Lookup.{lookup-build_buckets}

abbrev named_resource : List ℕ → Resource
named_resource name = record {
  name = name;
  file = b'f' ∷ [];
  type = 1;
  language = 0;
  compression = 0;
  flags = 0;
  id_explicit = false;
  id = 0;
  final_id = 1;
  metadata = [];
  line = 1;
}

abbrev two_resources : List Resource
two_resources = named_resource (b'a' ∷ []) ∷ named_resource (b'b' ∷ []) ∷ []

double_until_diverges_example : double_until 1000 16 (2 ^ 31 + 1) ≡ none
double_until_diverges_example =
    double_until_diverges 1000 27 16 (2 ^ 31 + 1) (omega arith) (omega arith)

lookup-build_buckets_example :
    (t : List HashBucket) × (build_buckets two_resources ≡ some t)
    × ((q : List ℕ)
        → Option.map (index_of t) (lookup two_resources t q) ≡ first_index q 0 two_resources)
lookup-build_buckets_example = lookup-build_buckets two_resources (omega arith)
