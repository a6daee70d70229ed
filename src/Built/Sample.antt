-- ===== src/Built/Sample.antt =====
-- Two resources, each with a pair of metadata.
use elfrc.Base.{ℕ, List, [], ◌∷◌, Option, none, some, false}
use elfrc.Manifest.{Resource, Manifest}
use elfrc.Container.Build.{elfrc_container_build}
use elfrc.Container.Sections.{Files, Loaded, loaded, failed}

abbrev pub files : Files
files path = some (record { told = some 3; delivered = 1 ∷ 2 ∷ 3 ∷ [] })

abbrev pub resource : List ℕ → ℕ → Resource
resource name id = record {
  name = name;
  file = b'f' ∷ [];
  type = 4;
  language = 0;
  compression = 0;
  flags = 0;
  id_explicit = false;
  id = 0;
  final_id = id;
  metadata = record { key = b'a' ∷ []; value = b'f' ∷ [] } ∷ [];
  line = 3;
}

abbrev pub two : Manifest
two = record {
  version = 1;
  module_name = none;
  resources = resource (b'a' ∷ []) 7 ∷ resource (b'b' ∷ []) 8 ∷ [];
}

abbrev pub content_of : Option (Loaded (List ℕ)) → List ℕ
content_of none = []
content_of (some (failed e)) = []
content_of (some (loaded bytes)) = bytes

abbrev pub container : List ℕ
container = content_of (elfrc_container_build files two)
