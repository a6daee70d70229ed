-- ===== src/Manifest/Ids/Tests.antt =====
-- The ids of a small manifest.
use elfrc.Base.{ℕ, ◌≡◌, arith, List, [], ◌∷◌, some, Bool, true, false}
use elfrc.Manifest.{Resource}
use elfrc.Manifest.Ids.{Assigned, assign_and_validate_ids}
use elfrc.Manifest.Ids.Sample.{sort, member, library}
use elfrc.Manifest.Ids.Unique.{IsAssigned, assign_and_validate_ids-IsAssigned}

abbrev with_id : Bool → ℕ → Resource
with_id given id = record {
  name = id ∷ [];
  file = b'f' ∷ [];
  type = 1;
  language = 0;
  compression = 0;
  flags = 0;
  id_explicit = given;
  id = id;
  final_id = 0;
  metadata = [];
  line = 1;
}

abbrev three_resources : List Resource
three_resources = with_id true 2 ∷ with_id false 50 ∷ with_id false 51 ∷ []

assign_and_validate_ids-IsAssigned_example :
    (a : Assigned) × (assign_and_validate_ids sort member three_resources ≡ some a)
    × IsAssigned three_resources a
assign_and_validate_ids-IsAssigned_example =
    assign_and_validate_ids-IsAssigned sort member three_resources library (omega arith)
