-- ===== src/Push/Tests/Entities.antt =====
-- Pushes of locations and labels, and the dispatch table, at concrete mutations.
use household_objects_srv.Prelude.{ℕ, pos, String, ◌≡◌, refl, true, false, none, [], ◌∷◌, ok}
use household_objects_srv.Push.Types.{FieldVersionRow, Store, PushMutation, PushOutcome}
use household_objects_srv.Push.Storage.{
  alloc_change_seq, record_field_versions, upsert_field_version,
}
use household_objects_srv.Push.Merge.{require_known_fields, decode_string, merge_string}
use household_objects_srv.Push.Item.{conflict_outcome}
use household_objects_srv.Push.Apply.Ledger.{HandlersKeepLog}
use household_objects_srv.Push.Entity.{plan_update, finish_updated, conflict_or}
use household_objects_srv.Push.Location.{push_location, merge_location}
use household_objects_srv.Push.Location.Keeps.{push_location-Tree}
use household_objects_srv.Push.Label.{push_label, merge_label}
use household_objects_srv.Push.Label.Keeps.{push_label-Distinct}
use household_objects_srv.Push.Tests.{outside}
use household_objects_srv.Push.Dispatch.{handlers, handlers-KeepLog}
use household_objects_srv.Locations.{
  get_location, check_parent, check_move, refuse_cycle, parent_of, location_move_creates_cycle,
  update_location, update_location_found, write_location, diff_location_fields,
}
use household_objects_srv.Locations.Tree.{Tree}
use household_objects_srv.Locations.Tests.{place, house, house-Tree}
use household_objects_srv.Labels.{
  get_label, get_label_by_name, check_name, update_label, update_label_found, write_label,
  diff_label_fields,
}
use household_objects_srv.Labels.Clash.{Distinct}
use household_objects_srv.Labels.Tests.{tag, shop, shop-Distinct}

abbrev take_out : PushMutation
take_out = record {
  mutation_id = "m1";
  entity_type = "location";
  entity_id = "box";
  base_version = pos 1;
  fields = ("parent_id", "") ∷ [];
  now = pos 20;
  op = "";
}

abbrev applied : ℕ → PushOutcome
applied version = record {
  skipped = false;
  applied = true;
  entity_type = "";
  entity_id = "";
  version = version;
  conflict_fields = [];
  field_snapshots = [];
}

abbrev version_row : String → String → String → FieldVersionRow
version_row entity id name = record {
  group_id = "g";
  entity_type = entity;
  entity_id = id;
  field_name = name;
  version = 2;
  updated_at = 20;
}

abbrev open_house : Store
open_house = record house {
  groups = record { id = "g"; change_seq_counter = 2; deleted_at = none } ∷ [];
  locations =
      place "hall" none
      ∷ record (place "box" none) { updated_at = 20; version = 2; change_seq = 2 }
      ∷ [];
  field_versions = version_row "location" "box" "parent_id" ∷ [];
}

takes_out : push_location (outside "u0" "u1") house "g" take_out ≡ ok (applied 2, open_house)
unfolding push_location merge_location plan_update require_known_fields merge_string decode_string
    finish_updated get_location update_location update_location_found check_move alloc_change_seq
    write_location record_field_versions upsert_field_version diff_location_fields
takes_out = refl

push_location-Tree_example : Tree open_house "g"
push_location-Tree_example =
    push_location-Tree (outside "u0" "u1") house "g" take_out (applied 2) open_house house-Tree
      takes_out

-- A cycle is a conflict on the parent, and writes nothing.
refuses_cycle :
    push_location
      (outside "u0" "u1")
      house
      "g"
      (record take_out { entity_id = "hall"; fields = ("parent_id", "box") ∷ [] })
    ≡ ok (conflict_outcome ("parent_id" ∷ []) [], house)
unfolding push_location merge_location plan_update require_known_fields merge_string decode_string
    finish_updated conflict_or get_location update_location update_location_found check_move
    check_parent refuse_cycle location_move_creates_cycle parent_of
refuses_cycle = refl

abbrev rename_label : PushMutation
rename_label = record {
  mutation_id = "m2";
  entity_type = "label";
  entity_id = "l1";
  base_version = pos 1;
  fields = ("name", "power tools") ∷ [];
  now = pos 20;
  op = "";
}

abbrev renamed_labels : Store
renamed_labels = record shop {
  groups = record { id = "g"; change_seq_counter = 2; deleted_at = none } ∷ [];
  labels =
      record (tag "l1" "power tools") { updated_at = 20; version = 2; change_seq = 2 }
      ∷ tag "l2" "garden"
      ∷ [];
  field_versions = version_row "label" "l1" "name" ∷ [];
}

renames_label :
    push_label (outside "u0" "u1") shop "g" rename_label ≡ ok (applied 2, renamed_labels)
unfolding push_label merge_label plan_update require_known_fields merge_string decode_string
    finish_updated get_label get_label_by_name check_name update_label update_label_found
    alloc_change_seq write_label record_field_versions upsert_field_version diff_label_fields
renames_label = refl

push_label-Distinct_example : Distinct "g" renamed_labels.labels
push_label-Distinct_example =
    push_label-Distinct (outside "u0" "u1") shop "g" rename_label (applied 2) renamed_labels
      shop-Distinct renames_label

handlers-KeepLog_example : HandlersKeepLog (handlers (outside "u0" "u1"))
handlers-KeepLog_example = handlers-KeepLog (outside "u0" "u1")
