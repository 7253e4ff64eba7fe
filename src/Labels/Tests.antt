-- ===== src/Labels/Tests.antt =====
-- A household with an item and two labels: the theorems about labels at concrete calls, and runs of the
-- code.
use household_objects_srv.Prelude.{pos, String, ◌≡◌, refl, none, some, [], ◌∷◌, ok, err}
use household_objects_srv.Push.Types.{ItemRow, LabelRow, ItemLabelRow, Store, label_name_conflict}
use household_objects_srv.Push.Storage.{alloc_change_seq}
use household_objects_srv.Push.Items.{get_item}
use household_objects_srv.Labels.{
  UpdateLabelParams, get_label, get_label_by_name, insert_label, check_name, create_label,
  write_label, update_label_found, update_label,
}
use household_objects_srv.Labels.Clash.{Distinct}
use household_objects_srv.Labels.Distinct.{create_label-Distinct, update_label-Distinct}
use household_objects_srv.Labels.Edges.{
  AttachLabelParams, get_item_label, insert_edge, revive_or_insert, attach_edge, attach_item_label,
  detach_item_label,
}
use household_objects_srv.Labels.Attached.{
  OneRow, attach_item_label-OneRow, attach_item_label-again,
}
use household_objects_srv.Labels.Reattached.{Reattached, detach_item_label-Reattached}

abbrev pub tag : String → String → LabelRow
tag id name = record {
  id = id;
  group_id = "g";
  name = name;
  color = "red";
  created_at = 10;
  updated_at = 10;
  version = 1;
  deleted_at = none;
  change_seq = 1;
}

abbrev drill : ItemRow
drill = record {
  id = "i";
  group_id = "g";
  name = "Drill";
  description = "";
  location_id = none;
  quantity = pos 1;
  short_code = "AAAA";
  created_at = 10;
  updated_at = 10;
  version = 1;
  deleted_at = none;
  change_seq = 1;
}

abbrev pub shop : Store
shop = record {
  groups = record { id = "g"; change_seq_counter = 1; deleted_at = none } ∷ [];
  locations = [];
  items = drill ∷ [];
  labels = tag "l1" "tools" ∷ tag "l2" "garden" ∷ [];
  item_labels = [];
  stock_adjustments = [];
  warranties = [];
  sales = [];
  purchases = [];
  identifications = [];
  custom_fields = [];
  custom_field_defs = [];
  mutations = [];
  field_versions = [];
  conflicts = [];
}

pub shop-Distinct : Distinct "g" shop.labels
shop-Distinct = ((refl, tt), (tt, tt))

abbrev rename : UpdateLabelParams
rename = record { id = "l1"; name = "power tools"; color = "red"; expected_version = 1; now = 20 }

abbrev renamed : LabelRow
renamed = record (tag "l1" "power tools") { updated_at = 20; version = 2; change_seq = 2 }

abbrev renamed_shop : Store
renamed_shop = record shop {
  groups = record { id = "g"; change_seq_counter = 2; deleted_at = none } ∷ [];
  labels = renamed ∷ tag "l2" "garden" ∷ [];
}

renames : update_label shop "g" rename ≡ ok (renamed, renamed_shop)
unfolding update_label update_label_found get_label get_label_by_name check_name alloc_change_seq
    write_label
renames = refl

update_label-Distinct_example : Distinct "g" renamed_shop.labels
update_label-Distinct_example =
    update_label-Distinct shop "g" rename renamed renamed_shop shop-Distinct renames

refuses_name : update_label shop "g" (record rename { name = "garden" }) ≡ err label_name_conflict
unfolding update_label update_label_found get_label get_label_by_name check_name alloc_change_seq
    write_label
refuses_name = refl

abbrev kitchen : LabelRow
kitchen = record (tag "l3" "kitchen") { created_at = 20; updated_at = 20; change_seq = 2 }

abbrev larger_shop : Store
larger_shop = record shop {
  groups = record { id = "g"; change_seq_counter = 2; deleted_at = none } ∷ [];
  labels = tag "l1" "tools" ∷ tag "l2" "garden" ∷ kitchen ∷ [];
}

creates :
    create_label shop "g" (record { id = "l3"; name = "kitchen"; color = "red"; now = 20 })
    ≡ ok (kitchen, larger_shop)
unfolding create_label get_label get_label_by_name check_name alloc_change_seq insert_label
creates = refl

create_label-Distinct_example : Distinct "g" larger_shop.labels
create_label-Distinct_example =
    create_label-Distinct shop "g" (record { id = "l3"; name = "kitchen"; color = "red"; now = 20 })
      kitchen larger_shop shop-Distinct creates

abbrev tie : AttachLabelParams
tie = record { id = "e"; item_id = "i"; label_id = "l1"; now = 20 }

abbrev edge : ItemLabelRow
edge = record {
  id = "e";
  group_id = "g";
  item_id = "i";
  label_id = "l1";
  created_at = 20;
  updated_at = 20;
  version = 1;
  deleted_at = none;
  change_seq = 2;
}

abbrev tied_shop : Store
tied_shop = record shop {
  groups = record { id = "g"; change_seq_counter = 2; deleted_at = none } ∷ [];
  item_labels = edge ∷ [];
}

ties : attach_item_label shop "g" tie ≡ ok (edge, tied_shop)
unfolding attach_item_label attach_edge get_item get_label get_item_label alloc_change_seq
    revive_or_insert insert_edge
ties = refl

attach_item_label-OneRow_example : OneRow tied_shop.item_labels
attach_item_label-OneRow_example = attach_item_label-OneRow shop "g" tie edge tied_shop tt ties

attach_item_label-again_example :
    attach_item_label tied_shop "g" (record tie { id = "f"; now = 30 }) ≡ ok (edge, tied_shop)
attach_item_label-again_example = attach_item_label-again shop "g" tie edge tied_shop "f" 30 ties

abbrev untied_shop : Store
untied_shop = record tied_shop {
  groups = record { id = "g"; change_seq_counter = 3; deleted_at = none } ∷ [];
  item_labels =
      record edge { updated_at = 30; version = 2; deleted_at = some 30; change_seq = 3 } ∷ [];
}

unties : detach_item_label tied_shop "g" "i" "l1" 30 ≡ ok untied_shop
unfolding detach_item_label alloc_change_seq
unties = refl

detach_item_label-Reattached_example :
    Reattached untied_shop "g" (record tie { id = "f"; now = 40 }) edge
unfolding get_item get_label get_item_label
detach_item_label-Reattached_example =
    detach_item_label-Reattached tied_shop "g" (record tie { id = "f"; now = 40 }) 30 edge
      untied_shop (tt, tt) (refl, refl) refl unties
