-- ===== src/Parts/Tests.antt =====
-- Warranties and custom fields of one item: the theorems at concrete operations, and runs of the code.
pub mod Removal
pub mod Stale
use mathlib.Core.Path.{subst}
use mathlib.Core.List.Perm as Perm
use household_objects_srv.Prelude.{
  String, str_eq, eq_iff, pos, ◌≡◌, refl, true, false, none, some, [], ◌∷◌, arith, if◌then◌else◌,
  ok, err, ◌==◌,
}
use household_objects_srv.Push.Rows.{PartRow, Warranty}
use household_objects_srv.Push.Types.{
  ItemRow, Store, PushMutation, PushOutcome, Outside, warranty_exists,
}
use household_objects_srv.Push.Storage.{
  alloc_change_seq, record_field_versions, upsert_field_version,
}
use household_objects_srv.Push.Items.{get_item}
use household_objects_srv.Push.Merge.{
  contains, require_known_fields, require_field, decode_string, merge_string,
}
use household_objects_srv.Push.Merge.Nullable.{decode_bool, merged}
use household_objects_srv.Push.Entity.{finish_updated}
use household_objects_srv.Parts.{
  CreatePartParams, check_free, get_part, insert_part, create_part, reread_part, update_part,
  update_part_found, write_part, create,
}
use household_objects_srv.Parts.Push.{push_part, push_known_part, plan_part, merge_part}
use household_objects_srv.Parts.Warranty.{
  WarrantyParams, pushed_warranty, create_warranty, create_recorded_warranty, merged_warranty,
  diff_warranty_fields,
}
use household_objects_srv.Parts.Logs.{warranty_table-Laws}
use household_objects_srv.Parts.Alone.{AtMostOne}
use household_objects_srv.Parts.Steps.{creates, pushes, done, next, Steps-AtMostOne}
use household_objects_srv.Parts.CustomField.ValueUnion.{value_union_rule, distinct}
use household_objects_srv.Parts.CustomField.ValueUnion.Together.{
  Together, value_union_rule-Together,
}

-- Raw values stand for themselves.
abbrev outside : Outside
outside = record {
  json_string = λ raw. some raw;
  json_int64 = λ raw. none;
  json_bool = λ raw. some (str_eq raw "true");
  json_float64 = λ raw. none;
  quote_string = λ s. s;
  quote_int64 = λ n. "number";
  quote_bool = λ b. if b then "true" else "false";
  quote_float64 = λ n. "number";
  float_eq = λ a b. a == b;
  sort_strings = λ names. names;
  short_code = λ n. none;
  uuid = λ n. none;
}

abbrev drill : ItemRow
drill = record {
  id = "i";
  group_id = "g";
  name = "Drill";
  description = "";
  location_id = none;
  quantity = pos 1;
  short_code = "AAAA";
  created_at = 10;
  updated_at = 10;
  version = 1;
  deleted_at = none;
  change_seq = 1;
}

abbrev bare : Store
bare = record {
  groups = record { id = "g"; change_seq_counter = 1; deleted_at = none } ∷ [];
  locations = [];
  items = drill ∷ [];
  labels = [];
  item_labels = [];
  stock_adjustments = [];
  warranties = [];
  sales = [];
  purchases = [];
  identifications = [];
  custom_fields = [];
  custom_field_defs = [];
  mutations = [];
  field_versions = [];
  conflicts = [];
}

abbrev acme : CreatePartParams WarrantyParams
acme = record {
  id = "w";
  item_id = "i";
  values = record {
    holder = "Ann";
    provider = "Acme";
    starts_on = "";
    expires_on = "2030-01-01";
    is_lifetime = false;
    notes = "";
  };
  now = 20;
}

abbrev acme_row : PartRow Warranty
acme_row = record {
  id = "w";
  group_id = "g";
  item_id = "i";
  values = record {
    holder = "Ann";
    provider = "Acme";
    starts_on = none;
    expires_on = some "2030-01-01";
    is_lifetime = false;
    notes = "";
  };
  created_at = 20;
  updated_at = 20;
  version = 1;
  deleted_at = none;
  change_seq = 2;
}

abbrev covered : Store
covered = record bare {
  groups = record { id = "g"; change_seq_counter = 2; deleted_at = none } ∷ [];
  warranties = acme_row ∷ [];
}

covers : create_recorded_warranty bare "g" acme ≡ ok (acme_row, covered)
unfolding create create_part check_free get_part get_item alloc_change_seq insert_part reread_part
covers = refl

-- A second warranty of the item is refused.
second : create_warranty covered "g" (record acme { id = "v" }) ≡ err warranty_exists
unfolding create_part check_free get_part get_item
second = refl

abbrev lasts : PushMutation
lasts = record {
  mutation_id = "m1";
  entity_type = "warranty_block";
  entity_id = "w";
  base_version = pos 1;
  fields = ("is_lifetime", "true") ∷ ("item_id", "i") ∷ [];
  now = pos 30;
  op = "";
}

abbrev lasting_row : PartRow Warranty
lasting_row = record acme_row {
  values = record acme_row.values { is_lifetime = true };
  updated_at = 30;
  version = 2;
  change_seq = 3;
}

abbrev lasting : Store
lasting = record covered {
  groups = record { id = "g"; change_seq_counter = 3; deleted_at = none } ∷ [];
  warranties = lasting_row ∷ [];
  field_versions =
      record {
        group_id = "g";
        entity_type = "warranty_block";
        entity_id = "w";
        field_name = "is_lifetime";
        version = 2;
        updated_at = 30;
      }
      ∷ [];
}

abbrev lasted : PushOutcome
lasted = record {
  skipped = false;
  applied = true;
  entity_type = "";
  entity_id = "w";
  version = 2;
  conflict_fields = [];
  field_snapshots = [];
}

lasts_run : push_part pushed_warranty outside covered "g" lasts ≡ ok (lasted, lasting)
unfolding push_part push_known_part plan_part merge_part merged_warranty require_known_fields
    require_field decode_string merge_string decode_bool merged finish_updated get_part update_part
    update_part_found write_part reread_part alloc_change_seq record_field_versions
    upsert_field_version diff_warranty_fields
lasts_run = refl

Steps-AtMostOne_example : AtMostOne lasting.warranties
Steps-AtMostOne_example =
    Steps-AtMostOne pushed_warranty warranty_table-Laws warranty_exists refl outside bare lasting
      (next (creates "g" acme acme_row covers) (next (pushes "g" lasts lasted lasts_run) done))
      (λ group item. omega arith)

only_text :
    (name : String)
    → contains ("text_value" ∷ []) name ≡ true
    → contains ("field_type" ∷ "name" ∷ []) name ≡ false
only_text name h =
    let same : "text_value" ≡ name = ground (arith, eq_iff "text_value" name, h) in
    subst (λ n. contains ("field_type" ∷ "name" ∷ []) n ≡ false) same refl

-- The text conflicts, so the type does not apply either.
value_union_rule-Together_example :
    Together
      (("text_value", "x") ∷ ("field_type", "text") ∷ ("name", "Size") ∷ [])
      ("text_value" ∷ [], "field_type" ∷ "name" ∷ [])
      ("text_value" ∷ "field_type" ∷ [], "name" ∷ [])
unfolding value_union_rule distinct
value_union_rule-Together_example =
    value_union_rule-Together outside
      (("text_value", "x") ∷ ("field_type", "text") ∷ ("name", "Size") ∷ []) ("text_value" ∷ [])
      ("field_type" ∷ "name" ∷ []) (λ names. Perm.refl names) only_text
