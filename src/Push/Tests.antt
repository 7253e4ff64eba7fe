-- ===== src/Push/Tests.antt =====
-- A household with one item and two clients: the theorems about pushes at concrete mutations, and
-- runs of the code.
pub mod Batch
pub mod Entities
mod Pulled
use mathlib.Core.Path.{subst}
use mathlib.Core.List.Perm as Perm
use household_objects_srv.Prelude.{
  ℕ, ◌≤◌, String, str_eq, pos, ◌≡◌, refl, ◌⊎◌, true, false, none, some, [], ◌∷◌, arith,
  if◌then◌else◌, ok, err, ◌==◌,
}
use household_objects_srv.Push.Types.{
  ItemRow, LedgerOutcome, FieldVersionRow, Store, PushMutation, PushOutcome, Outside, not_found,
  unknown_field,
}
use household_objects_srv.Push.Storage.{
  alloc_change_seq, lookup_ledger, insert_ledger, lookup_field_versions, upsert_field_version,
  record_field_versions, insert_conflict,
}
use household_objects_srv.Push.Items.{
  CreateItemParams, UpdateItemParams, created, create_item, read_back, reread, get_item,
  update_item, update_found, write_item,
}
use household_objects_srv.Push.Merge.{
  require_known_fields, decode_string, decode_int64, merge_string, merge_int64, tracked_version,
  split_fields, merge_policy, snapshot_values, diff_item_fields,
}
use household_objects_srv.Prelude.{select}
use household_objects_srv.Push.Storage.{version_key}
use household_objects_srv.Push.Merge.Recorded.{record_field_versions-tracked}
use household_objects_srv.Push.Item.{
  push_item, push_existing_item, push_fields, write_merged, finish_item,
}
use household_objects_srv.Push.Item.Keeps.{push_item-Safe, push_item-Sequenced}
use household_objects_srv.Push.Items.Sequence.{
  counter, Sequenced, Advances, create_item-Advances, update_item-Advances,
}
use household_objects_srv.Push.Item.Merged.{Refused}
use household_objects_srv.Push.Item.NoLostUpdate.{Updates, push_item-no_lost_update}
use household_objects_srv.Push.Apply.{
  Handler, Handlers, apply_mutation, apply_in_tx, apply_new, choose_handler, validate,
  record_outcome, record_conflicts, minted,
}
use household_objects_srv.Push.Apply.Ledger.{
  KeepsLog, HandlersKeepLog, Applied, apply_mutation-Applied,
}
use household_objects_srv.Push.Batch.{
  PushResult, mutation_error, push, push_from, finish_push, watermark, add_outcome, empty_result,
}
use household_objects_srv.Push.Batch.Replay.{push_again, push_resumes}

-- Raw values stand for themselves, and the n-th UUID of a mutation has its number.
abbrev outside : String → String → Outside
outside first second = record {
  json_string = λ raw. some raw;
  json_int64 = λ raw. none;
  json_bool = λ raw. some (str_eq raw "true");
  json_float64 = λ raw. none;
  quote_string = λ s. s;
  quote_int64 = λ n. "number";
  quote_bool = λ b. if b then "true" else "false";
  quote_float64 = λ n. "number";
  float_eq = λ a b. a == b;
  sort_strings = λ names. names;
  short_code = λ n. some "C0DE";
  uuid = λ n. if n == 0 then some first else some second;
}

abbrev field : String → ℕ → FieldVersionRow
field name version = record {
  group_id = "g";
  entity_type = "item";
  entity_id = "i";
  field_name = name;
  version = version;
  updated_at = 50;
}

abbrev drill : ItemRow
drill = record {
  id = "i";
  group_id = "g";
  name = "Drill";
  description = "old";
  location_id = none;
  quantity = pos 1;
  short_code = "AAAA";
  created_at = 10;
  updated_at = 50;
  version = 3;
  deleted_at = none;
  change_seq = 5;
}

-- The name was changed in version 3.
abbrev before : Store
before = record {
  groups = record { id = "g"; change_seq_counter = 5; deleted_at = none } ∷ [];
  locations = [];
  items = drill ∷ [];
  labels = [];
  item_labels = [];
  stock_adjustments = [];
  warranties = [];
  sales = [];
  purchases = [];
  identifications = [];
  custom_fields = [];
  custom_field_defs = [];
  mutations = [];
  field_versions = field "name" 3 ∷ [];
  conflicts = [];
}

-- A client that knows version 2 changes the name and the description.
abbrev edit : PushMutation
edit = record {
  mutation_id = "m1";
  entity_type = "item";
  entity_id = "i";
  base_version = pos 2;
  fields = ("description", "new") ∷ ("name", "Saw") ∷ [];
  now = pos 100;
  op = "";
}

abbrev edited : ItemRow
edited = record drill { description = "new"; updated_at = 100; version = 4; change_seq = 6 }

abbrev described : FieldVersionRow
described = record {
  group_id = "g";
  entity_type = "item";
  entity_id = "i";
  field_name = "description";
  version = 4;
  updated_at = 100;
}

abbrev after_edit : Store
after_edit = record before {
  groups = record { id = "g"; change_seq_counter = 6; deleted_at = none } ∷ [];
  items = edited ∷ [];
  field_versions = field "name" 3 ∷ described ∷ [];
}

abbrev edit_outcome : PushOutcome
edit_outcome = record {
  skipped = false;
  applied = true;
  entity_type = "";
  entity_id = "";
  version = 4;
  conflict_fields = "name" ∷ [];
  field_snapshots = ("name", "Drill") ∷ [];
}

-- The name keeps the value that it got in version 3, and the description takes the client's.
edit_run : push_item (outside "u0" "u1") before "g" edit ≡ ok (edit_outcome, after_edit)
unfolding push_item push_existing_item push_fields write_merged finish_item require_known_fields
    get_item merge_policy split_fields lookup_field_versions tracked_version snapshot_values
    merge_string merge_int64 decode_string decode_int64 update_item update_found alloc_change_seq
    write_item record_field_versions upsert_field_version diff_item_fields
edit_run = refl

push_item-no_lost_update_example :
    Refused edit_outcome before after_edit
    ⊎ ((edit_outcome.applied ≡ true)
        × Updates (outside "u0" "u1") "g" edit drill before edit_outcome after_edit)
unfolding get_item
push_item-no_lost_update_example =
    push_item-no_lost_update (outside "u0" "u1") before "g" edit drill edit_outcome after_edit
      (λ names. Perm.refl names) refl refl edit_run

before-Sequenced : Sequenced before "g"
before-Sequenced = ((λ mine. omega arith), tt)

push_item-Sequenced_example :
    (counter before "g" ≤ counter after_edit "g") × Sequenced after_edit "g"
push_item-Sequenced_example =
    push_item-Sequenced (outside "u0" "u1") before "g" edit edit_outcome after_edit before-Sequenced
      edit_run

abbrev saw : CreateItemParams
saw = record {
  id = "j";
  name = "Saw";
  description = "";
  location_id = "";
  quantity = pos 1;
  short_code = "BBBB";
  now = 100;
}

abbrev saw_row : ItemRow
saw_row = record drill {
  id = "j";
  name = "Saw";
  description = "";
  short_code = "BBBB";
  created_at = 100;
  updated_at = 100;
  version = 1;
  change_seq = 6;
}

abbrev after_create : Store
after_create = record before {
  groups = record { id = "g"; change_seq_counter = 6; deleted_at = none } ∷ [];
  items = drill ∷ saw_row ∷ [];
}

create_run : create_item before "g" saw ≡ ok (created saw_row, after_create)
unfolding create_item alloc_change_seq read_back get_item
create_run = refl

abbrev rename : UpdateItemParams
rename = record {
  item_id = "i";
  name = "Drill";
  description = "new";
  location_id = "";
  quantity = pos 1;
  expected_version = 3;
  now = 100;
}

abbrev after_rename : Store
after_rename = record after_edit { field_versions = before.field_versions }

rename_run : update_item before "g" rename ≡ ok (edited, after_rename)
unfolding update_item update_found alloc_change_seq write_item get_item reread
rename_run = refl

update_item-Advances_example :
    Advances before "g" after_rename × (edited.change_seq ≡ counter after_rename "g")
update_item-Advances_example =
    update_item-Advances before "g" rename edited after_rename before-Sequenced rename_run

record_field_versions-tracked_example :
    tracked_version
      (select
        (version_key "g" "item" "i")
        (record_field_versions "g" "item" "i" 4 100 ("name" ∷ []) (field "name" 3 ∷ [])))
      "name"
    ≡ some 4
record_field_versions-tracked_example =
    record_field_versions-tracked "g" "item" "i" 4 100 ("name" ∷ []) (field "name" 3 ∷ []) "name"
