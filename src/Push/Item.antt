-- ===== src/Push/Item.antt =====
-- `pushItem` of server/internal/storage/push_commit.go.
pub mod Keeps
pub mod Values
pub mod Merged
pub mod NoLostUpdate
use household_objects_srv.Prelude.{
  ℕ, zero, suc, ◌+◌, String, str_eq, ℤ, pos, pos_part, Bool, true, false, Option, none, some, List,
  [], ◌∷◌, ◌++◌, if◌then◌else◌, Result, ok, err, ◌>>=◌, ◌>>◌, ◌==◌, find?,
}
use household_objects_srv.Push.Types.{
  ItemRow, Store, PushMutation, PushOutcome, Outside, PushError, not_found, warranty_exists,
  sale_exists, purchase_exists, label_name_conflict, location_parent_not_found, location_cycle,
  no_short_code,
}
use household_objects_srv.Push.Storage.{is_some, null_string, record_field_versions}
use household_objects_srv.Push.Items.{
  CreateItemParams, UpdateItemParams, Created, taken, created, get_item, create_item, update_item,
}
use household_objects_srv.Push.Merge.{
  entity_field, contains, field_names, require_known_fields, decode_string, decode_int64, or_zero,
  merge_string, merge_int64, merge_policy, snapshot_values, string_from_null, diff_item_fields,
}

-- An outcome that names conflicts and has written nothing.
abbrev pub conflict_outcome : List String → List (String × String) → PushOutcome
conflict_outcome conflict snapshots = record {
  skipped = false;
  applied = false;
  entity_type = "";
  entity_id = "";
  version = 0;
  conflict_fields = conflict;
  field_snapshots = snapshots;
}

-- `pushClassifyEntityError`
abbrev pub classify_entity_error : PushError → Option PushOutcome
classify_entity_error not_found = some (conflict_outcome ("item_id" ∷ []) [])
classify_entity_error warranty_exists = some (conflict_outcome (entity_field ∷ []) [])
classify_entity_error sale_exists = some (conflict_outcome (entity_field ∷ []) [])
classify_entity_error purchase_exists = some (conflict_outcome (entity_field ∷ []) [])
classify_entity_error label_name_conflict = some (conflict_outcome ("name" ∷ []) [])
classify_entity_error location_parent_not_found = some (conflict_outcome ("parent_id" ∷ []) [])
classify_entity_error location_cycle = some (conflict_outcome ("parent_id" ∷ []) [])
classify_entity_error _ = none

abbrev pub item_fields : List String
item_fields = "name" ∷ "description" ∷ "location_id" ∷ "quantity" ∷ []

-- `maxImportShortCodeAttempts`
abbrev max_short_code_attempts : ℕ
max_short_code_attempts = 10

-- The loop over short codes: `left` attempts are left, and `attempt` have been made.
unfoldable pub create_attempts :
    Outside → Store → String → CreateItemParams → ℕ → ℕ → Result PushError (PushOutcome × Store)
create_attempts out s group p zero attempt = ok (conflict_outcome ("short_code" ∷ []) [], s)
create_attempts out s group p (suc left) attempt = elim (out.short_code attempt) [
  | none ↦ err no_short_code
  | some code ↦ elim (create_item s group (record p { short_code = code })) [
    | err e ↦ err e
    | ok (taken, s') ↦ create_attempts out s' group p left (suc attempt)
    | ok (created row, s') ↦ ok (
      record {
        skipped = false;
        applied = true;
        entity_type = "";
        entity_id = row.id;
        version = row.version;
        conflict_fields = [];
        field_snapshots = [];
      },
      s',
    )
  ]
]

unfoldable pub push_new_item :
    Outside → Store → String → PushMutation → Result PushError (PushOutcome × Store)
push_new_item out s group m =
    if is_some (find? (λ r. str_eq r.id m.entity_id) s.items)
    then ok (conflict_outcome (entity_field ∷ []) [], s)
    else (do
      name ← decode_string out m.fields "name"
      description ← decode_string out m.fields "description"
      location_id ← decode_string out m.fields "location_id"
      quantity ← decode_int64 out m.fields "quantity"
      create_attempts out s group
          (record {
            id = m.entity_id;
            name = or_zero "" name;
            description = or_zero "" description;
            location_id = or_zero "" location_id;
            quantity = or_zero (pos 0) quantity;
            short_code = "";
            now = pos_part m.now;
          })
          max_short_code_attempts 0)

-- What the version check leaves to do: the fields that may be written, and the conflicts.
pub record Plan : Type 0 where
  pub allow : String → Bool
  pub conflict : List String
  pub snapshots : List (String × String)

abbrev server_values : Outside → ItemRow → String → Option String
server_values out current name =
    if str_eq name "name"
    then some (out.quote_string current.name)
    else if str_eq name "description"
    then some (out.quote_string current.description)
    else if str_eq name "location_id"
    then some (out.quote_string (string_from_null current.location_id))
    else if str_eq name "quantity"
    then some (out.quote_int64 current.quantity)
    else none

-- What follows `updateItemTx`: a classified error is a conflict, and a written row has the fields
-- that it changed recorded at its new version.
unfoldable pub finish_item :
    Store
    → PushMutation
    → String
    → ItemRow
    → Plan
    → Result PushError (ItemRow × Store)
    → Result PushError (PushOutcome × Store)
finish_item s m group current plan (err e) = elim (classify_entity_error e) [
  | none ↦ err e
  | some outcome ↦
      ok (record outcome { conflict_fields = outcome.conflict_fields ++ plan.conflict }, s)
]
finish_item s m group current plan (ok (updated, s')) = ok (
  record {
    skipped = false;
    applied = true;
    entity_type = "";
    entity_id = "";
    version = updated.version;
    conflict_fields = plan.conflict;
    field_snapshots = plan.snapshots;
  },
  record s' {
    field_versions =
        record_field_versions group "item" updated.id updated.version (pos_part m.now)
          (diff_item_fields current updated) s'.field_versions;
  },
)

abbrev merged_params : PushMutation → ItemRow → String → String → String → ℤ → UpdateItemParams
merged_params m current name description location_id quantity = record {
  item_id = m.entity_id;
  name = name;
  description = description;
  location_id = location_id;
  quantity = quantity;
  expected_version = current.version;
  now = pos_part m.now;
}

-- The merge of the four fields, the update, and the record of what it changed.
unfoldable pub write_merged :
    Outside
    → Store
    → String
    → PushMutation
    → ItemRow
    → Plan
    → Result PushError (PushOutcome × Store)
write_merged out s group m current plan = do
  name ← merge_string out m.fields "name" plan.allow current.name
  description ← merge_string out m.fields "description" plan.allow current.description
  location_id ←
      merge_string out m.fields "location_id" plan.allow (string_from_null current.location_id)
  quantity ← merge_int64 out m.fields "quantity" plan.allow current.quantity
  finish_item s m group current plan
      (update_item s group (merged_params m current name description location_id quantity))

-- What the policy leaves to do: nothing is written where no field applies.
unfoldable pub push_fields :
    Outside
    → Store
    → String
    → PushMutation
    → ItemRow
    → List String
    → List String
    → Result PushError (PushOutcome × Store)
push_fields out s group m current conflict [] =
    ok (conflict_outcome conflict (snapshot_values conflict (server_values out current)), s)
push_fields out s group m current conflict (x ∷ xs) = write_merged out s group m current (record {
  allow = contains (x ∷ xs);
  conflict = conflict;
  snapshots = snapshot_values conflict (server_values out current);
})

unfoldable pub push_existing_item :
    Outside → Store → String → PushMutation → ItemRow → Result PushError (PushOutcome × Store)
push_existing_item out s group m current =
    if current.version == pos_part m.base_version
    then write_merged out s group m current
        (record { allow = λ name. true; conflict = []; snapshots = [] })
    else (let (conflict, apply) =
          merge_policy s group m.entity_type m.entity_id (pos_part m.base_version)
            (field_names out m.fields) in
        push_fields out s group m current conflict apply)

unfoldable pub push_item :
    Outside → Store → String → PushMutation → Result PushError (PushOutcome × Store)
push_item out s group m = do
  require_known_fields m.fields item_fields
  if pos_part m.base_version == 0
      then push_new_item out s group m
      else elim (get_item s group m.entity_id) [
        | none ↦ ok (conflict_outcome (entity_field ∷ []) [], s)
        | some current ↦ push_existing_item out s group m current
      ]
