-- ===== src/Parts/CustomField.antt =====
-- The custom fields of an item: server/internal/storage/item_custom_fields.go, and what
-- `pushItemCustomField` of server/internal/storage/push_commit.go knows of them.
pub mod ValueUnion
use household_objects_srv.Prelude.{
  ℕ, String, str_eq, true, false, Bool, not, ◌&&◌, ◌||◌, Option, none, some, List, [], ◌∷◌,
  if◌then◌else◌, Result, ok, ◌>>=◌, find?,
}
use household_objects_srv.Push.Rows.{PartRow, CustomField, CustomFieldDefRow}
use household_objects_srv.Push.Types.{Store, PushMutation, PushOutcome, Outside, PushError}
use household_objects_srv.Push.Storage.{is_some, null_string}
use household_objects_srv.Push.Merge.{
  contains, or_zero, decode_string, merge_string, string_from_null, null_eq, unless,
}
use household_objects_srv.Push.Merge.Nullable.{
  decode_nullable_string, decode_nullable_float64, decode_nullable_bool, merge_nullable_string,
  merge_nullable_float64, merge_nullable_bool,
}
use household_objects_srv.Parts.{
  Table, many, CreatePartParams, UpdatePartParams, create_part, update_part, delete_part, create,
  update,
}
use household_objects_srv.Parts.Push.{Pushed, push_part}
use ValueUnion.{value_union_rule}

-- The fields of `CreateItemCustomFieldParams` and `UpdateItemCustomFieldParams` besides the ids, the
-- version and the time. A nil pointer is `none`.
pub record CustomFieldParams : Type 0 where
  pub field_def_id : String
  pub name : String
  pub field_type : String
  pub text_value : Option String
  pub number_value : Option ℕ
  pub bool_value : Option Bool
  pub date_value : Option String

abbrev pub custom_field_columns : CustomFieldParams → CustomField
custom_field_columns p = record {
  field_def_id = null_string p.field_def_id;
  name = p.name;
  field_type = p.field_type;
  text_value = p.text_value;
  number_value = p.number_value;
  bool_value = p.bool_value;
  date_value = p.date_value;
}

-- The CHECK on `field_type`.
abbrev pub field_types : List String
field_types = "text" ∷ "number" ∷ "boolean" ∷ "date" ∷ []

-- The foreign key to `custom_field_defs`, which does not look at `deleted_at`.
abbrev pub has_def : Store → String → Option String → Bool
has_def s group none = true
has_def s group (some id) = is_some (
    find? (λ (r : CustomFieldDefRow). str_eq r.group_id group && str_eq r.id id)
      s.custom_field_defs)

abbrev pub option_eq : {A : Type 0} → (A → A → Bool) → Option A → Option A → Bool
option_eq same none none = true
option_eq same (some a) (some b) = same a b
option_eq same _ _ = false

abbrev bool_eq : Bool → Bool → Bool
bool_eq a b = (a && b) || (not a && not b)

-- `diffItemCustomFieldFieldVersions`
unfoldable pub diff_custom_field_fields : Outside → CustomField → CustomField → List String
diff_custom_field_fields out before after =
    unless (null_eq before.field_def_id after.field_def_id) "field_def_id" (
      unless (str_eq before.name after.name) "name" (
        unless (str_eq before.field_type after.field_type) "field_type" (
          unless (null_eq before.text_value after.text_value) "text_value" (
            unless (option_eq out.float_eq before.number_value after.number_value) "number_value" (
              unless (option_eq bool_eq before.bool_value after.bool_value) "bool_value"
                (unless (null_eq before.date_value after.date_value) "date_value" []))))))

abbrev pub custom_field_table : Table CustomFieldParams CustomField
custom_field_table = record {
  name = "item_custom_field";
  count = many;
  rows = λ s. s.custom_fields;
  put = λ s rows. record s { custom_fields = rows };
  columns = custom_field_columns;
  admits = λ s group v. contains field_types v.field_type && has_def s group v.field_def_id;
  valid = λ p. not (str_eq p.name "") && not (str_eq p.field_type "");
  diff = diff_custom_field_fields;
}

-- `pushCustomFieldCreateFields`, and `pushCustomFieldUpdateFields`, which are the same.
abbrev custom_field_fields : List String
custom_field_fields =
    "item_id" ∷ "field_def_id" ∷ "name" ∷ "field_type" ∷ "text_value" ∷ "number_value"
    ∷ "bool_value" ∷ "date_value" ∷ []

unfoldable pub decode_custom_field :
    Outside → List (String × String) → Result PushError CustomFieldParams
decode_custom_field out fields = do
  field_def_id ← decode_string out fields "field_def_id"
  name ← decode_string out fields "name"
  field_type ← decode_string out fields "field_type"
  text_value ← decode_nullable_string out fields "text_value"
  number_value ← decode_nullable_float64 out fields "number_value"
  bool_value ← decode_nullable_bool out fields "bool_value"
  date_value ← decode_nullable_string out fields "date_value"
  ok (record {
    field_def_id = or_zero "" field_def_id;
    name = or_zero "" name;
    field_type = or_zero "" field_type;
    text_value = or_zero none text_value;
    number_value = or_zero none number_value;
    bool_value = or_zero none bool_value;
    date_value = or_zero none date_value;
  })

unfoldable pub merged_custom_field :
    Outside
    → List (String × String)
    → (String → Bool)
    → CustomField
    → Result PushError CustomFieldParams
merged_custom_field out fields allow current = do
  field_def_id ←
      merge_string out fields "field_def_id" allow (string_from_null current.field_def_id)
  name ← merge_string out fields "name" allow current.name
  field_type ← merge_string out fields "field_type" allow current.field_type
  text_value ← merge_nullable_string out fields "text_value" allow current.text_value
  number_value ← merge_nullable_float64 out fields "number_value" allow current.number_value
  bool_value ← merge_nullable_bool out fields "bool_value" allow current.bool_value
  date_value ← merge_nullable_string out fields "date_value" allow current.date_value
  ok (record {
    field_def_id = field_def_id;
    name = name;
    field_type = field_type;
    text_value = text_value;
    number_value = number_value;
    bool_value = bool_value;
    date_value = date_value;
  })

-- `pushSnapshotJSON` of a pointer.
abbrev quote_nullable : {A : Type 0} → (A → String) → Option A → String
quote_nullable quote none = "null"
quote_nullable quote (some v) = quote v

-- The values that the conflict log shows.
abbrev pub shown_custom_field : Outside → CustomField → String → Option String
shown_custom_field out current name =
    if str_eq name "field_def_id"
    then some (out.quote_string (string_from_null current.field_def_id))
    else if str_eq name "name"
    then some (out.quote_string current.name)
    else if str_eq name "field_type"
    then some (out.quote_string current.field_type)
    else if str_eq name "text_value"
    then some (quote_nullable out.quote_string current.text_value)
    else if str_eq name "number_value"
    then some (quote_nullable out.quote_float64 current.number_value)
    else if str_eq name "bool_value"
    then some (quote_nullable out.quote_bool current.bool_value)
    else if str_eq name "date_value"
    then some (quote_nullable out.quote_string current.date_value)
    else none

abbrev pub pushed_custom_field : Pushed CustomFieldParams CustomField
pushed_custom_field = record {
  table = custom_field_table;
  fields = custom_field_fields;
  decode = decode_custom_field;
  merged = merged_custom_field;
  shown = shown_custom_field;
  adjust = value_union_rule;
}

abbrev pub create_custom_field :
    Store
    → String
    → CreatePartParams CustomFieldParams
    → Result PushError (PartRow CustomField × Store)
create_custom_field s group p = create_part custom_field_table s group p

abbrev pub update_custom_field :
    Store
    → String
    → UpdatePartParams CustomFieldParams
    → Result PushError (PartRow CustomField × Store)
update_custom_field s group p = update_part custom_field_table s group p

-- `itemCustomFieldRepository.Create`, `Update` and `Delete`
abbrev pub create_recorded_custom_field :
    Store
    → String
    → CreatePartParams CustomFieldParams
    → Result PushError (PartRow CustomField × Store)
create_recorded_custom_field s group p = create custom_field_table s group p

abbrev pub update_recorded_custom_field :
    Outside
    → Store
    → String
    → UpdatePartParams CustomFieldParams
    → Result PushError (PartRow CustomField × Store)
update_recorded_custom_field out s group p = update custom_field_table out s group p

abbrev pub delete_custom_field : Store → String → String → String → ℕ → Result PushError Store
delete_custom_field s group item id now = delete_part custom_field_table s group item id now

unfoldable pub push_item_custom_field :
    Outside → Store → String → PushMutation → Result PushError (PushOutcome × Store)
unfolding push_part
push_item_custom_field out s group m = push_part pushed_custom_field out s group m
