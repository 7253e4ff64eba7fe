-- ===== src/Labels.antt =====
-- The labels of a household: server/internal/storage/labels.go, with the statements of
-- queries/labels.sql and the constraints of the table `labels`.
pub mod Clash
pub mod Distinct
pub mod Edges
pub mod Attached
pub mod Reattached
pub mod Tests
use household_objects_srv.Prelude.{
  ℕ, ◌+◌, String, str_eq, true, false, Bool, ◌&&◌, ◌||◌, not, Option, none, some, List, [], ◌∷◌,
  ◌++◌, if◌then◌else◌, Result, ok, err, ◌>>=◌, ◌>>◌, ◌==◌, select, length, find?, update_where,
}
use household_objects_srv.Push.Types.{
  LabelRow, Store, PushError, not_found, version_mismatch, row_lost, constraint_failed,
  label_name_conflict, invalid_params,
}
use household_objects_srv.Push.Storage.{is_some, alloc_change_seq, record_field_versions}
use household_objects_srv.Push.Merge.{unless}

pub record CreateLabelParams : Type 0 where
  pub id : String
  pub name : String
  pub color : String
  pub now : ℕ

pub record UpdateLabelParams : Type 0 where
  pub id : String
  pub name : String
  pub color : String
  pub expected_version : ℕ
  pub now : ℕ

-- The WHERE clause of `GetLabel`.
abbrev pub label_is : String → String → LabelRow → Bool
label_is group id r = str_eq r.group_id group && (str_eq r.id id && not (is_some r.deleted_at))

-- The WHERE clause of `GetLabelByName`.
abbrev pub label_named : String → String → LabelRow → Bool
label_named group name r =
    str_eq r.group_id group && (str_eq r.name name && not (is_some r.deleted_at))

unfoldable pub get_label : Store → String → String → Option LabelRow
get_label s group id = find? (label_is group id) s.labels

unfoldable pub get_label_by_name : Store → String → String → Option LabelRow
get_label_by_name s group name = find? (label_named group name) s.labels

abbrev pub new_label : String → CreateLabelParams → ℕ → LabelRow
new_label group p seq = record {
  id = p.id;
  group_id = group;
  name = p.name;
  color = p.color;
  created_at = p.now;
  updated_at = p.now;
  version = 1;
  deleted_at = none;
  change_seq = seq;
}

unfoldable pub reread_label : Option LabelRow → Store → Result PushError (LabelRow × Store)
reread_label none s = err row_lost
reread_label (some row) s = ok (row, s)

-- The INSERT, with the primary key.
unfoldable pub insert_label : Store → LabelRow → Result PushError Store
insert_label s row =
    if is_some (find? (λ (r : LabelRow). str_eq r.id row.id) s.labels)
    then err constraint_failed
    else ok (record s { labels = s.labels ++ row ∷ [] })

-- No live label of the household may have the name, but one with this id.
unfoldable pub check_name : Option LabelRow → Option String → Result PushError (Unit {0})
check_name none id = ok tt
check_name (some conflict) none = err label_name_conflict
check_name (some conflict) (some id) =
    if str_eq conflict.id id then ok tt else err label_name_conflict

-- `createLabelTx`
unfoldable pub create_label :
    Store → String → CreateLabelParams → Result PushError (LabelRow × Store)
unfolding reread_label check_name
create_label s group p = do
  check_name (get_label_by_name s group p.name) none
  (seq, s) ← alloc_change_seq s group
  s ← insert_label s (new_label group p seq)
  reread_label (get_label s group p.id) s

abbrev pub updated_label : UpdateLabelParams → ℕ → LabelRow → LabelRow
updated_label p seq r = record r {
  name = p.name;
  color = p.color;
  updated_at = p.now;
  version = r.version + 1;
  change_seq = seq;
}

-- The WHERE clause of `UpdateLabel`.
abbrev pub label_version_is : String → String → ℕ → LabelRow → Bool
label_version_is group id version r = label_is group id r && (r.version == version)

-- The UPDATE of `updateLabelTx`, and what it does with the number of rows.
unfoldable pub write_label :
    Store → String → UpdateLabelParams → ℕ → Result PushError (LabelRow × Store)
unfolding reread_label
write_label s group p seq =
    if length (select (label_version_is group p.id p.expected_version) s.labels) == 1
    then (let s' = record s {
      labels =
          update_where (label_version_is group p.id p.expected_version) (updated_label p seq)
            s.labels;
    } in
        reread_label (get_label s' group p.id) s')
    else err row_lost

unfoldable pub update_label_found :
    Store → String → UpdateLabelParams → LabelRow → Result PushError (LabelRow × Store)
unfolding check_name
update_label_found s group p current =
    if current.version == p.expected_version
    then (do
      check_name (get_label_by_name s group p.name) (some p.id)
      (seq, s) ← alloc_change_seq s group
      write_label s group p seq)
    else err version_mismatch

-- `updateLabelTx`
unfoldable pub update_label :
    Store → String → UpdateLabelParams → Result PushError (LabelRow × Store)
update_label s group p = elim (get_label s group p.id) [
  | none ↦ err not_found
  | some current ↦ update_label_found s group p current
]

abbrev pub buried_label : ℕ → ℕ → LabelRow → LabelRow
buried_label now seq r = record r {
  deleted_at = some now;
  updated_at = now;
  version = r.version + 1;
  change_seq = seq;
}

-- `labelRepository.Delete`
unfoldable pub delete_label : Store → String → String → ℕ → Result PushError Store
delete_label s group id now = if str_eq id "" || now == 0 then err invalid_params else (do
  (seq, s) ← alloc_change_seq s group
  let rows = length (select (label_is group id) s.labels) in
      if rows == 0
      then err not_found
      else if rows == 1
      then ok
          (record s { labels = update_where (label_is group id) (buried_label now seq) s.labels })
      else err row_lost)

-- `diffLabelFieldVersions`
unfoldable pub diff_label_fields : LabelRow → LabelRow → List String
diff_label_fields before after =
    unless (str_eq before.name after.name) "name"
      (unless (str_eq before.color after.color) "color" [])

-- `CreateLabelParams.validate`
unfoldable pub validate_create : CreateLabelParams → Result PushError (Unit {0})
validate_create p =
    if str_eq p.id "" || (str_eq p.name "" || (str_eq p.color "" || p.now == 0))
    then err invalid_params
    else ok tt

-- `UpdateLabelParams.validate`
unfoldable pub validate_update : UpdateLabelParams → Result PushError (Unit {0})
validate_update p =
    if str_eq p.id ""
      || (str_eq p.name "" || (str_eq p.color "" || (p.expected_version == 0 || p.now == 0)))
    then err invalid_params
    else ok tt

-- `labelRepository.Create`
unfoldable pub create : Store → String → CreateLabelParams → Result PushError (LabelRow × Store)
create s group p = do validate_create p; create_label s group p

unfoldable pub record_update :
    Option LabelRow
    → String
    → UpdateLabelParams
    → LabelRow
    → Store
    → Result PushError (LabelRow × Store)
record_update none group p row s = err row_lost
record_update (some before) group p row s = ok (
  row,
  record s {
    field_versions =
        record_field_versions group "label" row.id row.version p.now (diff_label_fields before row)
          s.field_versions;
  },
)

-- `labelRepository.Update`
unfoldable pub update : Store → String → UpdateLabelParams → Result PushError (LabelRow × Store)
unfolding record_update
update s group p = do
  validate_update p
  (row, s') ← update_label s group p
  record_update (get_label s group p.id) group p row s'
