-- ===== src/Push/Merge.antt =====
-- Field-level merging, in server/internal/storage/push_commit.go: which fields of a stale mutation
-- conflict, what their values become, and what the conflict log says of them.
pub mod Split
pub mod Recorded
pub mod Nullable
use household_objects_srv.Prelude.{
  ℕ, zero, suc, ◌+◌, String, str_eq, ℤ, ℤ_eq, Bool, true, false, ◌&&◌, ◌||◌, not, Option, none,
  some, List, [], ◌∷◌, ◌++◌, map, if◌then◌else◌, Result, ok, err, ◌>>=◌, ◌>>◌, ltb, select, find?,
}
use household_objects_srv.Push.Types.{
  ItemRow, FieldVersionRow, Store, Outside, PushError, unknown_field, missing_field,
  invalid_field_value,
}
use household_objects_srv.Push.Storage.{lookup_field_versions}

-- `entityConflictField`
abbrev pub entity_field : String
entity_field = "_entity"

abbrev pub contains : List String → String → Bool
contains [] name = false
contains (x ∷ xs) name = str_eq x name || contains xs name

-- `fields[name]`
abbrev pub raw_field : List (String × String) → String → Option String
raw_field [] name = none
raw_field ((k, v) ∷ fields) name = if str_eq k name then some v else raw_field fields name

abbrev keys_of : List (String × String) → List String
keys_of [] = []
keys_of ((k, v) ∷ fields) = k ∷ keys_of fields

-- `pushFieldNames`
abbrev pub field_names : Outside → List (String × String) → List String
field_names out fields = out.sort_strings (keys_of fields)

-- `pushRequireKnownFields`: one unknown name is reported.
unfoldable pub require_known_fields :
    List (String × String) → List String → Result PushError (Unit {0})
require_known_fields [] allowed = ok tt
require_known_fields ((k, v) ∷ fields) allowed =
    if contains allowed k then require_known_fields fields allowed else err (unknown_field k)

-- `pushRequireField`
unfoldable pub require_field : List (String × String) → String → Result PushError (Unit {0})
require_field fields name = elim (raw_field fields name) [
  | none ↦ err (missing_field name)
  | some raw ↦ ok tt
]

-- `pushDecodeString` and `pushDecodeInt64`; `none` is `present == false`.
abbrev pub decoded : {A : Type 0} → String → Option A → Result PushError (Option A)
decoded name none = err (invalid_field_value name)
decoded name (some v) = ok (some v)

unfoldable pub decode_string :
    Outside → List (String × String) → String → Result PushError (Option String)
decode_string out fields name = elim (raw_field fields name) [
  | none ↦ ok none
  | some raw ↦ decoded name (out.json_string raw)
]

unfoldable pub decode_int64 :
    Outside → List (String × String) → String → Result PushError (Option ℤ)
decode_int64 out fields name = elim (raw_field fields name) [
  | none ↦ ok none
  | some raw ↦ decoded name (out.json_int64 raw)
]

-- The zero value that Go leaves where a field is absent.
abbrev pub or_zero : {A : Type 0} → A → Option A → A
or_zero d none = d
or_zero d (some v) = v

-- `pushMergeString` and `pushMergeInt64`
unfoldable pub merge_string :
    Outside → List (String × String) → String → (String → Bool) → String → Result PushError String
merge_string out fields name allow current =
    if allow name
    then (do v ← decode_string out fields name; ok (or_zero current v))
    else ok current

unfoldable pub merge_int64 :
    Outside → List (String × String) → String → (String → Bool) → ℤ → Result PushError ℤ
merge_int64 out fields name allow current =
    if allow name then (do v ← decode_int64 out fields name; ok (or_zero current v)) else ok current

-- The map `versions` of the policy: a later row of the query overwrites an earlier one.
unfoldable pub tracked_version : List FieldVersionRow → String → Option ℕ
tracked_version [] name = none
tracked_version (row ∷ rows) name = elim (tracked_version rows name) [
  | some v ↦ some v
  | none ↦ if str_eq row.field_name name then some row.version else none
]

-- An absent row stands for version 1.
abbrev pub field_version : List FieldVersionRow → String → ℕ
field_version rows name = or_zero 1 (tracked_version rows name)

-- The loop of `pushFieldLevelMergePolicy`: the names in conflict, and those that apply.
unfoldable pub split_fields : List FieldVersionRow → ℕ → List String → List String × List String
split_fields rows base [] = ([], [])
split_fields rows base (name ∷ names) =
    let (conflict, apply) = split_fields rows base names in
    if ltb base (field_version rows name)
    then (name ∷ conflict, apply)
    else (conflict, name ∷ apply)

-- `pushFieldLevelMergePolicy`
unfoldable pub merge_policy :
    Store → String → String → String → ℕ → List String → List String × List String
merge_policy s group entity_type entity_id base names =
    split_fields (lookup_field_versions s group entity_type entity_id) base names

-- `pushSnapshotServerValues`: the JSON of the server's value, for each conflict that has one.
unfoldable pub snapshot_values : List String → (String → Option String) → List (String × String)
snapshot_values [] values = []
snapshot_values (name ∷ conflict) values =
    let rest = snapshot_values conflict values in
    elim (values name) [ none ↦ rest | some v ↦ (name, v) ∷ rest ]

-- `stringFromNull`
abbrev pub string_from_null : Option String → String
string_from_null none = ""
string_from_null (some s) = s

abbrev pub null_eq : Option String → Option String → Bool
null_eq none none = true
null_eq (some a) (some b) = str_eq a b
null_eq _ _ = false

abbrev pub unless : Bool → String → List String → List String
unless true name rest = rest
unless false name rest = name ∷ rest

-- `diffItemFieldVersions`
unfoldable pub diff_item_fields : ItemRow → ItemRow → List String
diff_item_fields before after = unless (str_eq before.name after.name) "name" (
    unless (str_eq before.description after.description) "description" (
      unless (null_eq before.location_id after.location_id) "location_id"
        (unless (ℤ_eq before.quantity after.quantity) "quantity" [])))
