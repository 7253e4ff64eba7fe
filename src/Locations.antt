-- ===== src/Locations.antt =====
-- The location tree of a household: server/internal/storage/locations.go, with the statements of
-- queries/locations.sql and the constraints of the table `locations`.
pub mod Removal
pub mod Rooted
pub mod Walk
pub mod Relocate
pub mod Tree
pub mod Keeps
pub mod Created
pub mod Removed
pub mod Repository
pub mod Descent
pub mod Searched
pub mod Descended
pub mod Tests
use household_objects_srv.Prelude.{
  ℕ, zero, suc, ◌+◌, String, str_eq, Bool, true, false, ◌&&◌, ◌||◌, not, Option, none, some, List,
  [], ◌∷◌, ◌++◌, if◌then◌else◌, Result, ok, err, ◌>>=◌, ◌>>◌, ◌==◌, ltb, select, length, find?,
  update_where,
}
use household_objects_srv.Push.Types.{
  LocationRow, ItemRow, Store, PushError, not_found, version_mismatch, row_lost, constraint_failed,
  location_parent_not_found, location_cycle, location_not_empty, reassign_target, endless_walk,
  invalid_params,
}
use household_objects_srv.Push.Storage.{
  is_some, null_string, alloc_change_seq, record_field_versions,
}
use household_objects_srv.Push.Items.{location_exists}
use household_objects_srv.Push.Merge.{null_eq, unless}

pub record CreateLocationParams : Type 0 where
  pub id : String
  pub name : String
  pub parent_id : String
  pub now : ℕ

pub record UpdateLocationParams : Type 0 where
  pub location_id : String
  pub name : String
  pub parent_id : String
  pub expected_version : ℕ
  pub now : ℕ

pub record DeleteLocationParams : Type 0 where
  pub location_id : String
  pub reassign : Bool
  pub reassign_to : String
  pub now : ℕ

-- The WHERE clause of `GetLocation`.
abbrev pub location_is : String → String → LocationRow → Bool
location_is group id r = str_eq r.group_id group && (str_eq r.id id && not (is_some r.deleted_at))

unfoldable pub get_location : Store → String → String → Option LocationRow
get_location s group id = find? (location_is group id) s.locations

-- A parent that is named must be a live location of the household.
unfoldable pub check_parent : Store → String → String → Result PushError (Unit {0})
check_parent s group parent =
    if str_eq parent "" then ok tt else elim (get_location s group parent) [
      | none ↦ err location_parent_not_found
      | some row ↦ ok tt
    ]

abbrev pub new_location : String → CreateLocationParams → ℕ → LocationRow
new_location group p seq = record {
  id = p.id;
  group_id = group;
  name = p.name;
  parent_id = null_string p.parent_id;
  created_at = p.now;
  updated_at = p.now;
  version = 1;
  deleted_at = none;
  change_seq = seq;
}

unfoldable pub reread_location : Option LocationRow → Store → Result PushError (LocationRow × Store)
reread_location none s = err row_lost
reread_location (some row) s = ok (row, s)

-- The INSERT: the primary key, then the foreign key, which the new row itself may satisfy.
unfoldable pub insert_location : Store → String → LocationRow → Result PushError Store
insert_location s group row =
    let s' = record s { locations = s.locations ++ row ∷ [] } in
    if is_some (find? (λ (r : LocationRow). str_eq r.id row.id) s.locations)
    then err constraint_failed
    else if location_exists s' group row.parent_id
    then ok s'
    else err location_parent_not_found

-- `createLocationTx`
unfoldable pub create_location :
    Store → String → CreateLocationParams → Result PushError (LocationRow × Store)
unfolding reread_location
create_location s group p = do
  check_parent s group p.parent_id
  (seq, s) ← alloc_change_seq s group
  s ← insert_location s group (new_location group p seq)
  reread_location (get_location s group p.id) s

-- `ListLocationParentEdges`: the rows of the household, deleted ones too.
abbrev pub edges : Store → String → List LocationRow
edges s group = select (λ (r : LocationRow). str_eq r.group_id group) s.locations

-- The map `parentOf`: a later row of the query overwrites an earlier one.
unfoldable pub parent_of : List LocationRow → String → Option String
parent_of [] id = none
parent_of (r ∷ rows) id = elim (parent_of rows id) [
  | some parent ↦ some parent
  | none ↦ if str_eq r.id id then r.parent_id else none
]

-- The walk to the root, with so many steps left.
unfoldable pub walk : (String → Option String) → String → ℕ → String → Result PushError Bool
walk parent moving zero current = err endless_walk
walk parent moving (suc steps) current =
    if str_eq current moving
    then ok true
    else elim (parent current) [ none ↦ ok false | some next ↦ walk parent moving steps next ]

-- `locationMoveCreatesCycle`: the loop runs for `i` from 0 to the number of edges.
unfoldable pub location_move_creates_cycle :
    Store → String → String → String → Result PushError Bool
unfolding walk
location_move_creates_cycle s group moving candidate =
    walk (parent_of (edges s group)) moving (length (edges s group) + 1) candidate

-- Fails with the given error if the walk from the target meets the location.
unfoldable pub refuse_cycle : PushError → Result PushError Bool → Result PushError (Unit {0})
refuse_cycle e (err x) = err x
refuse_cycle e (ok true) = err e
refuse_cycle e (ok false) = ok tt

-- The checks of a new parent, where one is named.
unfoldable pub check_move : Store → String → String → String → Result PushError (Unit {0})
check_move s group moving parent = if str_eq parent "" then ok tt else (do
  check_parent s group parent
  refuse_cycle location_cycle (location_move_creates_cycle s group moving parent))

abbrev pub updated_location : UpdateLocationParams → ℕ → LocationRow → LocationRow
updated_location p seq r = record r {
  name = p.name;
  parent_id = null_string p.parent_id;
  updated_at = p.now;
  version = r.version + 1;
  change_seq = seq;
}

-- The WHERE clause of `UpdateLocation`.
abbrev pub location_version_is : String → String → ℕ → LocationRow → Bool
location_version_is group id version r = location_is group id r && (r.version == version)

-- The UPDATE of `updateLocationTx`, and what it does with the number of rows.
unfoldable pub write_location :
    Store → String → UpdateLocationParams → ℕ → Result PushError (LocationRow × Store)
unfolding reread_location
write_location s group p seq =
    if location_exists s group (null_string p.parent_id)
    then (if length
            (select (location_version_is group p.location_id p.expected_version) s.locations)
          == 1
        then (let s' = record s {
          locations =
              update_where (location_version_is group p.location_id p.expected_version)
                (updated_location p seq) s.locations;
        } in
            reread_location (get_location s' group p.location_id) s')
        else err row_lost)
    else err location_parent_not_found

unfoldable pub update_location_found :
    Store → String → UpdateLocationParams → LocationRow → Result PushError (LocationRow × Store)
update_location_found s group p current =
    if current.version == p.expected_version
    then (do
      check_move s group p.location_id p.parent_id
      (seq, s) ← alloc_change_seq s group
      write_location s group p seq)
    else err version_mismatch

-- `updateLocationTx`
unfoldable pub update_location :
    Store → String → UpdateLocationParams → Result PushError (LocationRow × Store)
update_location s group p = elim (get_location s group p.location_id) [
  | none ↦ err not_found
  | some current ↦ update_location_found s group p current
]

-- `diffLocationFieldVersions`
unfoldable pub diff_location_fields : LocationRow → LocationRow → List String
diff_location_fields before after =
    unless (str_eq before.name after.name) "name"
      (unless (null_eq before.parent_id after.parent_id) "parent_id" [])
