-- ===== src/Locations/Removal.antt =====
-- `Delete` of the location repository in server/internal/storage/locations.go: what a location holds is
-- moved to another place first, or the deletion is refused.
use household_objects_srv.Prelude.{
  ℕ, ◌+◌, String, str_eq, Bool, false, ◌&&◌, ◌||◌, not, Option, none, some, if◌then◌else◌, Result,
  ok, err, ◌>>=◌, ◌>>◌, ◌==◌, ltb, select, length, update_where,
}
use household_objects_srv.Push.Types.{
  LocationRow, ItemRow, Store, PushError, not_found, row_lost, constraint_failed,
  location_not_empty, reassign_target, invalid_params,
}
use household_objects_srv.Push.Storage.{is_some, null_string, alloc_change_seq}
use household_objects_srv.Push.Items.{location_exists}
use household_objects_srv.Locations.{
  DeleteLocationParams, location_is, get_location, check_parent, location_move_creates_cycle,
  refuse_cycle,
}

-- `DeleteLocationParams.validate`
unfoldable pub validate_delete : DeleteLocationParams → Result PushError (Unit {0})
validate_delete p =
    if str_eq p.location_id "" || (p.now == 0 || (not p.reassign && not (str_eq p.reassign_to "")))
    then err invalid_params
    else ok tt

abbrev pub refers : Option String → String → Bool
refers none id = false
refers (some parent) id = str_eq parent id

-- The WHERE clauses of `CountLiveChildLocations` and `CountLiveItemsInLocation`.
abbrev pub live_child : String → String → LocationRow → Bool
live_child group id r =
    str_eq r.group_id group && (refers r.parent_id id && not (is_some r.deleted_at))

abbrev pub live_item_in : String → String → ItemRow → Bool
live_item_in group id r =
    str_eq r.group_id group && (refers r.location_id id && not (is_some r.deleted_at))

abbrev pub reparented : Option String → ℕ → ℕ → LocationRow → LocationRow
reparented target now seq r = record r {
  parent_id = target;
  updated_at = now;
  version = r.version + 1;
  change_seq = seq;
}

abbrev pub moved_item : Option String → ℕ → ℕ → ItemRow → ItemRow
moved_item target now seq r = record r {
  location_id = target;
  updated_at = now;
  version = r.version + 1;
  change_seq = seq;
}

abbrev pub buried : ℕ → ℕ → LocationRow → LocationRow
buried now seq r = record r {
  deleted_at = some now;
  updated_at = now;
  version = r.version + 1;
  change_seq = seq;
}

-- Without a reassignment nothing may be left in the location.
unfoldable pub check_empty : Store → String → DeleteLocationParams → Result PushError (Unit {0})
check_empty s group p =
    let children = length (select (live_child group p.location_id) s.locations) in
    let items = length (select (live_item_in group p.location_id) s.items) in
    if not p.reassign && (ltb 0 children || ltb 0 items)
    then err (location_not_empty children items)
    else ok tt

-- A target that is named must be live, and outside of the location's subtree.
unfoldable pub check_target : Store → String → DeleteLocationParams → Result PushError (Unit {0})
check_target s group p =
    if p.reassign && not (str_eq p.reassign_to "")
    then (do
      check_parent s group p.reassign_to
      refuse_cycle reassign_target
          (location_move_creates_cycle s group p.location_id p.reassign_to))
    else ok tt

-- `ReparentLiveChildren` and `MoveLiveItemsToLocation`. Each statement moves the rows that were counted
-- before, in the same transaction, so that the source's two comparisons of counts hold.
unfoldable pub move_contents : Store → String → DeleteLocationParams → ℕ → Result PushError Store
move_contents s group p seq =
    if p.reassign
    then (if location_exists s group (null_string p.reassign_to)
        then ok (record s {
          locations =
              update_where (live_child group p.location_id)
                (reparented (null_string p.reassign_to) p.now seq) s.locations;
          items =
              update_where (live_item_in group p.location_id)
                (moved_item (null_string p.reassign_to) p.now seq) s.items;
        })
        else err constraint_failed)
    else ok s

-- `DeleteLocation`, and what follows from the number of rows.
unfoldable pub bury : Store → String → DeleteLocationParams → ℕ → Result PushError Store
bury s group p seq =
    let rows = length (select (location_is group p.location_id) s.locations) in
    if rows == 0
    then err not_found
    else if rows == 1
    then ok (record s {
      locations = update_where (location_is group p.location_id) (buried p.now seq) s.locations;
    })
    else err row_lost

unfoldable pub delete_location_found :
    Store → String → DeleteLocationParams → Result PushError Store
delete_location_found s group p = do
  check_empty s group p
  check_target s group p
  (seq, s) ← alloc_change_seq s group
  s ← move_contents s group p seq
  bury s group p seq

-- `locationRepository.Delete`
unfoldable pub delete_location : Store → String → DeleteLocationParams → Result PushError Store
delete_location s group p = do
  validate_delete p
  elim (get_location s group p.location_id) [
    | none ↦ err not_found
    | some row ↦ delete_location_found s group p
  ]
