-- ===== src/Locations/Repository.antt =====
-- `Get`, `Create` and `Update` of the location repository in server/internal/storage/locations.go.
use household_objects_srv.Prelude.{
  String, str_eq, ◌||◌, Option, none, some, if◌then◌else◌, Result, ok, err, ◌>>=◌, ◌>>◌, ◌==◌,
}
use household_objects_srv.Push.Types.{
  LocationRow, Store, PushError, not_found, row_lost, invalid_params,
}
use household_objects_srv.Push.Storage.{record_field_versions}
use household_objects_srv.Locations.{
  CreateLocationParams, UpdateLocationParams, get_location, create_location, update_location,
  diff_location_fields,
}

-- `CreateLocationParams.validate`
unfoldable pub validate_create : CreateLocationParams → Result PushError (Unit {0})
validate_create p =
    if str_eq p.id "" || (str_eq p.name "" || p.now == 0) then err invalid_params else ok tt

-- `UpdateLocationParams.validate`
unfoldable pub validate_update : UpdateLocationParams → Result PushError (Unit {0})
validate_update p =
    if str_eq p.location_id "" || (str_eq p.name "" || (p.expected_version == 0 || p.now == 0))
    then err invalid_params
    else ok tt

unfoldable pub read : Store → String → String → Result PushError LocationRow
read s group id = elim (get_location s group id) [ none ↦ err not_found | some row ↦ ok row ]

unfoldable pub create :
    Store → String → CreateLocationParams → Result PushError (LocationRow × Store)
create s group p = do validate_create p; create_location s group p

-- The versions of the fields that differ between the row that was read first and the updated one.
unfoldable pub record_update :
    Option LocationRow
    → String
    → UpdateLocationParams
    → LocationRow
    → Store
    → Result PushError (LocationRow × Store)
record_update none group p row s = err row_lost
record_update (some before) group p row s = ok (
  row,
  record s {
    field_versions =
        record_field_versions group "location" row.id row.version p.now
          (diff_location_fields before row) s.field_versions;
  },
)

unfoldable pub update :
    Store → String → UpdateLocationParams → Result PushError (LocationRow × Store)
unfolding record_update
update s group p = do
  validate_update p
  (row, s') ← update_location s group p
  record_update (get_location s group p.location_id) group p row s'
