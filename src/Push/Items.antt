-- ===== src/Push/Items.antt =====
-- `createItemTx` and `updateItemTx` of server/internal/storage/items.go, with the statements of
-- queries/items.sql and the constraints of the table `items`.
pub mod Effects
pub mod Sequence
pub mod Fresh
pub mod Pulled
use household_objects_srv.Prelude.{
  ℕ, suc, ◌+◌, String, str_eq, ℤ, Bool, true, false, ◌&&◌, ◌||◌, not, Option, none, some, List, [],
  ◌∷◌, ◌++◌, if◌then◌else◌, Result, ok, err, ◌>>=◌, ◌==◌, select, length, find?, update_where,
}
use household_objects_srv.Push.Types.{
  LocationRow, ItemRow, Store, PushError, not_found, version_mismatch, row_lost, constraint_failed,
}
use household_objects_srv.Push.Storage.{is_some, null_string, alloc_change_seq}

pub record CreateItemParams : Type 0 where
  pub id : String
  pub name : String
  pub description : String
  pub location_id : String
  pub quantity : ℤ
  pub short_code : String
  pub now : ℕ

pub record UpdateItemParams : Type 0 where
  pub item_id : String
  pub name : String
  pub description : String
  pub location_id : String
  pub quantity : ℤ
  pub expected_version : ℕ
  pub now : ℕ

abbrev pub lives : ItemRow → Bool
lives r = not (is_some r.deleted_at)

-- The WHERE clause of `GetItem`.
abbrev pub item_is : String → String → ItemRow → Bool
item_is group id r = str_eq r.group_id group && str_eq r.id id && lives r

unfoldable pub get_item : Store → String → String → Option ItemRow
get_item s group id = find? (item_is group id) s.items

-- The foreign key from (group_id, location_id) to `locations`; NULL refers to nothing.
abbrev pub location_exists : Store → String → Option String → Bool
location_exists s group none = true
location_exists s group (some location) =
    is_some (find? (λ r. str_eq r.group_id group && str_eq r.id location) s.locations)

-- `ErrShortCodeTaken` does not end the transaction, so it is a value beside the created row.
pub data Created : Type 0 where
  taken : Created
  created : ItemRow → Created

abbrev new_item : String → CreateItemParams → ℕ → ItemRow
new_item group p seq = record {
  id = p.id;
  group_id = group;
  name = p.name;
  description = p.description;
  location_id = null_string p.location_id;
  quantity = p.quantity;
  short_code = p.short_code;
  created_at = p.now;
  updated_at = p.now;
  version = 1;
  deleted_at = none;
  change_seq = seq;
}

abbrev same_code : String → String → ItemRow → Bool
same_code group code r = str_eq r.group_id group && str_eq r.short_code code && lives r

unfoldable pub read_back : Option ItemRow → Store → Result PushError (Created × Store)
read_back none s = err row_lost
read_back (some row) s = ok (created row, s)

-- `createItemTx`: the primary key, then the unique index on live short codes, then the foreign key.
unfoldable pub create_item : Store → String → CreateItemParams → Result PushError (Created × Store)
unfolding read_back get_item
create_item s group p = do
  (seq, s) ← alloc_change_seq s group
  if is_some (find? (λ r. str_eq r.id p.id) s.items)
      then err constraint_failed
      else if is_some (find? (same_code group p.short_code) s.items)
      then ok (taken, s)
      else if location_exists s group (null_string p.location_id)
      then (let s' = record s { items = s.items ++ new_item group p seq ∷ [] } in
          read_back (get_item s' group p.id) s')
      else err constraint_failed

abbrev pub updated_item : UpdateItemParams → ℕ → ItemRow → ItemRow
updated_item p seq r = record r {
  name = p.name;
  description = p.description;
  location_id = null_string p.location_id;
  quantity = p.quantity;
  updated_at = p.now;
  version = r.version + 1;
  change_seq = seq;
}

-- The WHERE clause of `UpdateItem`.
abbrev pub item_version_is : String → String → ℕ → ItemRow → Bool
item_version_is group id version r = item_is group id r && (r.version == version)

unfoldable pub reread : Option ItemRow → Store → Result PushError (ItemRow × Store)
reread none s = err row_lost
reread (some row) s = ok (row, s)

-- The UPDATE of `updateItemTx`, and what it does with the number of rows.
unfoldable pub write_item :
    Store → String → UpdateItemParams → ℕ → Result PushError (ItemRow × Store)
unfolding reread get_item
write_item s group p seq =
    if location_exists s group (null_string p.location_id)
    then (if length (select (item_version_is group p.item_id p.expected_version) s.items) == 1
        then (let s' = record s {
          items =
              update_where (item_version_is group p.item_id p.expected_version) (updated_item p seq)
                s.items;
        } in
            reread (get_item s' group p.item_id) s')
        else err row_lost)
    else err constraint_failed

unfoldable pub update_found :
    Store → String → UpdateItemParams → ItemRow → Result PushError (ItemRow × Store)
unfolding write_item
update_found s group p current =
    if current.version == p.expected_version
    then (do (seq, s) ← alloc_change_seq s group; write_item s group p seq)
    else err version_mismatch

-- `updateItemTx`
unfoldable pub update_item : Store → String → UpdateItemParams → Result PushError (ItemRow × Store)
unfolding update_found get_item
update_item s group p = elim (get_item s group p.item_id) [
  | none ↦ err not_found
  | some current ↦ update_found s group p current
]
