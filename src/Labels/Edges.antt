-- ===== src/Labels/Edges.antt =====
-- The labels on an item: server/internal/storage/item_labels.go, with the statements of
-- queries/item_labels.sql and the constraints of the table `item_labels`.
use household_objects_srv.Prelude.{
  ℕ, ◌+◌, String, str_eq, Bool, ◌&&◌, ◌||◌, not, Option, none, some, [], ◌∷◌, ◌++◌, if◌then◌else◌,
  Result, ok, err, ◌>>=◌, ◌>>◌, ◌==◌, select, length, find?, update_where,
}
use household_objects_srv.Push.Types.{
  ItemLabelRow, Store, PushError, not_found, row_lost, constraint_failed, invalid_params,
}
use household_objects_srv.Push.Storage.{is_some, alloc_change_seq}
use household_objects_srv.Push.Items.{get_item}
use household_objects_srv.Labels.{get_label}

pub record AttachLabelParams : Type 0 where
  pub id : String
  pub item_id : String
  pub label_id : String
  pub now : ℕ

abbrev pub edge_is : String → String → String → ItemLabelRow → Bool
edge_is group item label r =
    str_eq r.group_id group && (str_eq r.item_id item && str_eq r.label_id label)

-- The WHERE clause of `GetItemLabel`, and of `DeleteItemLabel`.
abbrev pub live_edge : String → String → String → ItemLabelRow → Bool
live_edge group item label r = edge_is group item label r && not (is_some r.deleted_at)

-- The WHERE clause of `ReviveItemLabel`.
abbrev pub dead_edge : String → String → String → ItemLabelRow → Bool
dead_edge group item label r = edge_is group item label r && is_some r.deleted_at

unfoldable pub get_item_label : Store → String → String → String → Option ItemLabelRow
get_item_label s group item label = find? (live_edge group item label) s.item_labels

abbrev pub revived : ℕ → ℕ → ItemLabelRow → ItemLabelRow
revived now seq r = record r {
  deleted_at = none;
  updated_at = now;
  version = r.version + 1;
  change_seq = seq;
}

abbrev pub new_edge : String → AttachLabelParams → ℕ → ItemLabelRow
new_edge group p seq = record {
  id = p.id;
  group_id = group;
  item_id = p.item_id;
  label_id = p.label_id;
  created_at = p.now;
  updated_at = p.now;
  version = 1;
  deleted_at = none;
  change_seq = seq;
}

-- The INSERT, with the primary key; the item and the label are there, and no live edge is.
unfoldable pub insert_edge : Store → ItemLabelRow → Result PushError Store
insert_edge s row =
    if is_some (find? (λ (r : ItemLabelRow). str_eq r.id row.id) s.item_labels)
    then err constraint_failed
    else ok (record s { item_labels = s.item_labels ++ row ∷ [] })

-- `ReviveItemLabel`, and the INSERT where it matched no row. The unique index on live edges refuses a
-- second row.
unfoldable pub revive_or_insert : Store → String → AttachLabelParams → ℕ → Result PushError Store
revive_or_insert s group p seq =
    let rows = length (select (dead_edge group p.item_id p.label_id) s.item_labels) in
    if rows == 0
    then insert_edge s (new_edge group p seq)
    else if rows == 1
    then ok (record s {
      item_labels =
          update_where (dead_edge group p.item_id p.label_id) (revived p.now seq) s.item_labels;
    })
    else err constraint_failed

unfoldable pub reread_edge : Option ItemLabelRow → Store → Result PushError (ItemLabelRow × Store)
reread_edge none s = err row_lost
reread_edge (some row) s = ok (row, s)

-- What `attachItemLabelTx` does once it knows whether the item has the label.
unfoldable pub attach_edge :
    Store
    → String
    → AttachLabelParams
    → Option ItemLabelRow
    → Result PushError (ItemLabelRow × Store)
unfolding reread_edge
attach_edge s group p (some existing) = ok (existing, s)
attach_edge s group p none = do
  (seq, s) ← alloc_change_seq s group
  s ← revive_or_insert s group p seq
  reread_edge (get_item_label s group p.item_id p.label_id) s

abbrev pub found : {A : Type 0} → Option A → Result PushError (Unit {0})
found none = err not_found
found (some a) = ok tt

-- `attachItemLabelTx`
unfoldable pub attach_item_label :
    Store → String → AttachLabelParams → Result PushError (ItemLabelRow × Store)
attach_item_label s group p = do
  found (get_item s group p.item_id)
  found (get_label s group p.label_id)
  attach_edge s group p (get_item_label s group p.item_id p.label_id)

abbrev pub buried_edge : ℕ → ℕ → ItemLabelRow → ItemLabelRow
buried_edge now seq r = record r {
  deleted_at = some now;
  updated_at = now;
  version = r.version + 1;
  change_seq = seq;
}

-- `detachItemLabelTx`
unfoldable pub detach_item_label : Store → String → String → String → ℕ → Result PushError Store
detach_item_label s group item label now = do
  (seq, s) ← alloc_change_seq s group
  let rows = length (select (live_edge group item label) s.item_labels) in
      if rows == 0
      then err not_found
      else if rows == 1
      then ok (record s {
        item_labels = update_where (live_edge group item label) (buried_edge now seq) s.item_labels;
      })
      else err row_lost

-- `AttachLabelParams.validate`
unfoldable pub validate_attach : AttachLabelParams → Result PushError (Unit {0})
validate_attach p =
    if str_eq p.id "" || (str_eq p.item_id "" || (str_eq p.label_id "" || p.now == 0))
    then err invalid_params
    else ok tt

-- `itemLabelRepository.Attach`
unfoldable pub attach : Store → String → AttachLabelParams → Result PushError Store
attach s group p = do validate_attach p; (row, s) ← attach_item_label s group p; ok s

-- `itemLabelRepository.Detach`
unfoldable pub detach : Store → String → String → String → ℕ → Result PushError Store
detach s group item label now =
    if str_eq item "" || (str_eq label "" || now == 0)
    then err invalid_params
    else detach_item_label s group item label now
