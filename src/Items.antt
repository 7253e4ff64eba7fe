-- ===== src/Items.antt =====
-- The items of a household: the repository of server/internal/storage/items.go over createItemTx and
-- updateItemTx, which are in Push.Items. `Delete` takes with an item what hangs on it.
pub mod Removal
use household_objects_srv.Prelude.{
  ℕ, ◌+◌, String, str_eq, true, false, Bool, ◌&&◌, ◌||◌, not, Option, none, some, List, ◌++◌,
  if◌then◌else◌, Result, ok, err, ◌>>=◌, ◌>>◌, ◌==◌, select, length, find?, update_where,
}
use household_objects_srv.Push.Types.{
  ItemRow, ItemLabelRow, Store, PushError, not_found, row_lost, invalid_params,
}
use household_objects_srv.Push.Storage.{is_some, alloc_change_seq, record_field_versions}
use household_objects_srv.Push.Items.{
  CreateItemParams, UpdateItemParams, Created, lives, item_is, get_item, create_item, update_item,
}
use household_objects_srv.Push.Merge.{diff_item_fields}
use household_objects_srv.Labels.Edges.{buried_edge}
use household_objects_srv.Parts.{Table, buried_part}
use household_objects_srv.Parts.Alone.{live_part}
use household_objects_srv.Parts.Warranty.{warranty_table}
use household_objects_srv.Parts.Sale.{sale_table}
use household_objects_srv.Parts.Purchase.{purchase_table}
use household_objects_srv.Parts.Identification.{identification_table}
use household_objects_srv.Parts.CustomField.{custom_field_table}

-- The WHERE clause of `GetItemByShortCode`.
abbrev coded : String → String → ItemRow → Bool
coded group code r = str_eq r.group_id group && (str_eq r.short_code code && lives r)

-- `GetByShortCode`
unfoldable pub get_by_short_code : Store → String → String → Option ItemRow
get_by_short_code s group code = find? (coded group code) s.items

-- `CreateItemParams.validate` and `UpdateItemParams.validate`
abbrev valid_new_item : CreateItemParams → Bool
valid_new_item p =
    not (str_eq p.id "")
    && (not (str_eq p.name "") && (not (str_eq p.short_code "") && not (p.now == 0)))

abbrev valid_item_update : UpdateItemParams → Bool
valid_item_update p =
    not (str_eq p.item_id "")
    && (not (str_eq p.name "") && (not (p.expected_version == 0) && not (p.now == 0)))

-- `Create`; that the short code is taken is its own error, which the result `taken` stands for.
unfoldable pub create : Store → String → CreateItemParams → Result PushError (Created × Store)
create s group p = if valid_new_item p then create_item s group p else err invalid_params

-- `Update`: the versions of the changed fields are recorded.
unfoldable pub update : Store → String → UpdateItemParams → Result PushError (ItemRow × Store)
update s group p =
    if valid_item_update p
    then (do
      (row, s') ← update_item s group p
      elim (get_item s group p.item_id) [
        | none ↦ err not_found
        | some before ↦ ok (
          row,
          record s' {
            field_versions =
                record_field_versions group "item" row.id row.version p.now
                  (diff_item_fields before row) s'.field_versions;
          },
        )
      ])
    else err invalid_params

abbrev pub buried_item : ℕ → ℕ → ItemRow → ItemRow
buried_item now seq r = record r {
  deleted_at = some now;
  updated_at = now;
  version = r.version + 1;
  change_seq = seq;
}

-- The live rows of one table that hang on the item are marked.
abbrev pub bury_parts : {P V : Type 0} → Table P V → String → String → ℕ → ℕ → Store → Store
bury_parts t group item now seq s =
    t.put s (update_where (live_part group item) (buried_part t now seq) (t.rows s))

-- The WHERE clause of `CascadeDeleteItemLabels`.
abbrev pub live_edge_of : String → String → ItemLabelRow → Bool
live_edge_of group item r =
    str_eq r.group_id group && (str_eq r.item_id item && not (is_some r.deleted_at))

abbrev pub bury_edges : String → String → ℕ → ℕ → Store → Store
bury_edges group item now seq s = record s {
  item_labels = update_where (live_edge_of group item) (buried_edge now seq) s.item_labels;
}

-- The six statements that follow the UPDATE of the item, in their order.
unfoldable pub cascade : String → String → ℕ → ℕ → Store → Store
cascade group item now seq s =
    let s₁ = bury_parts warranty_table group item now seq s in
    let s₂ = bury_parts sale_table group item now seq s₁ in
    let s₃ = bury_parts purchase_table group item now seq s₂ in
    let s₄ = bury_parts identification_table group item now seq s₃ in
    let s₅ = bury_parts custom_field_table group item now seq s₄ in bury_edges group item now seq s₅

-- `Delete`
unfoldable pub delete : Store → String → String → ℕ → Result PushError Store
unfolding cascade
delete s group item now = if str_eq item "" || now == 0 then err invalid_params else (do
  (seq, s) ← alloc_change_seq s group
  let rows = length (select (item_is group item) s.items) in
      if rows == 0
      then err not_found
      else if rows == 1
      then ok (
          cascade group item now seq
            (record s { items = update_where (item_is group item) (buried_item now seq) s.items }))
      else err row_lost)
