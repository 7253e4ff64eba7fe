-- ===== src/Stock.antt =====
-- The stock adjustments of items: server/internal/storage/stock_adjustments.go, with the statements of
-- queries/stock_adjustments.sql and the constraints of the table `stock_adjustments`.
pub mod Adjusted
pub mod History
pub mod Tests
use household_objects_srv.Prelude.{
  ℕ, ◌+◌, ℤ, add64, String, str_eq, true, false, Bool, ◌&&◌, ◌||◌, not, Option, none, some, List,
  [], ◌∷◌, ◌++◌, if◌then◌else◌, Result, ok, err, ◌>>=◌, ◌>>◌, ◌==◌, select, length, find?,
  update_where,
}
use household_objects_srv.Push.Types.{
  ItemRow, StockAdjustmentRow, Store, PushError, not_found, row_lost, constraint_failed,
  invalid_params,
}
use household_objects_srv.Push.Storage.{is_some, alloc_change_seq, record_field_versions}
use household_objects_srv.Push.Items.{item_is, get_item}
use household_objects_srv.Push.Merge.{diff_item_fields}

pub record CreateStockAdjustmentParams : Type 0 where
  pub id : String
  pub item_id : String
  pub delta : ℤ
  pub reason : String
  pub note : String
  pub now : ℕ

abbrev pub new_adjustment : String → CreateStockAdjustmentParams → ℤ → ℕ → StockAdjustmentRow
new_adjustment group p quantity seq = record {
  id = p.id;
  group_id = group;
  item_id = p.item_id;
  delta = p.delta;
  reason = p.reason;
  note = p.note;
  resulting_quantity = quantity;
  created_at = p.now;
  updated_at = p.now;
  version = 1;
  deleted_at = none;
  change_seq = seq;
}

-- The INSERT, with the primary key; the item is there.
unfoldable pub insert_adjustment : Store → StockAdjustmentRow → Result PushError Store
insert_adjustment s row =
    if is_some (find? (λ (r : StockAdjustmentRow). str_eq r.id row.id) s.stock_adjustments)
    then err constraint_failed
    else ok (record s { stock_adjustments = s.stock_adjustments ++ row ∷ [] })

-- `AdjustItemQuantity`
abbrev pub adjusted : ℤ → ℕ → ℕ → ItemRow → ItemRow
adjusted quantity now seq r = record r {
  quantity = quantity;
  updated_at = now;
  version = r.version + 1;
  change_seq = seq;
}

unfoldable pub adjust_item :
    Store → String → CreateStockAdjustmentParams → ℤ → ℕ → Result PushError Store
adjust_item s group p quantity seq =
    if length (select (item_is group p.item_id) s.items) == 1
    then ok (record s {
      items = update_where (item_is group p.item_id) (adjusted quantity p.now seq) s.items;
    })
    else err row_lost

-- The WHERE clause of `GetStockAdjustment`.
abbrev pub adjustment_is : String → String → String → StockAdjustmentRow → Bool
adjustment_is group item id r =
    str_eq r.group_id group
    && (str_eq r.item_id item && (str_eq r.id id && not (is_some r.deleted_at)))

unfoldable pub get_adjustment : Store → String → String → String → Option StockAdjustmentRow
get_adjustment s group item id = find? (adjustment_is group item id) s.stock_adjustments

unfoldable pub reread_adjustment :
    Option StockAdjustmentRow → Store → Result PushError (StockAdjustmentRow × Store)
reread_adjustment none s = err row_lost
reread_adjustment (some row) s = ok (row, s)

unfoldable pub adjust_found :
    Store
    → String
    → CreateStockAdjustmentParams
    → ItemRow
    → Result PushError (StockAdjustmentRow × Store)
unfolding reread_adjustment
adjust_found s group p item = do
  (seq, s) ← alloc_change_seq s group
  s ← insert_adjustment s (new_adjustment group p (add64 item.quantity p.delta) seq)
  s ← adjust_item s group p (add64 item.quantity p.delta) seq
  reread_adjustment (get_adjustment s group p.item_id p.id) s

-- `createStockAdjustmentTx`
unfoldable pub create_adjustment :
    Store → String → CreateStockAdjustmentParams → Result PushError (StockAdjustmentRow × Store)
create_adjustment s group p = elim (get_item s group p.item_id) [
  | none ↦ err not_found
  | some item ↦ adjust_found s group p item
]

-- The field versions of the item before and after.
unfoldable pub record_adjustment :
    Option ItemRow → Option ItemRow → String → ℕ → Store → Result PushError Store
record_adjustment (some before) (some after) group now s = ok (record s {
  field_versions =
      record_field_versions group "item" after.id after.version now (diff_item_fields before after)
        s.field_versions;
})
record_adjustment _ _ group now s = err row_lost

-- The creation, and the field versions of the item that it changes.
unfoldable pub create_recorded :
    Store → String → CreateStockAdjustmentParams → Result PushError (StockAdjustmentRow × Store)
unfolding record_adjustment
create_recorded s group p = do
  (row, s') ← create_adjustment s group p
  s'' ← record_adjustment (get_item s group p.item_id) (get_item s' group p.item_id) group p.now s'
  ok (row, s'')

-- `CreateStockAdjustmentParams.validate`
unfoldable pub validate : CreateStockAdjustmentParams → Result PushError (Unit {0})
validate p =
    if str_eq p.id "" || (str_eq p.item_id "" || p.now == 0) then err invalid_params else ok tt

-- `stockAdjustmentRepository.Create`
unfoldable pub create :
    Store → String → CreateStockAdjustmentParams → Result PushError (StockAdjustmentRow × Store)
create s group p = do validate p; create_recorded s group p
