-- ===== src/Stock/Adjusted.antt =====
-- What `createStockAdjustmentTx` of server/internal/storage/stock_adjustments.go does to the quantity.
use household_objects_srv.Prelude.{
  ℕ, ℤ, add64, String, str_eq, eq_iff, ◌≡◌, refl, sym, ap, ◌∙◌, true, false, Option, none, some,
  List, [], ◌∷◌, ◌++◌, inl, inr, arith, Option-cases, ok, >>=-eq-ok, ok-injective, find?,
  find?-true, find?-update_where, update_where,
}
use household_objects_srv.Push.Types.{ItemRow, StockAdjustmentRow, Store}
use household_objects_srv.Push.Storage.{is_some, alloc_change_seq}
use household_objects_srv.Push.Items.{item_is, get_item}
use household_objects_srv.Push.Entity.{KeepsLogs, KeepsLogs-trans, alloc_change_seq-KeepsLogs}
use household_objects_srv.Stock.{
  CreateStockAdjustmentParams, new_adjustment, insert_adjustment, adjusted, adjust_item,
  adjustment_is, get_adjustment, reread_adjustment, adjust_found, create_adjustment,
}

alloc_change_seq-stock :
    (s : Store) (group : String) (seq : ℕ) (s' : Store)
    → alloc_change_seq s group ≡ ok (seq, s')
    → (s'.items ≡ s.items) × (s'.stock_adjustments ≡ s.stock_adjustments)
unfolding alloc_change_seq
alloc_change_seq-stock s group seq s' h = ground arith

insert_adjustment-rows :
    (s : Store) (row : StockAdjustmentRow) (s' : Store)
    → insert_adjustment s row ≡ ok s'
    → (s' ≡ record s { stock_adjustments = s.stock_adjustments ++ row ∷ [] })
      × (is_some (find? (λ (r : StockAdjustmentRow). str_eq r.id row.id) s.stock_adjustments)
          ≡ false)
unfolding insert_adjustment
insert_adjustment-rows s row s' h = (ground arith, ground arith)

adjust_item-rows :
    (s : Store) (group : String) (p : CreateStockAdjustmentParams) (quantity : ℤ) (seq : ℕ)
    (s' : Store)
    → adjust_item s group p quantity seq ≡ ok s'
    → s' ≡ record s {
      items = update_where (item_is group p.item_id) (adjusted quantity p.now seq) s.items;
    }
unfolding adjust_item
adjust_item-rows s group p quantity seq s' h = ground arith

reread_adjustment-same :
    (o : Option StockAdjustmentRow) (s : Store) (r : StockAdjustmentRow) (s' : Store)
    → reread_adjustment o s ≡ ok (r, s')
    → (o ≡ some r) × (s' ≡ s)
unfolding reread_adjustment
reread_adjustment-same none s r s' h = cc
reread_adjustment-same (some x) s r s' h =
    let (same, same') = ok-injective h in (ap some same, sym same')

-- The rows that are found in a table with a new row of an unused id.
find?-new :
    (group item id : String) (rows : List StockAdjustmentRow) (new : StockAdjustmentRow)
    → is_some (find? (λ (r : StockAdjustmentRow). str_eq r.id id) rows) ≡ false
    → adjustment_is group item id new ≡ true
    → find? (adjustment_is group item id) (rows ++ new ∷ []) ≡ some new
find?-new group item id [] new h k = ground arith
find?-new group item id (r ∷ rows) new h k = ground (arith, find?-new group item id rows new)

some-injective : {A : Type 0} (a b : A) → some a ≡ some b → a ≡ b
some-injective a b h = cc

-- What a successful adjustment has done: the item's quantity, and the row that tells of it.
pub record Adjusts (s : Store) (group : String) (p : CreateStockAdjustmentParams)
    (r : StockAdjustmentRow) (s' : Store) : Type 0 where
  pub before : ItemRow
  pub seq : ℕ
  pub found : get_item s group p.item_id ≡ some before
  pub after :
      get_item s' group p.item_id ≡ some (adjusted (add64 before.quantity p.delta) p.now seq before)
  pub row : r ≡ new_adjustment group p (add64 before.quantity p.delta) seq
  pub items :
      s'.items
      ≡ update_where
          (item_is group p.item_id)
          (adjusted (add64 before.quantity p.delta) p.now seq)
          s.items
  pub rows : s'.stock_adjustments ≡ s.stock_adjustments ++ r ∷ []
  pub keeps : KeepsLogs s s'

adjust_found-Adjusts :
    (s : Store) (group : String) (p : CreateStockAdjustmentParams) (item : ItemRow)
    (r : StockAdjustmentRow) (s' : Store)
    → get_item s group p.item_id ≡ some item
    → adjust_found s group p item ≡ ok (r, s')
    → Adjusts s group p r s'
unfolding adjust_found get_item get_adjustment
adjust_found-Adjusts s group p item r s' found h =
    let quantity = add64 item.quantity p.delta in
    let ((seq, s₁), allocated, rest₁) = >>=-eq-ok (alloc_change_seq s group) _ h in
    let (s₂, inserted, rest₂) =
      >>=-eq-ok (insert_adjustment s₁ (new_adjustment group p quantity seq)) _ rest₁ in
    let (s₃, updated, last) = >>=-eq-ok (adjust_item s₂ group p quantity seq) _ rest₂ in
    let (items, history) = alloc_change_seq-stock s group seq s₁ allocated in
    let (same₂, unused) =
      insert_adjustment-rows s₁ (new_adjustment group p quantity seq) s₂ inserted in
    let same₃ = adjust_item-rows s₂ group p quantity seq s₃ updated in
    let (read, same) = reread_adjustment-same _ s₃ r s' last in
    let new = new_adjustment group p quantity seq in
    let unwritten =
      ap (λ (s : Store). s.stock_adjustments) same₃
      ∙ ap (λ (s : Store). s.stock_adjustments) same₂ in
    let written =
      ap (λ (s : Store). s.items) same₃
      ∙ ap
          (λ (s : Store).
            update_where (item_is group p.item_id) (adjusted quantity p.now seq) s.items)
          same₂
      ∙ ap (update_where (item_is group p.item_id) (adjusted quantity p.now seq)) items in
    let is_item = find?-true (item_is group p.item_id) s.items item found in
    let self : (str_eq group group ≡ true)
        × (str_eq p.item_id p.item_id ≡ true)
        × (str_eq p.id p.id ≡ true) =
      (
        (eq_iff group group).1 refl,
        (eq_iff p.item_id p.item_id).1 refl,
        (eq_iff p.id p.id).1 refl,
      ) in
    let is_new : adjustment_is group p.item_id p.id new ≡ true =
      ground (arith, self.0, self.1, self.2) in
    let there =
      ap (find? (adjustment_is group p.item_id p.id)) unwritten
      ∙ find?-new group p.item_id p.id s₁.stock_adjustments new unused is_new in
    let row = some-injective r new (sym read ∙ there) in
    rw same (record {
      before = item;
      seq = seq;
      found = found;
      after =
          ap (find? (item_is group p.item_id)) written
          ∙ find?-update_where (item_is group p.item_id) (item_is group p.item_id)
              (adjusted quantity p.now seq) s.items item (λ x q. q) found is_item is_item;
      row = row;
      items = written;
      rows =
          unwritten
          ∙ ap (λ rows. rows ++ new ∷ []) history
          ∙ ap (λ x. s.stock_adjustments ++ x ∷ []) (sym row);
      keeps = KeepsLogs-trans s s₁ s₃ (alloc_change_seq-KeepsLogs s group seq s₁ allocated) (
        ap (λ (s : Store). s.mutations) same₃ ∙ ap (λ (s : Store). s.mutations) same₂,
        ap (λ (s : Store). s.conflicts) same₃ ∙ ap (λ (s : Store). s.conflicts) same₂,
      );
    })

-- An adjustment that returns no error gives the item's quantity the delta, on 64 bits, and the item its
-- next version; the row that it returns and appends to the history holds the delta and the quantity that
-- the item has afterwards.
pub create_adjustment-Adjusts :
    (s : Store) (group : String) (p : CreateStockAdjustmentParams) (r : StockAdjustmentRow)
    (s' : Store)
    → create_adjustment s group p ≡ ok (r, s')
    → Adjusts s group p r s'
unfolding create_adjustment
create_adjustment-Adjusts s group p r s' h = elim (Option-cases (get_item s group p.item_id)) [
  | inl e ↦ absurd (ground (arith, rw (e, create_adjustment) at h))
  | inr (item, e) ↦ adjust_found-Adjusts s group p item r s' e (rw (e, create_adjustment) at h)
]
