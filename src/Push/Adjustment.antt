-- ===== src/Push/Adjustment.antt =====
-- `pushStockAdjustment` of server/internal/storage/push_commit.go.
use household_objects_srv.Prelude.{
  ℕ, pos, String, str_eq, ◌≡◌, refl, inl, inr, arith, Bool-cases, Option, List, [], ◌∷◌,
  if◌then◌else◌, pos_part, Result, ok, err, ◌>>=◌, ◌>>◌, >>=-eq-ok, ok-injective, ◌==◌, find?,
}
use household_objects_srv.Push.Types.{
  ItemRow, StockAdjustmentRow, Store, PushMutation, PushOutcome, Outside, PushError, creation_only,
}
use household_objects_srv.Push.Storage.{is_some}
use household_objects_srv.Push.Items.{get_item}
use household_objects_srv.Push.Merge.{
  entity_field, require_known_fields, require_field, decode_string, decode_int64, or_zero,
}
use household_objects_srv.Push.Item.{conflict_outcome, classify_entity_error}
use household_objects_srv.Push.ItemLabel.{applied_outcome}
use household_objects_srv.Push.Apply.Ledger.{KeepsLog}
use household_objects_srv.Push.Entity.{KeepsLogs, KeepsLogs-trans, conflict_or, conflict_or-same}
use household_objects_srv.Stock.{CreateStockAdjustmentParams, create_adjustment, record_adjustment}
use household_objects_srv.Stock.Adjusted.{create_adjustment-Adjusts}

abbrev adjustment_fields : List String
adjustment_fields = "item_id" ∷ "delta" ∷ "reason" ∷ "note" ∷ []

-- What follows the creation: a classified error comes before the first write.
unfoldable pub finish_adjustment :
    Store
    → String
    → CreateStockAdjustmentParams
    → Result PushError (StockAdjustmentRow × Store)
    → Result PushError (PushOutcome × Store)
finish_adjustment s group p (err e) = conflict_or e [] s (classify_entity_error e)
finish_adjustment s group p (ok (row, s')) = do
  s'' ← record_adjustment (get_item s group p.item_id) (get_item s' group p.item_id) group p.now s'
  ok (applied_outcome row.id row.version, s'')

unfoldable pub push_adjustment :
    Store → String → CreateStockAdjustmentParams → Result PushError (PushOutcome × Store)
push_adjustment s group p = finish_adjustment s group p (create_adjustment s group p)

unfoldable pub push_new_adjustment :
    Outside → Store → String → PushMutation → String → Result PushError (PushOutcome × Store)
push_new_adjustment out s group m item =
    if is_some (find? (λ (r : StockAdjustmentRow). str_eq r.id m.entity_id) s.stock_adjustments)
    then ok (conflict_outcome (entity_field ∷ []) [], s)
    else (do
      delta ← decode_int64 out m.fields "delta"
      reason ← decode_string out m.fields "reason"
      note ← decode_string out m.fields "note"
      push_adjustment s group (record {
        id = m.entity_id;
        item_id = item;
        delta = or_zero (pos 0) delta;
        reason = or_zero "" reason;
        note = or_zero "" note;
        now = pos_part m.now;
      }))

unfoldable pub push_stock_adjustment :
    Outside → Store → String → PushMutation → Result PushError (PushOutcome × Store)
push_stock_adjustment out s group m =
    if pos_part m.base_version == 0
    then (do
      require_known_fields m.fields adjustment_fields
      require_field m.fields "item_id"
      item ← decode_string out m.fields "item_id"
      push_new_adjustment out s group m (or_zero "" item))
    else err (creation_only "stock_adjustment")

record_adjustment-KeepsLogs :
    (before after : Option ItemRow) (group : String) (now : ℕ) (s s' : Store)
    → record_adjustment before after group now s ≡ ok s'
    → KeepsLogs s s'
unfolding record_adjustment
record_adjustment-KeepsLogs before after group now s s' h = ground arith

finish_adjustment-KeepsLogs :
    (s : Store) (group : String) (p : CreateStockAdjustmentParams)
    (r : Result PushError (StockAdjustmentRow × Store)) (o : PushOutcome) (s' : Store)
    → create_adjustment s group p ≡ r
    → finish_adjustment s group p r ≡ ok (o, s')
    → KeepsLogs s s'
unfolding finish_adjustment
finish_adjustment-KeepsLogs s group p (err e) o s' made h =
    rw (conflict_or-same e [] s (classify_entity_error e) o s' h) (refl, refl)
finish_adjustment-KeepsLogs s group p (ok (row, s₁)) o s' made h =
    let (s₂, recorded, last) =
      >>=-eq-ok
        (record_adjustment (get_item s group p.item_id) (get_item s₁ group p.item_id) group p.now
          s₁)
        _ h in
    rw (← (ok-injective last).1) (
      KeepsLogs-trans s s₁ s₂ (create_adjustment-Adjusts s group p row s₁ made).keeps
        (record_adjustment-KeepsLogs _ _ group p.now s₁ s₂ recorded))

push_adjustment-KeepsLogs :
    (s : Store) (group : String) (p : CreateStockAdjustmentParams) (o : PushOutcome) (s' : Store)
    → push_adjustment s group p ≡ ok (o, s')
    → KeepsLogs s s'
unfolding push_adjustment
push_adjustment-KeepsLogs s group p o s' h =
    finish_adjustment-KeepsLogs s group p (create_adjustment s group p) o s' refl h

push_new_adjustment-KeepsLogs :
    (out : Outside) (s : Store) (group : String) (m : PushMutation) (item : String)
    (o : PushOutcome) (s' : Store)
    → push_new_adjustment out s group m item ≡ ok (o, s')
    → KeepsLogs s s'
unfolding push_new_adjustment
push_new_adjustment-KeepsLogs out s group m item o s' h =
    elim (Bool-cases
      (is_some (find? (λ (r : StockAdjustmentRow). str_eq r.id m.entity_id) s.stock_adjustments))) [
        | inl e ↦ rw (← (ok-injective (rw (e, push_new_adjustment) at h)).1) (refl, refl)
        | inr e ↦
            let (delta, h₀, rest₀) =
              >>=-eq-ok (decode_int64 out m.fields "delta") _ (rw (e, push_new_adjustment) at h) in
            let (reason, h₁, rest₁) = >>=-eq-ok (decode_string out m.fields "reason") _ rest₀ in
            let (note, h₂, rest₂) = >>=-eq-ok (decode_string out m.fields "note") _ rest₁ in
            push_adjustment-KeepsLogs s group _ o s' rest₂
      ]

pub push_stock_adjustment-KeepsLog : (out : Outside) → KeepsLog (push_stock_adjustment out)
unfolding push_stock_adjustment
push_stock_adjustment-KeepsLog out s group m o s' h =
    elim (Bool-cases (pos_part m.base_version == 0)) [
      | inl e ↦
          let (_, known, rest₀) =
            >>=-eq-ok (require_known_fields m.fields adjustment_fields) _
              (rw (e, push_stock_adjustment) at h) in
          let (_, required, rest₁) = >>=-eq-ok (require_field m.fields "item_id") _ rest₀ in
          let (item, decoded, rest₂) = >>=-eq-ok (decode_string out m.fields "item_id") _ rest₁ in
          push_new_adjustment-KeepsLogs out s group m _ o s' rest₂
      | inr e ↦ absurd (ground (arith, rw (e, push_stock_adjustment) at h))
    ]
