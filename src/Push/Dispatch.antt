-- ===== src/Push/Dispatch.antt =====
-- `pushEntityDispatch` of server/internal/storage/push_commit.go.
use mathlib.Core.Path.{subst}
use household_objects_srv.Prelude.{
  String, str_eq, ◌≡◌, Bool, true, false, arith, Option, none, some, if◌then◌else◌,
}
use household_objects_srv.Push.Types.{Outside}
use household_objects_srv.Push.Item.{push_item}
use household_objects_srv.Push.Item.Keeps.{push_item-Safe}
use household_objects_srv.Push.Location.{push_location}
use household_objects_srv.Push.Location.Keeps.{push_location-KeepsLog}
use household_objects_srv.Push.Label.{push_label}
use household_objects_srv.Push.Label.Keeps.{push_label-KeepsLog}
use household_objects_srv.Push.ItemLabel.{
  push_item_label, push_item_label_delete, push_attachment, push_item_label-KeepsLog,
  push_item_label_delete-KeepsLog, push_attachment-KeepsLog,
}
use household_objects_srv.Push.Adjustment.{push_stock_adjustment, push_stock_adjustment-KeepsLog}
use household_objects_srv.Parts.Warranty.{push_warranty_block}
use household_objects_srv.Parts.Sale.{push_sold_to_block}
use household_objects_srv.Parts.Purchase.{push_purchased_from_block}
use household_objects_srv.Parts.Identification.{push_item_identification}
use household_objects_srv.Parts.CustomField.{push_item_custom_field}
use household_objects_srv.Parts.Logs.{
  push_warranty_block-KeepsLog, push_sold_to_block-KeepsLog, push_purchased_from_block-KeepsLog,
  push_item_identification-KeepsLog, push_item_custom_field-KeepsLog,
}
use household_objects_srv.Push.Apply.{Handler, Handlers}
use household_objects_srv.Push.Apply.Ledger.{KeepsLog, HandlersKeepLog}

-- `pushEntityDispatch`
unfoldable pub dispatch : Outside → String → Option Handler
dispatch out name =
    if str_eq name "item"
    then some (push_item out)
    else if str_eq name "warranty_block"
    then some (push_warranty_block out)
    else if str_eq name "sold_to_block"
    then some (push_sold_to_block out)
    else if str_eq name "purchased_from_block"
    then some (push_purchased_from_block out)
    else if str_eq name "item_identification"
    then some (push_item_identification out)
    else if str_eq name "item_custom_field"
    then some (push_item_custom_field out)
    else if str_eq name "stock_adjustment"
    then some (push_stock_adjustment out)
    else if str_eq name "location"
    then some (push_location out)
    else if str_eq name "label"
    then some (push_label out)
    else if str_eq name "item_label"
    then some (push_item_label out)
    else if str_eq name "attachment"
    then some (push_attachment out)
    else none

abbrev pub handlers : Outside → Handlers
handlers out = record { dispatch = dispatch out; delete_item_label = push_item_label_delete out }

push_item-KeepsLog : (out : Outside) → KeepsLog (push_item out)
push_item-KeepsLog out s group m o s' h =
    let (mutations, conflicts, keeps) = push_item-Safe out s group m o s' h in
    (mutations, conflicts)

-- The handler of a name, or that of the rest of the table.
KeepsLog-if :
    (b : Bool) (first handler : Handler) (rest : Option Handler)
    → KeepsLog first
    → (rest ≡ some handler → KeepsLog handler)
    → (if b then some first else rest) ≡ some handler
    → KeepsLog handler
KeepsLog-if true first handler rest keep others h =
    subst KeepsLog (some-injective first handler h) keep
  where
    some-injective : (a b : Handler) → some a ≡ some b → a ≡ b
    some-injective a b h = cc
KeepsLog-if false first handler rest keep others h = others h

no_handler : (handler : Handler) → none ≡ some handler → KeepsLog handler
no_handler handler h = absurd (ground (arith, h))

dispatch-KeepsLog :
    (out : Outside) (name : String) (handler : Handler)
    → dispatch out name ≡ some handler
    → KeepsLog handler
unfolding dispatch
dispatch-KeepsLog out name handler = KeepsLog-if _ _ handler _ (push_item-KeepsLog out) (
    KeepsLog-if _ _ handler _ (push_warranty_block-KeepsLog out) (
      KeepsLog-if _ _ handler _ (push_sold_to_block-KeepsLog out) (
        KeepsLog-if _ _ handler _ (push_purchased_from_block-KeepsLog out) (
          KeepsLog-if _ _ handler _ (push_item_identification-KeepsLog out) (
            KeepsLog-if _ _ handler _ (push_item_custom_field-KeepsLog out) (
              KeepsLog-if _ _ handler _ (push_stock_adjustment-KeepsLog out) (
                KeepsLog-if _ _ handler _ (push_location-KeepsLog out) (
                  KeepsLog-if _ _ handler _ (push_label-KeepsLog out) (
                    KeepsLog-if _ _ handler _ (push_item_label-KeepsLog out) (
                      KeepsLog-if _ _ handler _ (push_attachment-KeepsLog out)
                        (no_handler handler)))))))))))

-- Every handler of the dispatch table leaves the mutation ledger and the conflict log alone, and so does
-- the one that deletes the edge of an item and a label.
pub handlers-KeepLog : (out : Outside) → HandlersKeepLog (handlers out)
handlers-KeepLog out = record {
  dispatched = λ name handler. dispatch-KeepsLog out name handler;
  deleted = push_item_label_delete-KeepsLog out;
}
