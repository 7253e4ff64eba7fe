-- ===== src/Parts/Purchase.antt =====
-- The purchase of an item: server/internal/storage/purchase.go, and what `pushPurchasedFromBlock` of
-- server/internal/storage/push_commit.go knows of it.
use household_objects_srv.Prelude.{
  ℕ, String, str_eq, true, Bool, Option, none, some, List, [], ◌∷◌, if◌then◌else◌, Result, ok,
  ◌>>=◌, ℤ, pos, ℤ_eq,
}
use household_objects_srv.Push.Rows.{PartRow, Purchase}
use household_objects_srv.Push.Types.{
  Store, PushMutation, PushOutcome, Outside, PushError, purchase_exists,
}
use household_objects_srv.Push.Storage.{null_string}
use household_objects_srv.Push.Merge.{
  or_zero, decode_string, merge_string, unless, string_from_null, null_eq, decode_int64,
  merge_int64,
}
use household_objects_srv.Parts.{
  Table, one, CreatePartParams, UpdatePartParams, create_part, update_part, delete_part, create,
  update, not_negative,
}
use household_objects_srv.Parts.Push.{Pushed, push_part}

-- The fields of `CreatePurchaseParams` and `UpdatePurchaseParams` besides the ids, the version and the time.
pub record PurchaseParams : Type 0 where
  pub vendor : String
  pub purchased_on : String
  pub purchase_price_minor : ℤ
  pub order_reference : String
  pub notes : String

abbrev pub purchase_columns : PurchaseParams → Purchase
purchase_columns p = record {
  vendor = p.vendor;
  purchased_on = null_string p.purchased_on;
  purchase_price_minor = p.purchase_price_minor;
  order_reference = p.order_reference;
  notes = p.notes;
}

-- `diffPurchaseFieldVersions`
unfoldable pub diff_purchase_fields : Purchase → Purchase → List String
diff_purchase_fields before after = unless (str_eq before.vendor after.vendor) "vendor" (
    unless (null_eq before.purchased_on after.purchased_on) "purchased_on" (
      unless (ℤ_eq before.purchase_price_minor after.purchase_price_minor) "purchase_price_minor" (
        unless (str_eq before.order_reference after.order_reference) "order_reference"
          (unless (str_eq before.notes after.notes) "notes" []))))

abbrev pub purchase_table : Table PurchaseParams Purchase
purchase_table = record {
  name = "purchased_from_block";
  count = one purchase_exists;
  rows = λ s. s.purchases;
  put = λ s rows. record s { purchases = rows };
  columns = purchase_columns;
  admits = λ s group v. true;
  valid = λ p. not_negative p.purchase_price_minor;
  diff = λ out before after. diff_purchase_fields before after;
}

-- `pushPurchaseCreateFields`, and `pushPurchaseUpdateFields`, which are the same.
abbrev purchase_fields : List String
purchase_fields =
    "item_id" ∷ "vendor" ∷ "purchased_on" ∷ "purchase_price_minor" ∷ "order_reference" ∷ "notes"
    ∷ []

unfoldable pub decode_purchase : Outside → List (String × String) → Result PushError PurchaseParams
decode_purchase out fields = do
  vendor ← decode_string out fields "vendor"
  purchased_on ← decode_string out fields "purchased_on"
  purchase_price_minor ← decode_int64 out fields "purchase_price_minor"
  order_reference ← decode_string out fields "order_reference"
  notes ← decode_string out fields "notes"
  ok (record {
    vendor = or_zero "" vendor;
    purchased_on = or_zero "" purchased_on;
    purchase_price_minor = or_zero (pos 0) purchase_price_minor;
    order_reference = or_zero "" order_reference;
    notes = or_zero "" notes;
  })

unfoldable pub merged_purchase :
    Outside → List (String × String) → (String → Bool) → Purchase → Result PushError PurchaseParams
merged_purchase out fields allow current = do
  vendor ← merge_string out fields "vendor" allow current.vendor
  purchased_on ←
      merge_string out fields "purchased_on" allow (string_from_null current.purchased_on)
  purchase_price_minor ←
      merge_int64 out fields "purchase_price_minor" allow current.purchase_price_minor
  order_reference ← merge_string out fields "order_reference" allow current.order_reference
  notes ← merge_string out fields "notes" allow current.notes
  ok (record {
    vendor = vendor;
    purchased_on = purchased_on;
    purchase_price_minor = purchase_price_minor;
    order_reference = order_reference;
    notes = notes;
  })

-- The values that the conflict log shows.
abbrev pub shown_purchase : Outside → Purchase → String → Option String
shown_purchase out current name =
    if str_eq name "vendor"
    then some (out.quote_string current.vendor)
    else if str_eq name "purchased_on"
    then some (out.quote_string (string_from_null current.purchased_on))
    else if str_eq name "purchase_price_minor"
    then some (out.quote_int64 current.purchase_price_minor)
    else if str_eq name "order_reference"
    then some (out.quote_string current.order_reference)
    else if str_eq name "notes"
    then some (out.quote_string current.notes)
    else none

abbrev pub pushed_purchase : Pushed PurchaseParams Purchase
pushed_purchase = record {
  table = purchase_table;
  fields = purchase_fields;
  decode = decode_purchase;
  merged = merged_purchase;
  shown = shown_purchase;
  adjust = λ out fields split. split;
}

abbrev pub create_purchase :
    Store → String → CreatePartParams PurchaseParams → Result PushError (PartRow Purchase × Store)
create_purchase s group p = create_part purchase_table s group p

abbrev pub update_purchase :
    Store → String → UpdatePartParams PurchaseParams → Result PushError (PartRow Purchase × Store)
update_purchase s group p = update_part purchase_table s group p

-- `purchaseRepository.Create`, `Update` and `Delete`
abbrev pub create_recorded_purchase :
    Store → String → CreatePartParams PurchaseParams → Result PushError (PartRow Purchase × Store)
create_recorded_purchase s group p = create purchase_table s group p

abbrev pub update_recorded_purchase :
    Outside
    → Store
    → String
    → UpdatePartParams PurchaseParams
    → Result PushError (PartRow Purchase × Store)
update_recorded_purchase out s group p = update purchase_table out s group p

abbrev pub delete_purchase : Store → String → String → ℕ → Result PushError Store
delete_purchase s group item now = delete_part purchase_table s group item "" now

unfoldable pub push_purchased_from_block :
    Outside → Store → String → PushMutation → Result PushError (PushOutcome × Store)
unfolding push_part
push_purchased_from_block out s group m = push_part pushed_purchase out s group m
