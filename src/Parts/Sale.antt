-- ===== src/Parts/Sale.antt =====
-- The sale of an item: server/internal/storage/sale.go, and what `pushSoldToBlock` of
-- server/internal/storage/push_commit.go knows of it.
use household_objects_srv.Prelude.{
  ℕ, String, str_eq, true, Bool, Option, none, some, List, [], ◌∷◌, if◌then◌else◌, Result, ok,
  ◌>>=◌, ℤ, pos, ℤ_eq,
}
use household_objects_srv.Push.Rows.{PartRow, Sale}
use household_objects_srv.Push.Types.{
  Store, PushMutation, PushOutcome, Outside, PushError, sale_exists,
}
use household_objects_srv.Push.Storage.{null_string}
use household_objects_srv.Push.Merge.{
  or_zero, decode_string, merge_string, unless, string_from_null, null_eq, decode_int64,
  merge_int64,
}
use household_objects_srv.Parts.{
  Table, one, CreatePartParams, UpdatePartParams, create_part, update_part, delete_part, create,
  update, not_negative,
}
use household_objects_srv.Parts.Push.{Pushed, push_part}

-- The fields of `CreateSaleParams` and `UpdateSaleParams` besides the ids, the version and the time.
pub record SaleParams : Type 0 where
  pub buyer_name : String
  pub sold_on : String
  pub sale_price_minor : ℤ
  pub notes : String

abbrev pub sale_columns : SaleParams → Sale
sale_columns p = record {
  buyer_name = p.buyer_name;
  sold_on = null_string p.sold_on;
  sale_price_minor = p.sale_price_minor;
  notes = p.notes;
}

-- `diffSaleFieldVersions`
unfoldable pub diff_sale_fields : Sale → Sale → List String
diff_sale_fields before after = unless (str_eq before.buyer_name after.buyer_name) "buyer_name" (
    unless (null_eq before.sold_on after.sold_on) "sold_on" (
      unless (ℤ_eq before.sale_price_minor after.sale_price_minor) "sale_price_minor"
        (unless (str_eq before.notes after.notes) "notes" [])))

abbrev pub sale_table : Table SaleParams Sale
sale_table = record {
  name = "sold_to_block";
  count = one sale_exists;
  rows = λ s. s.sales;
  put = λ s rows. record s { sales = rows };
  columns = sale_columns;
  admits = λ s group v. true;
  valid = λ p. not_negative p.sale_price_minor;
  diff = λ out before after. diff_sale_fields before after;
}

-- `pushSaleCreateFields`, and `pushSaleUpdateFields`, which are the same.
abbrev sale_fields : List String
sale_fields = "item_id" ∷ "buyer_name" ∷ "sold_on" ∷ "sale_price_minor" ∷ "notes" ∷ []

unfoldable pub decode_sale : Outside → List (String × String) → Result PushError SaleParams
decode_sale out fields = do
  buyer_name ← decode_string out fields "buyer_name"
  sold_on ← decode_string out fields "sold_on"
  sale_price_minor ← decode_int64 out fields "sale_price_minor"
  notes ← decode_string out fields "notes"
  ok (record {
    buyer_name = or_zero "" buyer_name;
    sold_on = or_zero "" sold_on;
    sale_price_minor = or_zero (pos 0) sale_price_minor;
    notes = or_zero "" notes;
  })

unfoldable pub merged_sale :
    Outside → List (String × String) → (String → Bool) → Sale → Result PushError SaleParams
merged_sale out fields allow current = do
  buyer_name ← merge_string out fields "buyer_name" allow current.buyer_name
  sold_on ← merge_string out fields "sold_on" allow (string_from_null current.sold_on)
  sale_price_minor ← merge_int64 out fields "sale_price_minor" allow current.sale_price_minor
  notes ← merge_string out fields "notes" allow current.notes
  ok (record {
    buyer_name = buyer_name;
    sold_on = sold_on;
    sale_price_minor = sale_price_minor;
    notes = notes;
  })

-- The values that the conflict log shows.
abbrev pub shown_sale : Outside → Sale → String → Option String
shown_sale out current name =
    if str_eq name "buyer_name"
    then some (out.quote_string current.buyer_name)
    else if str_eq name "sold_on"
    then some (out.quote_string (string_from_null current.sold_on))
    else if str_eq name "sale_price_minor"
    then some (out.quote_int64 current.sale_price_minor)
    else if str_eq name "notes"
    then some (out.quote_string current.notes)
    else none

abbrev pub pushed_sale : Pushed SaleParams Sale
pushed_sale = record {
  table = sale_table;
  fields = sale_fields;
  decode = decode_sale;
  merged = merged_sale;
  shown = shown_sale;
  adjust = λ out fields split. split;
}

abbrev pub create_sale :
    Store → String → CreatePartParams SaleParams → Result PushError (PartRow Sale × Store)
create_sale s group p = create_part sale_table s group p

abbrev pub update_sale :
    Store → String → UpdatePartParams SaleParams → Result PushError (PartRow Sale × Store)
update_sale s group p = update_part sale_table s group p

-- `saleRepository.Create`, `Update` and `Delete`
abbrev pub create_recorded_sale :
    Store → String → CreatePartParams SaleParams → Result PushError (PartRow Sale × Store)
create_recorded_sale s group p = create sale_table s group p

abbrev pub update_recorded_sale :
    Outside → Store → String → UpdatePartParams SaleParams → Result PushError (PartRow Sale × Store)
update_recorded_sale out s group p = update sale_table out s group p

abbrev pub delete_sale : Store → String → String → ℕ → Result PushError Store
delete_sale s group item now = delete_part sale_table s group item "" now

unfoldable pub push_sold_to_block :
    Outside → Store → String → PushMutation → Result PushError (PushOutcome × Store)
unfolding push_part
push_sold_to_block out s group m = push_part pushed_sale out s group m
