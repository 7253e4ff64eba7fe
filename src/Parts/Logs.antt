-- ===== src/Parts/Logs.antt =====
-- The laws of the tables of the rows of an item, and the handlers of
-- server/internal/storage/push_commit.go for them beside the two logs of the pushes.
use household_objects_srv.Prelude.{refl}
use household_objects_srv.Push.Types.{Outside}
use household_objects_srv.Push.Apply.Ledger.{KeepsLog}
use household_objects_srv.Parts.Keeps.{Laws}
use household_objects_srv.Parts.Pushes.{push_part-KeepsLog}
use household_objects_srv.Parts.Warranty.{warranty_table, pushed_warranty, push_warranty_block}
use household_objects_srv.Parts.Sale.{sale_table, pushed_sale, push_sold_to_block}
use household_objects_srv.Parts.Purchase.{
  purchase_table, pushed_purchase, push_purchased_from_block,
}
use household_objects_srv.Parts.Identification.{
  identification_table, pushed_identification, push_item_identification,
}
use household_objects_srv.Parts.CustomField.{
  custom_field_table, pushed_custom_field, push_item_custom_field,
}

pub warranty_table-Laws : Laws warranty_table
warranty_table-Laws = record {
  rows-groups = λ s groups. refl;
  rows-field_versions = λ s fields. refl;
  rows-put = λ s rows. refl;
  put-KeepsLogs = λ s rows. (refl, refl);
}

pub push_warranty_block-KeepsLog : (out : Outside) → KeepsLog (push_warranty_block out)
unfolding push_warranty_block
push_warranty_block-KeepsLog out = push_part-KeepsLog pushed_warranty warranty_table-Laws out

pub sale_table-Laws : Laws sale_table
sale_table-Laws = record {
  rows-groups = λ s groups. refl;
  rows-field_versions = λ s fields. refl;
  rows-put = λ s rows. refl;
  put-KeepsLogs = λ s rows. (refl, refl);
}

pub push_sold_to_block-KeepsLog : (out : Outside) → KeepsLog (push_sold_to_block out)
unfolding push_sold_to_block
push_sold_to_block-KeepsLog out = push_part-KeepsLog pushed_sale sale_table-Laws out

pub purchase_table-Laws : Laws purchase_table
purchase_table-Laws = record {
  rows-groups = λ s groups. refl;
  rows-field_versions = λ s fields. refl;
  rows-put = λ s rows. refl;
  put-KeepsLogs = λ s rows. (refl, refl);
}

pub push_purchased_from_block-KeepsLog : (out : Outside) → KeepsLog (push_purchased_from_block out)
unfolding push_purchased_from_block
push_purchased_from_block-KeepsLog out = push_part-KeepsLog pushed_purchase purchase_table-Laws out

pub identification_table-Laws : Laws identification_table
identification_table-Laws = record {
  rows-groups = λ s groups. refl;
  rows-field_versions = λ s fields. refl;
  rows-put = λ s rows. refl;
  put-KeepsLogs = λ s rows. (refl, refl);
}

pub push_item_identification-KeepsLog : (out : Outside) → KeepsLog (push_item_identification out)
unfolding push_item_identification
push_item_identification-KeepsLog out =
    push_part-KeepsLog pushed_identification identification_table-Laws out

pub custom_field_table-Laws : Laws custom_field_table
custom_field_table-Laws = record {
  rows-groups = λ s groups. refl;
  rows-field_versions = λ s fields. refl;
  rows-put = λ s rows. refl;
  put-KeepsLogs = λ s rows. (refl, refl);
}

pub push_item_custom_field-KeepsLog : (out : Outside) → KeepsLog (push_item_custom_field out)
unfolding push_item_custom_field
push_item_custom_field-KeepsLog out =
    push_part-KeepsLog pushed_custom_field custom_field_table-Laws out
