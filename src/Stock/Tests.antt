-- ===== src/Stock/Tests.antt =====
-- An item that is used up and bought again: the theorems about stock at concrete adjustments.
use household_objects_srv.Prelude.{ℕ, ℤ, pos, negsuc, String, ◌≡◌, refl, none, [], ◌∷◌, ok}
use household_objects_srv.Push.Types.{ItemRow, StockAdjustmentRow, Store}
use household_objects_srv.Push.Storage.{alloc_change_seq}
use household_objects_srv.Push.Items.{get_item}
use household_objects_srv.Stock.{
  CreateStockAdjustmentParams, insert_adjustment, adjust_item, get_adjustment, adjust_found,
  create_adjustment,
}
use household_objects_srv.Stock.Adjusted.{Adjusts, create_adjustment-Adjusts}
use household_objects_srv.Stock.History.{adjust_all, Balanced, adjust_all-Balanced}

abbrev screws : ItemRow
screws = record {
  id = "i";
  group_id = "g";
  name = "Screws";
  description = "";
  location_id = none;
  quantity = pos 2;
  short_code = "AAAA";
  created_at = 10;
  updated_at = 10;
  version = 1;
  deleted_at = none;
  change_seq = 1;
}

abbrev shed : Store
shed = record {
  groups = record { id = "g"; change_seq_counter = 1; deleted_at = none } ∷ [];
  locations = [];
  items = screws ∷ [];
  labels = [];
  item_labels = [];
  stock_adjustments = [];
  warranties = [];
  sales = [];
  purchases = [];
  identifications = [];
  custom_fields = [];
  custom_field_defs = [];
  mutations = [];
  field_versions = [];
  conflicts = [];
}

abbrev adjustment : String → ℤ → ℕ → CreateStockAdjustmentParams
adjustment id delta now = record {
  id = id;
  item_id = "i";
  delta = delta;
  reason = "used";
  note = "";
  now = now;
}

abbrev history_row : String → ℤ → ℤ → ℕ → ℕ → StockAdjustmentRow
history_row id delta quantity now seq = record {
  id = id;
  group_id = "g";
  item_id = "i";
  delta = delta;
  reason = "used";
  note = "";
  resulting_quantity = quantity;
  created_at = now;
  updated_at = now;
  version = 1;
  deleted_at = none;
  change_seq = seq;
}

-- Five are used where two are left.
abbrev short_shed : Store
short_shed = record shed {
  groups = record { id = "g"; change_seq_counter = 2; deleted_at = none } ∷ [];
  items = record screws { quantity = negsuc 2; updated_at = 20; version = 2; change_seq = 2 } ∷ [];
  stock_adjustments = history_row "a" (negsuc 4) (negsuc 2) 20 2 ∷ [];
}

uses_up :
    create_adjustment shed "g" (adjustment "a" (negsuc 4) 20)
    ≡ ok (history_row "a" (negsuc 4) (negsuc 2) 20 2, short_shed)
unfolding create_adjustment adjust_found get_item alloc_change_seq insert_adjustment adjust_item
    get_adjustment
uses_up = refl

create_adjustment-Adjusts_example :
    Adjusts shed "g"
      (adjustment "a" (negsuc 4) 20)
      (history_row "a" (negsuc 4) (negsuc 2) 20 2)
      short_shed
create_adjustment-Adjusts_example =
    create_adjustment-Adjusts shed "g" (adjustment "a" (negsuc 4) 20)
      (history_row "a" (negsuc 4) (negsuc 2) 20 2) short_shed uses_up

abbrev restocked_shed : Store
restocked_shed = record short_shed {
  groups = record { id = "g"; change_seq_counter = 3; deleted_at = none } ∷ [];
  items = record screws { quantity = pos 7; updated_at = 30; version = 3; change_seq = 3 } ∷ [];
  stock_adjustments =
      history_row "a" (negsuc 4) (negsuc 2) 20 2 ∷ history_row "b" (pos 10) (pos 7) 30 3 ∷ [];
}

restocks :
    adjust_all shed "g" "i" (adjustment "a" (negsuc 4) 20 ∷ adjustment "b" (pos 10) 30 ∷ [])
    ≡ ok restocked_shed
unfolding adjust_all create_adjustment adjust_found get_item alloc_change_seq insert_adjustment
    adjust_item get_adjustment
restocks = refl

adjust_all-Balanced_example :
    Balanced shed "g" "i" screws
      (adjustment "a" (negsuc 4) 20 ∷ adjustment "b" (pos 10) 30 ∷ [])
      restocked_shed
unfolding get_item
adjust_all-Balanced_example =
    adjust_all-Balanced shed "g" "i" screws
      (adjustment "a" (negsuc 4) 20 ∷ adjustment "b" (pos 10) 30 ∷ []) restocked_shed refl restocks
