-- ===== src/Push/Types.antt =====
-- The data of a push: server/internal/storage/push.go, push_commit.go, items.go, and the tables of
-- server/internal/storage/migrations that a push of an item reads and writes.
use household_objects_srv.Prelude.{ℕ, ℤ, String, Bool, Option, List}
use household_objects_srv.Push.Rows.{
  PartRow, Warranty, Sale, Purchase, Identification, CustomField, CustomFieldDefRow,
}

-- The rows of `groups`, `locations`, `items`, `mutations`, `field_versions` and `conflicts`, with
-- the columns that this code reads or writes. NULL is `none`.
pub record GroupRow : Type 0 where
  pub id : String
  pub change_seq_counter : ℕ
  pub deleted_at : Option ℕ

pub record LocationRow : Type 0 where
  pub id : String
  pub group_id : String
  pub name : String
  pub parent_id : Option String
  pub created_at : ℕ
  pub updated_at : ℕ
  pub version : ℕ
  pub deleted_at : Option ℕ
  pub change_seq : ℕ

pub record LabelRow : Type 0 where
  pub id : String
  pub group_id : String
  pub name : String
  pub color : String
  pub created_at : ℕ
  pub updated_at : ℕ
  pub version : ℕ
  pub deleted_at : Option ℕ
  pub change_seq : ℕ

pub record ItemLabelRow : Type 0 where
  pub id : String
  pub group_id : String
  pub item_id : String
  pub label_id : String
  pub created_at : ℕ
  pub updated_at : ℕ
  pub version : ℕ
  pub deleted_at : Option ℕ
  pub change_seq : ℕ

pub record StockAdjustmentRow : Type 0 where
  pub id : String
  pub group_id : String
  pub item_id : String
  pub delta : ℤ
  pub reason : String
  pub note : String
  pub resulting_quantity : ℤ
  pub created_at : ℕ
  pub updated_at : ℕ
  pub version : ℕ
  pub deleted_at : Option ℕ
  pub change_seq : ℕ

pub record ItemRow : Type 0 where
  pub id : String
  pub group_id : String
  pub name : String
  pub description : String
  pub location_id : Option String
  pub quantity : ℤ
  pub short_code : String
  pub created_at : ℕ
  pub updated_at : ℕ
  pub version : ℕ
  pub deleted_at : Option ℕ
  pub change_seq : ℕ

pub data LedgerOutcome : Type 0 where
  applied skipped_duplicate conflict : LedgerOutcome

pub record LedgerRow : Type 0 where
  pub id : String
  pub group_id : String
  pub mutation_id : String
  pub entity_type : String
  pub entity_id : String
  pub outcome : LedgerOutcome
  pub applied_at : ℕ

pub record FieldVersionRow : Type 0 where
  pub group_id : String
  pub entity_type : String
  pub entity_id : String
  pub field_name : String
  pub version : ℕ
  pub updated_at : ℕ

pub record ConflictRow : Type 0 where
  pub id : String
  pub group_id : String
  pub entity_type : String
  pub entity_id : String
  pub field_name : String
  pub server_value_snapshot : Option String
  pub losing_client_value_snapshot : Option String
  pub detected_at : ℕ
  pub mutation_id : Option String

pub record Store : Type 0 where
  pub groups : List GroupRow
  pub locations : List LocationRow
  pub items : List ItemRow
  pub labels : List LabelRow
  pub item_labels : List ItemLabelRow
  pub stock_adjustments : List StockAdjustmentRow
  pub warranties : List (PartRow Warranty)
  pub sales : List (PartRow Sale)
  pub purchases : List (PartRow Purchase)
  pub identifications : List (PartRow Identification)
  pub custom_fields : List (PartRow CustomField)
  pub custom_field_defs : List CustomFieldDefRow
  pub mutations : List LedgerRow
  pub field_versions : List FieldVersionRow
  pub conflicts : List ConflictRow

-- `PushMutation`: `fields` is the map from field names to raw JSON, its keys in any order, and
-- `base_version` is not negative and `now` is positive where the guard has passed.
pub record PushMutation : Type 0 where
  pub mutation_id : String
  pub entity_type : String
  pub entity_id : String
  pub base_version : ℤ
  pub fields : List (String × String)
  pub now : ℤ
  pub op : String

pub record PushOutcome : Type 0 where
  pub skipped : Bool
  pub applied : Bool
  pub entity_type : String
  pub entity_id : String
  pub version : ℕ
  pub conflict_fields : List String
  pub field_snapshots : List (String × String)

pub data PushError : Type 0 where
  unknown_entity_type unknown_field missing_field invalid_field_value : String → PushError
  attachment_rejected creation_only unknown_op delete_not_supported : String → PushError
  bad_now no_rows group_not_found not_found version_mismatch row_lost : PushError
  already_recorded constraint_failed no_short_code no_row_id : PushError
  warranty_exists sale_exists purchase_exists label_name_conflict : PushError
  location_parent_not_found location_cycle : PushError
  location_not_empty : ℕ → ℕ → PushError
  reassign_target endless_walk invalid_params : PushError

-- What a push takes from outside the repository: `encoding/json` on the raw value of a field and on
-- a value of the server, `sort.Strings`, Go's `==` on a float64, the n-th short code that is drawn,
-- and the n-th UUID that is minted. A float64 is the natural number of its 64 bits.
pub record Outside : Type 0 where
  pub json_string : String → Option String
  pub json_int64 : String → Option ℤ
  pub json_bool : String → Option Bool
  pub json_float64 : String → Option ℕ
  pub quote_string : String → String
  pub quote_int64 : ℤ → String
  pub quote_bool : Bool → String
  pub quote_float64 : ℕ → String
  pub float_eq : ℕ → ℕ → Bool
  pub sort_strings : List String → List String
  pub short_code : ℕ → Option String
  pub uuid : ℕ → Option String
