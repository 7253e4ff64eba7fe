-- ===== src/Push/Rows.antt =====
-- The tables `item_warranty`, `item_sale`, `item_purchase`, `item_identifications`,
-- `item_custom_fields` and `custom_field_defs` of server/internal/storage/migrations: the columns
-- that they share, and those of each. A REAL is the natural number of its 64 bits.
use household_objects_srv.Prelude.{ℕ, ℤ, String, Bool, Option}

-- A row that hangs on an item, with the columns of its own table as `values`.
pub record PartRow (V : Type 0) : Type 0 where
  pub id : String
  pub group_id : String
  pub item_id : String
  pub values : V
  pub created_at : ℕ
  pub updated_at : ℕ
  pub version : ℕ
  pub deleted_at : Option ℕ
  pub change_seq : ℕ

pub record Warranty : Type 0 where
  pub holder : String
  pub provider : String
  pub starts_on : Option String
  pub expires_on : Option String
  pub is_lifetime : Bool
  pub notes : String

pub record Sale : Type 0 where
  pub buyer_name : String
  pub sold_on : Option String
  pub sale_price_minor : ℤ
  pub notes : String

pub record Purchase : Type 0 where
  pub vendor : String
  pub purchased_on : Option String
  pub purchase_price_minor : ℤ
  pub order_reference : String
  pub notes : String

pub record Identification : Type 0 where
  pub kind : String
  pub value : String

pub record CustomField : Type 0 where
  pub field_def_id : Option String
  pub name : String
  pub field_type : String
  pub text_value : Option String
  pub number_value : Option ℕ
  pub bool_value : Option Bool
  pub date_value : Option String

-- The columns that the foreign key of a custom field reads.
pub record CustomFieldDefRow : Type 0 where
  pub id : String
  pub group_id : String
