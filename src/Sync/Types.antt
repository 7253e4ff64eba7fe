-- ===== src/Sync/Types.antt =====
-- The data of server/internal/sync/reader.go, and the part of `SyncRepository`
-- (server/internal/storage/sync.go) that the reader calls.
use household_objects_srv.Prelude.{ℕ, String, ℤ, Bool, Option, List, Result}

pub data EntityType : Type 0 where
  item warranty_block sold_to_block purchased_from_block item_identification item_custom_field
        stock_adjustment location label item_label attachment :
      EntityType

-- A row of a synchronised table. `columns` stands for the columns of its table that this code
-- passes on and never reads; `deleted_at` is NULL while the row lives.
pub record Row (D : Type 0) : Type 0 where
  pub group_id : String
  pub id : String
  pub change_seq : ℕ
  pub deleted_at : Option ℕ
  pub columns : D

pub record Candidate (D : Type 0) : Type 0 where
  pub entity_type : EntityType
  pub id : String
  pub change_seq : ℕ
  pub deleted_at : Option ℕ
  pub content : Row D

pub record Change (D : Type 0) : Type 0 where
  pub entity_type : EntityType
  pub id : String
  pub group_change_seq : ℕ
  pub content : Row D

pub record Tombstone : Type 0 where
  pub entity_type : EntityType
  pub id : String
  pub deleted_at : ℕ

pub record Page (D : Type 0) : Type 0 where
  pub changes : List (Change D)
  pub tombstones : List Tombstone
  pub next_watermark : ℕ
  pub has_more : Bool

-- `failed` carries the message of an error of the database driver.
pub data StorageError : Type 0 where
  not_found negative_watermark : StorageError
  failed : String → StorageError

pub data SyncError : Type 0 where
  no_repository : SyncError
  invalid_limit invalid_since : ℤ → SyncError
  pull_since pull_at probe : EntityType → ℕ → StorageError → SyncError
  low_watermark : StorageError → SyncError

-- The two queries of each table, by the table's entity type, and the horizon.
pub record SyncRepository (D : Type 0) : Type 0 where
  pub since : EntityType → ℕ → ℤ → Result StorageError (List (Row D))
  pub at_seq : EntityType → ℕ → Result StorageError (List (Row D))
  pub get_low_watermark : Result StorageError ℕ
