-- ===== src/Parts.antt =====
-- The rows that hang on an item: warranties, sales and purchases, of which an item has one each
-- (server/internal/storage/warranty.go, sale.go, purchase.go), and its identifications and custom
-- fields (item_identifications.go, item_custom_fields.go), with their statements. The five files have
-- one shape, which is here; what they differ in is a `Table`.
pub mod Push
pub mod Warranty
pub mod Sale
pub mod Purchase
pub mod Identification
pub mod CustomField
pub mod Logs
pub mod Keeps
pub mod Pushes
pub mod Alone
pub mod Steps
pub mod Tests
use household_objects_srv.Prelude.{
  ℕ, ◌+◌, ℤ, pos, negsuc, String, str_eq, true, false, Bool, ◌&&◌, ◌||◌, not, Option, none, some,
  List, [], ◌∷◌, ◌++◌, if◌then◌else◌, Result, ok, err, ◌>>=◌, ◌>>◌, ◌==◌, select, length, find?,
  update_where,
}
use household_objects_srv.Push.Rows.{PartRow}
use household_objects_srv.Push.Types.{
  Store, Outside, PushError, not_found, version_mismatch, row_lost, constraint_failed,
  invalid_params,
}
use household_objects_srv.Push.Storage.{is_some, alloc_change_seq, record_field_versions}
use household_objects_srv.Push.Items.{get_item}

abbrev pub not_negative : ℤ → Bool
not_negative (pos n) = true
not_negative (negsuc n) = false

-- How many live rows an item has: one, with the error of a second, or many, read by their ids.
pub data Count : Type 0 where
  one : PushError → Count
  many : Count

-- A table of `V` rows, written from `P` values: the entity type of its field versions, its rows in
-- the store, the columns that values become, the CHECK and foreign key constraints on columns, the
-- further tests of `validate`, and the names of the columns that differ.
pub record Table (P V : Type 0) : Type 0 where
  pub name : String
  pub count : Count
  pub rows : Store → List (PartRow V)
  pub put : Store → List (PartRow V) → Store
  pub columns : P → V
  pub admits : Store → String → V → Bool
  pub valid : P → Bool
  pub diff : Outside → V → V → List String

pub record CreatePartParams (P : Type 0) : Type 0 where
  pub id : String
  pub item_id : String
  pub values : P
  pub now : ℕ

pub record UpdatePartParams (P : Type 0) : Type 0 where
  pub item_id : String
  pub id : String
  pub values : P
  pub expected_version : ℕ
  pub now : ℕ

abbrev pub addressed : {V : Type 0} → Count → String → PartRow V → Bool
addressed (one e) id r = true
addressed many id r = str_eq r.id id

-- The WHERE clause of the queries for a live row of an item.
abbrev pub part_is : {V : Type 0} → Count → String → String → String → PartRow V → Bool
part_is count group item id r =
    str_eq r.group_id group
    && (str_eq r.item_id item && (addressed count id r && not (is_some r.deleted_at)))

abbrev pub part_version_is : {V : Type 0} → Count → String → String → String → ℕ → PartRow V → Bool
part_version_is count group item id version r =
    part_is count group item id r && (r.version == version)

unfoldable pub check_free : {V : Type 0} → Count → Option (PartRow V) → Result PushError (Unit {0})
check_free (one e) none = ok tt
check_free (one e) (some row) = err e
check_free many o = ok tt

unfoldable pub reread_part :
    {V : Type 0} → Option (PartRow V) → Store → Result PushError (PartRow V × Store)
reread_part none s = err row_lost
reread_part (some row) s = ok (row, s)

-- The texts that are not empty where a row has its own address.
abbrev pub no_address : Count → String → Bool
no_address (one e) id = false
no_address many id = str_eq id ""

module _ {P V : Type 0} (t : Table P V) where
  -- `GetItemWarranty` and its like.
  unfoldable pub get_part : Store → String → String → String → Option (PartRow V)
  get_part s group item id = find? (part_is t.count group item id) (t.rows s)

  abbrev pub new_part : String → CreatePartParams P → ℕ → PartRow V
  new_part group p seq = record {
    id = p.id;
    group_id = group;
    item_id = p.item_id;
    values = t.columns p.values;
    created_at = p.now;
    updated_at = p.now;
    version = 1;
    deleted_at = none;
    change_seq = seq;
  }

  -- The INSERT, with the primary key, the constraints on columns, and the unique index on live rows.
  unfoldable pub insert_part : Store → PartRow V → Result PushError Store
  unfolding check_free get_part
  insert_part s row =
      if is_some (find? (λ (r : PartRow V). str_eq r.id row.id) (t.rows s))
      then err constraint_failed
      else if t.admits s row.group_id row.values
      then (do
        check_free t.count (get_part s row.group_id row.item_id row.id)
        ok (t.put s (t.rows s ++ row ∷ [])))
      else err constraint_failed

  -- `createWarrantyTx` and its like.
  unfoldable pub create_part :
      Store → String → CreatePartParams P → Result PushError (PartRow V × Store)
  unfolding check_free get_part insert_part reread_part
  create_part s group p =
      if is_some (get_item s group p.item_id)
      then (do
        check_free t.count (get_part s group p.item_id p.id)
        (seq, s) ← alloc_change_seq s group
        s ← insert_part s (new_part group p seq)
        reread_part (get_part s group p.item_id p.id) s)
      else err not_found

  abbrev pub updated_part : UpdatePartParams P → ℕ → PartRow V → PartRow V
  updated_part p seq r = record r {
    values = t.columns p.values;
    updated_at = p.now;
    version = r.version + 1;
    change_seq = seq;
  }

  -- The UPDATE, and what follows from the number of its rows.
  unfoldable pub write_part :
      Store → String → UpdatePartParams P → ℕ → Result PushError (PartRow V × Store)
  unfolding get_part reread_part
  write_part s group p seq =
      let here = part_version_is t.count group p.item_id p.id p.expected_version in
      let s' = t.put s (update_where here (updated_part p seq) (t.rows s)) in
      let rows = length (select here (t.rows s)) in
      if rows == 0
      then err row_lost
      else if t.admits s group (t.columns p.values)
      then (if rows == 1 then reread_part (get_part s' group p.item_id p.id) s' else err row_lost)
      else err constraint_failed

  unfoldable pub update_part_found :
      Store → String → UpdatePartParams P → PartRow V → Result PushError (PartRow V × Store)
  unfolding write_part
  update_part_found s group p current =
      if current.version == p.expected_version
      then (do (seq, s) ← alloc_change_seq s group; write_part s group p seq)
      else err version_mismatch

  -- `updateWarrantyTx` and its like.
  unfoldable pub update_part :
      Store → String → UpdatePartParams P → Result PushError (PartRow V × Store)
  unfolding get_part update_part_found
  update_part s group p = elim (get_part s group p.item_id p.id) [
    | none ↦ err not_found
    | some current ↦ update_part_found s group p current
  ]

  abbrev pub buried_part : ℕ → ℕ → PartRow V → PartRow V
  buried_part now seq r = record r {
    deleted_at = some now;
    updated_at = now;
    version = r.version + 1;
    change_seq = seq;
  }

  -- `warrantyRepository.Delete` and its like.
  unfoldable pub delete_part : Store → String → String → String → ℕ → Result PushError Store
  delete_part s group item id now =
      let here = part_is t.count group item id in
      if str_eq item "" || (no_address t.count id || now == 0) then err invalid_params else (do
        (seq, s) ← alloc_change_seq s group
        if length (select here (t.rows s)) == 0
            then err not_found
            else ok (t.put s (update_where here (buried_part now seq) (t.rows s))))

  abbrev pub valid_creation : CreatePartParams P → Bool
  valid_creation p =
      not (str_eq p.id "") && (not (str_eq p.item_id "") && (t.valid p.values && not (p.now == 0)))

  abbrev pub valid_update : UpdatePartParams P → Bool
  valid_update p =
      not (str_eq p.item_id "")
      && (not (no_address t.count p.id)
          && (t.valid p.values && (not (p.expected_version == 0) && not (p.now == 0))))

  -- `warrantyRepository.Create` and its like.
  unfoldable pub create : Store → String → CreatePartParams P → Result PushError (PartRow V × Store)
  unfolding create_part
  create s group p = if valid_creation p then create_part s group p else err invalid_params

  -- `warrantyRepository.Update` and its like: the versions of the changed columns are recorded.
  unfoldable pub update :
      Outside → Store → String → UpdatePartParams P → Result PushError (PartRow V × Store)
  unfolding update_part get_part
  update out s group p =
      if valid_update p
      then (do
        (row, s') ← update_part s group p
        elim (get_part s group p.item_id p.id) [
          | none ↦ err not_found
          | some before ↦ ok (
            row,
            record s' {
              field_versions =
                  record_field_versions group t.name row.id row.version p.now
                    (t.diff out before.values row.values) s'.field_versions;
            },
          )
        ])
      else err invalid_params
