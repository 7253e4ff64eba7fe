-- ===== src/Parts/Warranty.antt =====
-- The warranty of an item: server/internal/storage/warranty.go, and what `pushWarrantyBlock` of
-- server/internal/storage/push_commit.go knows of it.
use household_objects_srv.Prelude.{
  ℕ, String, str_eq, true, Bool, Option, none, some, List, [], ◌∷◌, if◌then◌else◌, Result, ok,
  ◌>>=◌, false, not, ◌&&◌, ◌||◌,
}
use household_objects_srv.Push.Rows.{PartRow, Warranty}
use household_objects_srv.Push.Types.{
  Store, PushMutation, PushOutcome, Outside, PushError, warranty_exists,
}
use household_objects_srv.Push.Storage.{null_string}
use household_objects_srv.Push.Merge.{
  or_zero, decode_string, merge_string, unless, string_from_null, null_eq,
}
use household_objects_srv.Push.Merge.Nullable.{decode_bool, merge_bool}
use household_objects_srv.Parts.{
  Table, one, CreatePartParams, UpdatePartParams, create_part, update_part, delete_part, create,
  update,
}
use household_objects_srv.Parts.Push.{Pushed, push_part}

-- The fields of `CreateWarrantyParams` and `UpdateWarrantyParams` besides the ids, the version and the time.
pub record WarrantyParams : Type 0 where
  pub holder : String
  pub provider : String
  pub starts_on : String
  pub expires_on : String
  pub is_lifetime : Bool
  pub notes : String

abbrev pub warranty_columns : WarrantyParams → Warranty
warranty_columns p = record {
  holder = p.holder;
  provider = p.provider;
  starts_on = null_string p.starts_on;
  expires_on = null_string p.expires_on;
  is_lifetime = p.is_lifetime;
  notes = p.notes;
}

abbrev bool_eq : Bool → Bool → Bool
bool_eq a b = (a && b) || (not a && not b)

-- `diffWarrantyFieldVersions`
unfoldable pub diff_warranty_fields : Warranty → Warranty → List String
diff_warranty_fields before after = unless (str_eq before.holder after.holder) "holder" (
    unless (str_eq before.provider after.provider) "provider" (
      unless (null_eq before.starts_on after.starts_on) "starts_on" (
        unless (null_eq before.expires_on after.expires_on) "expires_on" (
          unless (bool_eq before.is_lifetime after.is_lifetime) "is_lifetime"
            (unless (str_eq before.notes after.notes) "notes" [])))))

abbrev pub warranty_table : Table WarrantyParams Warranty
warranty_table = record {
  name = "warranty_block";
  count = one warranty_exists;
  rows = λ s. s.warranties;
  put = λ s rows. record s { warranties = rows };
  columns = warranty_columns;
  admits = λ s group v. true;
  valid = λ p. true;
  diff = λ out before after. diff_warranty_fields before after;
}

-- `pushWarrantyCreateFields`, and `pushWarrantyUpdateFields`, which are the same.
abbrev warranty_fields : List String
warranty_fields =
    "item_id" ∷ "holder" ∷ "provider" ∷ "starts_on" ∷ "expires_on" ∷ "is_lifetime" ∷ "notes" ∷ []

unfoldable pub decode_warranty : Outside → List (String × String) → Result PushError WarrantyParams
decode_warranty out fields = do
  holder ← decode_string out fields "holder"
  provider ← decode_string out fields "provider"
  starts_on ← decode_string out fields "starts_on"
  expires_on ← decode_string out fields "expires_on"
  is_lifetime ← decode_bool out fields "is_lifetime"
  notes ← decode_string out fields "notes"
  ok (record {
    holder = or_zero "" holder;
    provider = or_zero "" provider;
    starts_on = or_zero "" starts_on;
    expires_on = or_zero "" expires_on;
    is_lifetime = or_zero false is_lifetime;
    notes = or_zero "" notes;
  })

unfoldable pub merged_warranty :
    Outside → List (String × String) → (String → Bool) → Warranty → Result PushError WarrantyParams
merged_warranty out fields allow current = do
  holder ← merge_string out fields "holder" allow current.holder
  provider ← merge_string out fields "provider" allow current.provider
  starts_on ← merge_string out fields "starts_on" allow (string_from_null current.starts_on)
  expires_on ← merge_string out fields "expires_on" allow (string_from_null current.expires_on)
  is_lifetime ← merge_bool out fields "is_lifetime" allow current.is_lifetime
  notes ← merge_string out fields "notes" allow current.notes
  ok (record {
    holder = holder;
    provider = provider;
    starts_on = starts_on;
    expires_on = expires_on;
    is_lifetime = is_lifetime;
    notes = notes;
  })

-- The values that the conflict log shows.
abbrev pub shown_warranty : Outside → Warranty → String → Option String
shown_warranty out current name =
    if str_eq name "holder"
    then some (out.quote_string current.holder)
    else if str_eq name "provider"
    then some (out.quote_string current.provider)
    else if str_eq name "starts_on"
    then some (out.quote_string (string_from_null current.starts_on))
    else if str_eq name "expires_on"
    then some (out.quote_string (string_from_null current.expires_on))
    else if str_eq name "is_lifetime"
    then some (out.quote_bool current.is_lifetime)
    else if str_eq name "notes"
    then some (out.quote_string current.notes)
    else none

abbrev pub pushed_warranty : Pushed WarrantyParams Warranty
pushed_warranty = record {
  table = warranty_table;
  fields = warranty_fields;
  decode = decode_warranty;
  merged = merged_warranty;
  shown = shown_warranty;
  adjust = λ out fields split. split;
}

abbrev pub create_warranty :
    Store → String → CreatePartParams WarrantyParams → Result PushError (PartRow Warranty × Store)
create_warranty s group p = create_part warranty_table s group p

abbrev pub update_warranty :
    Store → String → UpdatePartParams WarrantyParams → Result PushError (PartRow Warranty × Store)
update_warranty s group p = update_part warranty_table s group p

-- `warrantyRepository.Create`, `Update` and `Delete`
abbrev pub create_recorded_warranty :
    Store → String → CreatePartParams WarrantyParams → Result PushError (PartRow Warranty × Store)
create_recorded_warranty s group p = create warranty_table s group p

abbrev pub update_recorded_warranty :
    Outside
    → Store
    → String
    → UpdatePartParams WarrantyParams
    → Result PushError (PartRow Warranty × Store)
update_recorded_warranty out s group p = update warranty_table out s group p

abbrev pub delete_warranty : Store → String → String → ℕ → Result PushError Store
delete_warranty s group item now = delete_part warranty_table s group item "" now

unfoldable pub push_warranty_block :
    Outside → Store → String → PushMutation → Result PushError (PushOutcome × Store)
unfolding push_part
push_warranty_block out s group m = push_part pushed_warranty out s group m
