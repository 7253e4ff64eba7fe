-- ===== src/Push/Item/Values.antt =====
-- The values that the merge of `pushItem` in server/internal/storage/push_commit.go gives an item's
-- fields, against a description of the merge, field by field.
use household_objects_srv.Prelude.{
  ℕ, String, str_eq, eq_iff, ℤ, ◌≡◌, ap, ◌∙◌, Bool, true, false, Option, none, some, List, inl, inr,
  arith, if◌then◌else◌, Bool-cases, Option-cases, ok, All,
}
use household_objects_srv.Push.Types.{ItemRow, PushMutation, Outside}
use household_objects_srv.Push.Storage.{null_string}
use household_objects_srv.Push.Items.{updated_item}
use household_objects_srv.Push.Merge.{
  raw_field, decode_string, decode_int64, merge_string, merge_int64, string_from_null,
}
use household_objects_srv.Push.Item.{item_fields, merged_params}

-- The value of a field that a push may send.
pub data FieldValue : Type 0 where
  text : String → FieldValue
  number : ℤ → FieldValue

unfoldable pub field_value : ItemRow → String → FieldValue
field_value r name =
    if str_eq name "name"
    then text r.name
    else if str_eq name "description"
    then text r.description
    else if str_eq name "location_id"
    then text (string_from_null r.location_id)
    else number r.quantity

abbrev wrapped : {A : Type 0} → (A → FieldValue) → Option A → Option FieldValue
wrapped wrap none = none
wrapped wrap (some v) = some (wrap v)

abbrev sent_as :
    {A : Type 0} → (String → Option A) → (A → FieldValue) → Option String → Option FieldValue
sent_as decode wrap none = none
sent_as decode wrap (some raw) = wrapped wrap (decode raw)

-- The value that the client sent for a field, if it did.
unfoldable pub sent_value : Outside → List (String × String) → String → Option FieldValue
sent_value out fields name =
    if str_eq name "quantity"
    then sent_as out.json_int64 number (raw_field fields name)
    else sent_as out.json_string text (raw_field fields name)

abbrev pub chosen : Bool → FieldValue → Option FieldValue → FieldValue
chosen true current none = current
chosen true current (some sent) = sent
chosen false current sent = current

-- The merge, field by field: a field that is allowed takes what the client sent for it, and any other
-- keeps its value.
unfoldable pub merged_value :
    Outside → List (String × String) → (String → Bool) → ItemRow → String → FieldValue
merged_value out fields allow current name =
    chosen (allow name) (field_value current name) (sent_value out fields name)

merge_string-value :
    (out : Outside) (fields : List (String × String)) (name : String) (allow : String → Bool)
    (current v : String)
    → merge_string out fields name allow current ≡ ok v
    → text v
      ≡ chosen (allow name) (text current) (sent_as out.json_string text (raw_field fields name))
unfolding merge_string decode_string
merge_string-value out fields name allow current v h = elim (Bool-cases (allow name)) [
  | inl e ↦ elim (Option-cases (raw_field fields name)) [
    | inl none_sent ↦
        rw (e, none_sent) (ground (arith, rw (e, none_sent, merge_string, decode_string) at h))
    | inr (raw, sent) ↦ elim (Option-cases (out.json_string raw)) [
      | inl bad ↦ absurd (ground (arith, rw (e, sent, bad, merge_string, decode_string) at h))
      | inr (w, good) ↦
          rw (e, sent, good) (ground (arith, rw (e, sent, good, merge_string, decode_string) at h))
    ]
  ]
  | inr e ↦ rw e (ground (arith, rw (e, merge_string) at h))
]

merge_int64-value :
    (out : Outside) (fields : List (String × String)) (name : String) (allow : String → Bool)
    (current v : ℤ)
    → merge_int64 out fields name allow current ≡ ok v
    → number v
      ≡ chosen (allow name) (number current) (sent_as out.json_int64 number (raw_field fields name))
unfolding merge_int64 decode_int64
merge_int64-value out fields name allow current v h = elim (Bool-cases (allow name)) [
  | inl e ↦ elim (Option-cases (raw_field fields name)) [
    | inl none_sent ↦
        rw (e, none_sent) (ground (arith, rw (e, none_sent, merge_int64, decode_int64) at h))
    | inr (raw, sent) ↦ elim (Option-cases (out.json_int64 raw)) [
      | inl bad ↦ absurd (ground (arith, rw (e, sent, bad, merge_int64, decode_int64) at h))
      | inr (w, good) ↦
          rw (e, sent, good) (ground (arith, rw (e, sent, good, merge_int64, decode_int64) at h))
    ]
  ]
  | inr e ↦ rw e (ground (arith, rw (e, merge_int64) at h))
]

string_from_null-null_string : (s : String) → string_from_null (null_string s) ≡ s
string_from_null-null_string s = ground (arith, eq_iff s "")

-- A row that has the merged value of each of its four fields.
abbrev pub MergedRow : Outside → PushMutation → (String → Bool) → ItemRow → ItemRow → Type 0
MergedRow out m allow current r =
    All (λ (name : String). field_value r name ≡ merged_value out m.fields allow current name)
      item_fields

pub updated_item-MergedRow :
    (out : Outside) (m : PushMutation) (allow : String → Bool) (current : ItemRow)
    (name description location_id : String) (quantity : ℤ) (seq : ℕ)
    → merge_string out m.fields "name" allow current.name ≡ ok name
    → merge_string out m.fields "description" allow current.description ≡ ok description
    → merge_string out m.fields "location_id" allow (string_from_null current.location_id)
      ≡ ok location_id
    → merge_int64 out m.fields "quantity" allow current.quantity ≡ ok quantity
    → MergedRow out m allow current
        (updated_item (merged_params m current name description location_id quantity) seq current)
unfolding field_value sent_value merged_value
updated_item-MergedRow out m allow current name description location_id quantity seq h₀ h₁ h₂ h₃ =
    let location : text (string_from_null (null_string location_id))
        ≡ merged_value out m.fields allow current "location_id" =
      ap text (string_from_null-null_string location_id)
      ∙ merge_string-value out m.fields "location_id" allow (string_from_null current.location_id)
          location_id h₂ in
    (
      merge_string-value out m.fields "name" allow current.name name h₀,
      (
        merge_string-value out m.fields "description" allow current.description description h₁,
        (
          location,
          (merge_int64-value out m.fields "quantity" allow current.quantity quantity h₃, tt),
        ),
      ),
    )
