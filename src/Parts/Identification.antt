-- ===== src/Parts/Identification.antt =====
-- The identifications of an item: server/internal/storage/item_identifications.go, and what
-- `pushItemIdentification` of server/internal/storage/push_commit.go knows of them.
use household_objects_srv.Prelude.{
  ℕ, String, str_eq, Bool, not, ◌&&◌, Option, none, some, List, [], ◌∷◌, if◌then◌else◌, Result, ok,
  ◌>>=◌,
}
use household_objects_srv.Push.Rows.{PartRow, Identification}
use household_objects_srv.Push.Types.{Store, PushMutation, PushOutcome, Outside, PushError}
use household_objects_srv.Push.Merge.{contains, or_zero, decode_string, merge_string, unless}
use household_objects_srv.Parts.{
  Table, many, CreatePartParams, UpdatePartParams, create_part, update_part, delete_part, create,
  update,
}
use household_objects_srv.Parts.Push.{Pushed, push_part}

-- The CHECK on `kind`.
abbrev pub kinds : List String
kinds = "serial" ∷ "model" ∷ "asset_tag" ∷ "barcode" ∷ "other" ∷ []

-- `diffIdentificationFieldVersions`
unfoldable pub diff_identification_fields : Identification → Identification → List String
diff_identification_fields before after =
    unless (str_eq before.kind after.kind) "kind"
      (unless (str_eq before.value after.value) "value" [])

-- The table is written from what it stores.
abbrev pub identification_table : Table Identification Identification
identification_table = record {
  name = "item_identification";
  count = many;
  rows = λ s. s.identifications;
  put = λ s rows. record s { identifications = rows };
  columns = λ p. p;
  admits = λ s group v. contains kinds v.kind;
  valid = λ p. not (str_eq p.kind "") && not (str_eq p.value "");
  diff = λ out before after. diff_identification_fields before after;
}

-- `pushIdentificationCreateFields`, and `pushIdentificationUpdateFields`, which are the same.
abbrev identification_fields : List String
identification_fields = "item_id" ∷ "kind" ∷ "value" ∷ []

unfoldable pub decode_identification :
    Outside → List (String × String) → Result PushError Identification
decode_identification out fields = do
  kind ← decode_string out fields "kind"
  value ← decode_string out fields "value"
  ok (record { kind = or_zero "" kind; value = or_zero "" value })

unfoldable pub merged_identification :
    Outside
    → List (String × String)
    → (String → Bool)
    → Identification
    → Result PushError Identification
merged_identification out fields allow current = do
  kind ← merge_string out fields "kind" allow current.kind
  value ← merge_string out fields "value" allow current.value
  ok (record { kind = kind; value = value })

-- The values that the conflict log shows.
abbrev pub shown_identification : Outside → Identification → String → Option String
shown_identification out current name =
    if str_eq name "kind"
    then some (out.quote_string current.kind)
    else if str_eq name "value"
    then some (out.quote_string current.value)
    else none

abbrev pub pushed_identification : Pushed Identification Identification
pushed_identification = record {
  table = identification_table;
  fields = identification_fields;
  decode = decode_identification;
  merged = merged_identification;
  shown = shown_identification;
  adjust = λ out fields split. split;
}

abbrev pub create_identification :
    Store
    → String
    → CreatePartParams Identification
    → Result PushError (PartRow Identification × Store)
create_identification s group p = create_part identification_table s group p

abbrev pub update_identification :
    Store
    → String
    → UpdatePartParams Identification
    → Result PushError (PartRow Identification × Store)
update_identification s group p = update_part identification_table s group p

-- `identificationRepository.Create`, `Update` and `Delete`
abbrev pub create_recorded_identification :
    Store
    → String
    → CreatePartParams Identification
    → Result PushError (PartRow Identification × Store)
create_recorded_identification s group p = create identification_table s group p

abbrev pub update_recorded_identification :
    Outside
    → Store
    → String
    → UpdatePartParams Identification
    → Result PushError (PartRow Identification × Store)
update_recorded_identification out s group p = update identification_table out s group p

abbrev pub delete_identification : Store → String → String → String → ℕ → Result PushError Store
delete_identification s group item id now = delete_part identification_table s group item id now

unfoldable pub push_item_identification :
    Outside → Store → String → PushMutation → Result PushError (PushOutcome × Store)
unfolding push_part
push_item_identification out s group m = push_part pushed_identification out s group m
