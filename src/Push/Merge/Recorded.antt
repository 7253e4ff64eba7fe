-- ===== src/Push/Merge/Recorded.antt =====
-- The field versions that `recordFieldVersionsTx` of server/internal/storage/field_versions_record.go
-- writes, as the merge policy of server/internal/storage/push_commit.go reads them.
use household_objects_srv.Prelude.{
  ℕ, String, str_eq, eq_iff, ◌≡◌, refl, sym, ap, ◌∙◌, Bool, true, false, ◌||◌, Option, none, some,
  List, [], ◌∷◌, ◌++◌, inl, inr, arith, if◌then◌else◌, Bool-cases, select, select-append, find?,
  update_where,
}
use household_objects_srv.Push.Types.{FieldVersionRow}
use household_objects_srv.Push.Storage.{
  is_some, version_key, field_key, upsert_field_version, record_field_versions,
}
use household_objects_srv.Push.Merge.{contains, tracked_version}

abbrev noted : FieldVersionRow → FieldVersionRow → FieldVersionRow
noted row r = record r { version = row.version; updated_at = row.updated_at }

abbrev keyed : FieldVersionRow → FieldVersionRow → Bool
keyed row r = version_key row.group_id row.entity_type row.entity_id r

tracked-append :
    (row : FieldVersionRow) (xs : List FieldVersionRow) (name : String)
    → tracked_version (xs ++ row ∷ []) name
      ≡ (if str_eq row.field_name name then some row.version else tracked_version xs name)
unfolding tracked_version
tracked-append row [] name = refl
tracked-append row (x ∷ xs) name = ground (arith, tracked-append row xs name)

tracked-noted :
    (row : FieldVersionRow) (rows : List FieldVersionRow)
    → tracked_version
        (select (keyed row) (update_where (field_key row) (noted row) rows))
        row.field_name
      ≡ (if is_some (find? (field_key row) rows) then some row.version else none)
unfolding tracked_version
tracked-noted row [] = refl
tracked-noted row (r ∷ rows) = ground (arith, tracked-noted row rows)

tracked-noted_other :
    (row : FieldVersionRow) (rows : List FieldVersionRow) (name : String)
    → str_eq row.field_name name ≡ false
    → tracked_version (select (keyed row) (update_where (field_key row) (noted row) rows)) name
      ≡ tracked_version (select (keyed row) rows) name
unfolding tracked_version
tracked-noted_other row [] name h = refl
tracked-noted_other row (r ∷ rows) name h =
    ground (arith, tracked-noted_other row rows name h, eq_iff r.field_name row.field_name)

keyed_self : (row : FieldVersionRow) → keyed row row ≡ true
keyed_self row = ground (
  arith,
  (eq_iff row.group_id row.group_id).1 refl,
  (eq_iff row.entity_type row.entity_type).1 refl,
  (eq_iff row.entity_id row.entity_id).1 refl,
)

-- After an upsert the field of the row is read at its version, and any other as before.
upsert-tracked :
    (row : FieldVersionRow) (rows : List FieldVersionRow) (name : String)
    → tracked_version (select (keyed row) (upsert_field_version row rows)) name ≡ (
        if str_eq row.field_name name
        then some row.version
        else tracked_version (select (keyed row) rows) name)
unfolding upsert_field_version
upsert-tracked row rows name = elim (Bool-cases (is_some (find? (field_key row) rows))) [
  | inl there ↦ elim (Bool-cases (str_eq row.field_name name)) [
    | inl e ↦
        let same : row.field_name ≡ name = (eq_iff row.field_name name).0 e in
        rw (there, upsert_field_version, e)
          (ap (tracked_version (select (keyed row) (update_where (field_key row) (noted row) rows)))
              (sym same)
            ∙ tracked-noted row rows
            ∙ rw there refl)
    | inr e ↦ rw (there, upsert_field_version, e) (tracked-noted_other row rows name e)
  ]
  | inr new ↦
      rw (new, upsert_field_version)
        (ap (λ (l : List FieldVersionRow). tracked_version l name)
            (select-append (keyed row) rows (row ∷ []) ∙ rw (keyed_self row) refl)
          ∙ tracked-append row (select (keyed row) rows) name)
]

either :
    (a b : Bool) (new old : Option ℕ)
    → (if b then new else if a then new else old) ≡ (if a || b then new else old)
either true true new old = refl
either true false new old = refl
either false b new old = refl

-- After the versions of the changed fields of an entity were recorded, the merge policy reads the
-- recorded version for each of these fields, and what it read before for every other field.
pub record_field_versions-tracked :
    (group entity_type entity_id : String) (version now : ℕ) (fields : List String)
    (rows : List FieldVersionRow) (name : String)
    → tracked_version
        (select
          (version_key group entity_type entity_id)
          (record_field_versions group entity_type entity_id version now fields rows))
        name
      ≡ (if contains fields name
          then some version
          else tracked_version (select (version_key group entity_type entity_id) rows) name)
unfolding record_field_versions
record_field_versions-tracked group entity_type entity_id version now [] rows name = refl
record_field_versions-tracked group entity_type entity_id version now (field ∷ fields) rows name =
    let row : FieldVersionRow = record {
      group_id = group;
      entity_type = entity_type;
      entity_id = entity_id;
      field_name = field;
      version = version;
      updated_at = now;
    } in
    let rest =
      record_field_versions-tracked group entity_type entity_id version now fields
        (upsert_field_version row rows) name in
    rest
    ∙ ap (λ (o : Option ℕ). if contains fields name then some version else o)
        (upsert-tracked row rows name)
    ∙ either (str_eq field name) (contains fields name) (some version)
        (tracked_version (select (version_key group entity_type entity_id) rows) name)
