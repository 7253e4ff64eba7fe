-- ===== src/Push/Storage.antt =====
-- The statements that a push runs in its transaction: the change counter
-- (server/internal/storage/internal/db/changeseq.go), the mutation ledger, the field versions and
-- the conflict log (server/internal/storage/push.go, field_versions_record.go and the queries).
-- Failures of the database other than constraints are not modelled.
use household_objects_srv.Prelude.{
  ℕ, ◌+◌, String, str_eq, Bool, true, false, ◌&&◌, Option, none, some, List, [], ◌∷◌, ◌++◌,
  if◌then◌else◌, Result, ok, err, select, find?, update_where,
}
use household_objects_srv.Push.Types.{
  GroupRow, LedgerRow, FieldVersionRow, ConflictRow, Store, PushError, group_not_found,
  already_recorded, constraint_failed,
}

abbrev pub is_some : {A : Type 0} → Option A → Bool
is_some none = false
is_some (some a) = true

-- `nullString`: the empty text is NULL.
abbrev pub null_string : String → Option String
null_string s = if str_eq s "" then none else some s

abbrev pub group_is : String → GroupRow → Bool
group_is group g = str_eq g.id group

-- `AllocChangeSeq`: UPDATE ... SET change_seq_counter = change_seq_counter + 1 ... RETURNING.
unfoldable pub alloc_change_seq : Store → String → Result PushError (ℕ × Store)
alloc_change_seq s group = elim (find? (group_is group) s.groups) [
  | none ↦ err group_not_found
  | some g ↦ ok (
    g.change_seq_counter + 1,
    record s {
      groups =
          update_where (group_is group)
            (λ r. record r { change_seq_counter = r.change_seq_counter + 1 }) s.groups;
    },
  )
]

abbrev pub ledger_is : String → String → LedgerRow → Bool
ledger_is group mutation_id r = str_eq r.group_id group && str_eq r.mutation_id mutation_id

-- `lookupMutationLedgerEntryTx`
unfoldable pub lookup_ledger : Store → String → String → Option LedgerRow
lookup_ledger s group mutation_id = find? (ledger_is group mutation_id) s.mutations

-- `insertMutationLedgerEntryTx`: the primary key is checked before the unique index.
unfoldable pub insert_ledger : Store → LedgerRow → Result PushError Store
unfolding lookup_ledger
insert_ledger s row =
    if is_some (find? (λ r. str_eq r.id row.id) s.mutations)
    then err constraint_failed
    else if is_some (lookup_ledger s row.group_id row.mutation_id)
    then err already_recorded
    else ok (record s { mutations = s.mutations ++ row ∷ [] })

abbrev pub version_key : String → String → String → FieldVersionRow → Bool
version_key group entity_type entity_id r =
    str_eq r.group_id group && str_eq r.entity_type entity_type && str_eq r.entity_id entity_id

-- `lookupFieldVersionsTx`
unfoldable pub lookup_field_versions : Store → String → String → String → List FieldVersionRow
lookup_field_versions s group entity_type entity_id =
    select (version_key group entity_type entity_id) s.field_versions

abbrev pub field_key : FieldVersionRow → FieldVersionRow → Bool
field_key row r =
    version_key row.group_id row.entity_type row.entity_id r && str_eq r.field_name row.field_name

-- `upsertFieldVersionTx`: INSERT ... ON CONFLICT ... DO UPDATE.
unfoldable pub upsert_field_version : FieldVersionRow → List FieldVersionRow → List FieldVersionRow
upsert_field_version row rows =
    if is_some (find? (field_key row) rows)
    then update_where (field_key row)
        (λ r. record r { version = row.version; updated_at = row.updated_at }) rows
    else rows ++ row ∷ []

-- `recordFieldVersionsTx`: one upsert for each changed field.
unfoldable pub record_field_versions :
    String → String → String → ℕ → ℕ → List String → List FieldVersionRow → List FieldVersionRow
unfolding upsert_field_version
record_field_versions group entity_type entity_id version now [] rows = rows
record_field_versions group entity_type entity_id version now (field ∷ fields) rows =
    record_field_versions group entity_type entity_id version now fields (
      upsert_field_version
        (record {
          group_id = group;
          entity_type = entity_type;
          entity_id = entity_id;
          field_name = field;
          version = version;
          updated_at = now;
        })
        rows)

-- `insertConflictTx`: the row's mutation must be in the ledger of the same household.
unfoldable pub insert_conflict : Store → ConflictRow → Result PushError Store
insert_conflict s row =
    if is_some (find? (λ r. str_eq r.id row.id) s.conflicts)
    then err constraint_failed
    else elim row.mutation_id [
      | none ↦ ok (record s { conflicts = s.conflicts ++ row ∷ [] })
      | some id ↦
          if is_some (find? (λ r. str_eq r.group_id row.group_id && str_eq r.id id) s.mutations)
          then ok (record s { conflicts = s.conflicts ++ row ∷ [] })
          else err constraint_failed
    ]
