-- ===== src/Push/Apply.antt =====
-- `ApplyMutation` of server/internal/storage/push_commit.go, and the batch that
-- server/internal/sync/push.go makes of it. The handler of each entity type is the argument
-- `handlers`, as the source looks it up in the table `pushEntityDispatch`.
pub mod Logged
pub mod Ledger
use household_objects_srv.Prelude.{
  ℕ, zero, suc, ◌+◌, String, str_eq, ℤ, pos, negsuc, pos_part, Bool, true, false, Option, none,
  some, List, [], ◌∷◌, ◌++◌, if◌then◌else◌, Result, ok, err, ◌>>=◌, ◌>>◌, find?,
}
use household_objects_srv.Push.Types.{
  Store, PushMutation, PushOutcome, Outside, LedgerOutcome, LedgerRow, ConflictRow, PushError,
  unknown_entity_type, unknown_field, missing_field, invalid_field_value, attachment_rejected,
  creation_only, unknown_op, delete_not_supported, bad_now, not_found, no_row_id,
}
use household_objects_srv.Push.Storage.{
  is_some, null_string, lookup_ledger, insert_ledger, insert_conflict,
}
use household_objects_srv.Push.Merge.{entity_field, raw_field, or_zero}

abbrev pub Handler : Type 0
Handler = Store → String → PushMutation → Result PushError (PushOutcome × Store)

-- `pushEntityDispatch`, and `pushItemLabelDelete`.
pub record Handlers : Type 0 where
  pub dispatch : String → Option Handler
  pub delete_item_label : Handler

abbrev negative : ℤ → Bool
negative (pos n) = false
negative (negsuc n) = true

abbrev pub positive : ℤ → Bool
positive (pos zero) = false
positive (pos (suc n)) = true
positive (negsuc n) = false

-- `PushMutation.validate`
unfoldable pub validate : PushMutation → Result PushError (Unit {0})
validate m =
    if str_eq m.mutation_id ""
    then err (missing_field "mutation_id")
    else if str_eq m.entity_type ""
    then err (missing_field "entity_type")
    else if str_eq m.entity_id ""
    then err (missing_field "entity_id")
    else if negative m.base_version
    then err (invalid_field_value "base_version")
    else if positive m.now
    then ok tt
    else err bad_now

-- `PushOp.normalized`
abbrev normalized : String → String
normalized op = if str_eq op "" then "upsert" else op

-- The switch on the operation.
unfoldable pub choose_handler : Handlers → PushMutation → Result PushError Handler
choose_handler handlers m =
    if str_eq (normalized m.op) "delete"
    then (if str_eq m.entity_type "item_label"
        then ok handlers.delete_item_label
        else err (delete_not_supported m.entity_type))
    else if str_eq (normalized m.op) "upsert"
    then elim (handlers.dispatch m.entity_type) [
      | none ↦ err (unknown_entity_type m.entity_type)
      | some handler ↦ ok handler
    ]
    else err (unknown_op m.op)

abbrev pub named_outcome : PushMutation → PushOutcome → PushOutcome
named_outcome m outcome = record outcome {
  entity_type = m.entity_type;
  entity_id = if str_eq outcome.entity_id "" then m.entity_id else outcome.entity_id;
}

-- The client's value that loses a conflict.
abbrev losing_value : PushMutation → String → String
losing_value m name = if str_eq name entity_field then "" else or_zero "" (raw_field m.fields name)

-- `uuid.NewV7`
unfoldable pub minted : Option String → Result PushError String
minted none = err no_row_id
minted (some id) = ok id

abbrev conflict_row : String → PushMutation → PushOutcome → String → String → String → ConflictRow
conflict_row group m outcome ledger_id id name = record {
  id = id;
  group_id = group;
  entity_type = m.entity_type;
  entity_id = outcome.entity_id;
  field_name = name;
  server_value_snapshot = null_string (or_zero "" (raw_field outcome.field_snapshots name));
  losing_client_value_snapshot = null_string (losing_value m name);
  detected_at = pos_part m.now;
  mutation_id = null_string ledger_id;
}

-- One row of the conflict log for each field; `n` UUIDs have been minted before.
unfoldable pub record_conflicts :
    Outside
    → String
    → PushMutation
    → PushOutcome
    → String
    → ℕ
    → List String
    → Store
    → Result PushError Store
record_conflicts out group m outcome ledger_id n [] s = ok s
record_conflicts out group m outcome ledger_id n (name ∷ names) s = do
  id ← minted (out.uuid n)
  s' ← insert_conflict s (conflict_row group m outcome ledger_id id name)
  record_conflicts out group m outcome ledger_id (suc n) names s'

abbrev ledger_outcome : PushOutcome → LedgerOutcome
ledger_outcome outcome = if outcome.applied then LedgerOutcome.applied else LedgerOutcome.conflict

abbrev ledger_row : String → PushMutation → PushOutcome → String → LedgerRow
ledger_row group m outcome id = record {
  id = id;
  group_id = group;
  mutation_id = m.mutation_id;
  entity_type = m.entity_type;
  entity_id = outcome.entity_id;
  outcome = ledger_outcome outcome;
  applied_at = pos_part m.now;
}

-- The ledger row and the conflict rows of an outcome.
unfoldable pub record_outcome :
    Outside → String → PushMutation → PushOutcome → Store → Result PushError Store
record_outcome out group m outcome s = do
  ledger_id ← minted (out.uuid 0)
  s' ← insert_ledger s (ledger_row group m outcome ledger_id)
  record_conflicts out group m outcome ledger_id 1 outcome.conflict_fields s'

abbrev pub skipped_outcome : PushMutation → PushOutcome
skipped_outcome m = record {
  skipped = true;
  applied = false;
  entity_type = m.entity_type;
  entity_id = m.entity_id;
  version = 0;
  conflict_fields = [];
  field_snapshots = [];
}

-- The body of the transaction of a mutation that the ledger does not hold.
unfoldable pub apply_new : Outside → Handlers → Handler
apply_new out handlers s group m = do
  handler ← choose_handler handlers m
  (result, s') ← handler s group m
  s'' ← record_outcome out group m (named_outcome m result) s'
  ok (named_outcome m result, s'')

unfoldable pub apply_in_tx : Outside → Handlers → Handler
apply_in_tx out handlers s group m = elim (lookup_ledger s group m.mutation_id) [
  | some entry ↦ ok (skipped_outcome m, s)
  | none ↦ apply_new out handlers s group m
]

-- An error ends the transaction, and nothing of it is written: the result holds no store then.
unfoldable pub apply_mutation : Outside → Handlers → Handler
apply_mutation out handlers s group m = do validate m; apply_in_tx out handlers s group m

-- `IsPushStructuralError`
abbrev pub structural : PushError → Bool
structural (unknown_entity_type x) = true
structural (unknown_field x) = true
structural (missing_field x) = true
structural (invalid_field_value x) = true
structural (attachment_rejected x) = true
structural (creation_only x) = true
structural (unknown_op x) = true
structural (delete_not_supported x) = true
structural _ = false
