-- ===== src/Push/Tests/Batch.antt =====
-- Batches of one client, and the same batches again: the theorems about `ApplyMutation` and `Push` at
-- concrete mutations, and runs of the code.
use mathlib.Core.Path.{subst}
use household_objects_srv.Prelude.{
  ℕ, String, str_eq, pos, ◌≡◌, refl, none, some, [], ◌∷◌, arith, if◌then◌else◌, ok, err, ◌==◌,
}
use household_objects_srv.Push.Types.{
  LedgerOutcome, Store, PushMutation, Outside, not_found, unknown_field,
}
use household_objects_srv.Push.Storage.{
  alloc_change_seq, lookup_ledger, insert_ledger, lookup_field_versions, upsert_field_version,
  record_field_versions, insert_conflict,
}
use household_objects_srv.Push.Items.{get_item, update_item, update_found, write_item}
use household_objects_srv.Push.Merge.{
  require_known_fields, decode_string, decode_int64, merge_string, merge_int64, tracked_version,
  split_fields, merge_policy, snapshot_values, diff_item_fields,
}
use household_objects_srv.Push.Item.{
  push_item, push_existing_item, push_fields, write_merged, finish_item,
}
use household_objects_srv.Push.Item.Keeps.{push_item-Safe}
use household_objects_srv.Push.Apply.{
  Handler, Handlers, apply_mutation, apply_in_tx, apply_new, choose_handler, validate,
  record_outcome, record_conflicts, minted,
}
use household_objects_srv.Push.Apply.Ledger.{
  KeepsLog, HandlersKeepLog, Applied, apply_mutation-Applied,
}
use household_objects_srv.Push.Batch.{
  PushResult, mutation_error, push, push_from, finish_push, watermark, add_outcome, empty_result,
}
use household_objects_srv.Push.Batch.Replay.{push_again, push_resumes}
use household_objects_srv.Push.Tests.{outside, before, edit, after_edit, edit_outcome}

abbrev no_delete : Handler
no_delete s group m = err not_found

abbrev push_item_handler : Handler
push_item_handler s group m = push_item (outside "u0" "u1") s group m

abbrev item_handlers : Handlers
item_handlers = record {
  dispatch = λ name. if str_eq name "item" then some push_item_handler else none;
  delete_item_label = no_delete;
}

item_handler :
    (name : String) (handler : Handler)
    → item_handlers.dispatch name ≡ some handler
    → push_item_handler ≡ handler
item_handler name handler h = ground arith

item_handlers-HandlersKeepLog : HandlersKeepLog item_handlers
item_handlers-HandlersKeepLog = record {
  dispatched = λ name handler h. subst KeepsLog (item_handler name handler h) (λ s group m o s' run.
      let safe = push_item-Safe (outside "u0" "u1") s group m o s' run in (safe.0, safe.1));
  deleted = λ s group m o s' run. absurd (ground arith);
}

abbrev outs : ℕ → Outside
outs i = if i == 0 then outside "a0" "a1" else outside "b0" "b1"

-- The edit, then one that sends a field that no item has.
abbrev bad_edit : PushMutation
bad_edit = record edit { mutation_id = "m2"; fields = ("colour", "red") ∷ [] }

abbrev after_push : Store
after_push = record after_edit {
  mutations =
      record {
        id = "a0";
        group_id = "g";
        mutation_id = "m1";
        entity_type = "item";
        entity_id = "i";
        outcome = LedgerOutcome.applied;
        applied_at = 100;
      }
      ∷ [];
  conflicts =
      record {
        id = "a1";
        group_id = "g";
        entity_type = "item";
        entity_id = "i";
        field_name = "name";
        server_value_snapshot = some "Drill";
        losing_client_value_snapshot = some "Saw";
        detected_at = 100;
        mutation_id = some "a0";
      }
      ∷ [];
}

abbrev pushed : PushResult
pushed = record {
  applied = record { mutation_id = "m1"; entity_type = "item"; entity_id = "i"; version = 4 } ∷ [];
  skipped = [];
  conflicts =
      record { mutation_id = "m1"; entity_type = "item"; entity_id = "i"; field_name = "name" }
      ∷ [];
  new_watermark = 6;
}

-- The handler's outcome is written to the ledger and to the conflict log.
edit_applied :
    apply_mutation (outs 0) item_handlers before "g" edit
    ≡ ok (record edit_outcome { entity_type = "item"; entity_id = "i" }, after_push)
unfolding apply_mutation apply_in_tx apply_new choose_handler validate lookup_ledger record_outcome
    minted insert_ledger record_conflicts insert_conflict push_item push_existing_item push_fields
    write_merged finish_item require_known_fields get_item merge_policy split_fields
    lookup_field_versions tracked_version snapshot_values merge_string merge_int64 decode_string
    decode_int64 update_item update_found alloc_change_seq write_item record_field_versions
    upsert_field_version diff_item_fields
edit_applied = refl

apply_mutation-Applied_example :
    Applied item_handlers "g" edit before
      (record edit_outcome { entity_type = "item"; entity_id = "i" })
      after_push
apply_mutation-Applied_example =
    apply_mutation-Applied (outs 0) item_handlers before "g" edit
      (record edit_outcome { entity_type = "item"; entity_id = "i" }) after_push
      item_handlers-HandlersKeepLog edit_applied

push_run : push outs item_handlers "g" (pos 100) (edit ∷ []) before ≡ (ok pushed, after_push)
unfolding push push_from finish_push add_outcome watermark apply_mutation apply_in_tx apply_new
    choose_handler validate lookup_ledger record_outcome minted insert_ledger record_conflicts
    insert_conflict push_item push_existing_item push_fields write_merged finish_item
    require_known_fields get_item merge_policy split_fields lookup_field_versions tracked_version
    snapshot_values merge_string merge_int64 decode_string decode_int64 update_item update_found
    alloc_change_seq write_item record_field_versions upsert_field_version diff_item_fields
push_run = refl

push_again_example : push outs item_handlers "g" (pos 170) (edit ∷ []) after_push ≡ (
  ok (record { applied = []; skipped = "m1" ∷ []; conflicts = []; new_watermark = 6 }),
  after_push,
)
push_again_example =
    push_again outs outs item_handlers item_handlers "g" (pos 100) (pos 170) (edit ∷ []) before
      pushed after_push item_handlers-HandlersKeepLog refl push_run

failed_run :
    push outs item_handlers "g" (pos 100) (edit ∷ bad_edit ∷ []) before
    ≡ (err (mutation_error 1 "m2" (unknown_field "colour")), after_push)
unfolding push push_from finish_push add_outcome watermark apply_mutation apply_in_tx apply_new
    choose_handler validate lookup_ledger record_outcome minted insert_ledger record_conflicts
    insert_conflict push_item push_existing_item push_fields write_merged finish_item
    require_known_fields get_item merge_policy split_fields lookup_field_versions tracked_version
    snapshot_values merge_string merge_int64 decode_string decode_int64 update_item update_found
    alloc_change_seq write_item record_field_versions upsert_field_version diff_item_fields
failed_run = refl

push_resumes_example :
    push outs item_handlers "g" (pos 170) (edit ∷ bad_edit ∷ []) after_push
    ≡ push_from outs item_handlers "g"
        (pos 170)
        1
        (bad_edit ∷ [])
        (record empty_result { skipped = "m1" ∷ [] })
        after_push
push_resumes_example =
    push_resumes outs outs item_handlers item_handlers "g" (pos 100) (pos 170)
      (edit ∷ bad_edit ∷ []) before (mutation_error 1 "m2" (unknown_field "colour")) 1 after_push
      item_handlers-HandlersKeepLog refl failed_run refl
