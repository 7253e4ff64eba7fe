-- ===== src/Push/Batch.antt =====
-- `Push` of server/internal/sync/push.go: the mutations of a batch, each in a transaction of its own.
pub mod Stopped
pub mod Replay
use household_objects_srv.Prelude.{
  ℕ, zero, suc, ◌+◌, String, str_eq, ℤ, Bool, true, false, ◌&&◌, not, Option, none, some, List, [],
  ◌∷◌, ◌++◌, map, if◌then◌else◌, Result, ok, err, find?,
}
use household_objects_srv.Push.Types.{
  GroupRow, Store, PushMutation, PushOutcome, Outside, PushError, no_rows,
}
use household_objects_srv.Push.Storage.{is_some}
use household_objects_srv.Push.Apply.{Handlers, apply_mutation, structural}

pub record AppliedEntry : Type 0 where
  pub mutation_id : String
  pub entity_type : String
  pub entity_id : String
  pub version : ℕ

pub record ConflictEntry : Type 0 where
  pub mutation_id : String
  pub entity_type : String
  pub entity_id : String
  pub field_name : String

pub record PushResult : Type 0 where
  pub applied : List AppliedEntry
  pub skipped : List String
  pub conflicts : List ConflictEntry
  pub new_watermark : ℕ

-- `PushMutationError` for what the client can mend, and any other error at a mutation.
pub data BatchError : Type 0 where
  mutation_error other_error : ℕ → String → PushError → BatchError
  watermark_error : PushError → BatchError

-- `Watermark`: the change counter of the household, if it is not deleted.
unfoldable pub watermark : Store → String → Result PushError ℕ
watermark s group =
    elim (find? (λ (g : GroupRow). str_eq g.id group && not (is_some g.deleted_at)) s.groups) [
      | none ↦ err no_rows
      | some g ↦ ok g.change_seq_counter
    ]

abbrev pub empty_result : PushResult
empty_result = record { applied = []; skipped = []; conflicts = []; new_watermark = 0 }

-- What the loop appends to the result for one outcome.
unfoldable pub add_outcome : PushMutation → PushOutcome → PushResult → PushResult
add_outcome m outcome result =
    if outcome.skipped
    then record result { skipped = result.skipped ++ m.mutation_id ∷ [] }
    else record result {
      applied =
          if outcome.applied
          then result.applied
            ++ record {
              mutation_id = m.mutation_id;
              entity_type = outcome.entity_type;
              entity_id = outcome.entity_id;
              version = outcome.version;
            }
              ∷ []
          else result.applied;
      conflicts =
          result.conflicts
          ++ map
              (λ field. record {
                mutation_id = m.mutation_id;
                entity_type = outcome.entity_type;
                entity_id = outcome.entity_id;
                field_name = field;
              })
              outcome.conflict_fields;
    }

abbrev batch_error : ℕ → PushMutation → PushError → BatchError
batch_error i m e =
    if structural e then mutation_error i m.mutation_id e else other_error i m.mutation_id e

unfoldable pub finish_push : Store → String → PushResult → Result BatchError PushResult × Store
finish_push s group result = elim (watermark s group) [
  | err e ↦ (err (watermark_error e), s)
  | ok w ↦ (ok (record result { new_watermark = w }), s)
]

-- The loop from index `i` on; what earlier mutations wrote stays written when a later one fails.
-- `now` is the time of the batch, which each mutation is given. Each mutation mints UUIDs and draws codes of its own: `outs` gives those of the mutation at `i`.
unfoldable pub push_from :
    (ℕ → Outside)
    → Handlers
    → String
    → ℤ
    → ℕ
    → List PushMutation
    → PushResult
    → Store
    → Result BatchError PushResult × Store
push_from outs handlers group now i [] result s = finish_push s group result
push_from outs handlers group now i (m ∷ ms) result s =
    elim (apply_mutation (outs i) handlers s group (record m { now = now })) [
      | err e ↦ (err (batch_error i m e), s)
      | ok (outcome, s') ↦
          push_from outs handlers group now (suc i) ms (add_outcome m outcome result) s'
    ]

unfoldable pub push :
    (ℕ → Outside)
    → Handlers
    → String
    → ℤ
    → List PushMutation
    → Store
    → Result BatchError PushResult × Store
push outs handlers group now ms s = push_from outs handlers group now 0 ms empty_result s
