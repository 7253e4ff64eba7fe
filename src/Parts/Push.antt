-- ===== src/Parts/Push.antt =====
-- The handlers of server/internal/storage/push_commit.go for the rows of an item: `pushWarrantyBlock`,
-- `pushSoldToBlock`, `pushPurchasedFromBlock`, `pushItemIdentification` and `pushItemCustomField`
-- have one shape, which is here.
use household_objects_srv.Prelude.{
  String, str_eq, true, Bool, Option, none, some, List, [], ◌∷◌, if◌then◌else◌, pos_part, Result,
  ok, ◌>>=◌, ◌>>◌, ◌==◌, find?,
}
use household_objects_srv.Push.Rows.{PartRow}
use household_objects_srv.Push.Types.{Store, PushMutation, PushOutcome, Outside, PushError}
use household_objects_srv.Push.Storage.{is_some}
use household_objects_srv.Push.Merge.{
  entity_field, field_names, require_known_fields, require_field, decode_string, or_zero,
  merge_policy,
}
use household_objects_srv.Push.Item.{conflict_outcome}
use household_objects_srv.Push.Entity.{
  Decision, refuse, merge, plan_fields, finish_created, finish_updated,
}
use household_objects_srv.Parts.{Count, one, many, Table, get_part, create_part, update_part}

-- What the five handlers differ in: the table, the names of its fields, the values of a creation,
-- the values of an update by what may be written, what the conflict log shows of a row, and what is
-- done to the conflicts and the fields to apply once the merge policy has found them.
pub record Pushed (P V : Type 0) : Type 0 where
  pub table : Table P V
  pub fields : List String
  pub decode : Outside → List (String × String) → Result PushError P
  pub merged : Outside → List (String × String) → (String → Bool) → V → Result PushError P
  pub shown : Outside → V → String → Option String
  pub adjust :
      Outside → List (String × String) → List String × List String → List String × List String

-- The outcome of an update says the id of a row that is alone on its item.
abbrev pub said_id : {V : Type 0} → Count → PartRow V → String
said_id (one e) row = row.id
said_id many row = ""

module _ {P V : Type 0} (t : Pushed P V) where
  -- The branch of a mutation that knows no version.
  unfoldable pub push_new_part :
      Outside → Store → String → PushMutation → String → Result PushError (PushOutcome × Store)
  push_new_part out s group m item =
      if is_some (find? (λ (r : PartRow V). str_eq r.id m.entity_id) (t.table.rows s))
      then ok (conflict_outcome (entity_field ∷ []) [], s)
      else (do
        values ← t.decode out m.fields
        finish_created (λ (r : PartRow V). r.id) (λ r. r.version) s
            (create_part t.table s group
              (record { id = m.entity_id; item_id = item; values = values; now = pos_part m.now })))

  -- The version check. It asks for the field versions of the id that the mutation names.
  unfoldable pub plan_part : Outside → Store → String → PushMutation → PartRow V → Decision
  plan_part out s group m current =
      if current.version == pos_part m.base_version
      then merge (record { allow = λ name. true; conflict = []; snapshots = [] })
      else (let (conflict, apply) = t.adjust out m.fields (
            merge_policy s group m.entity_type m.entity_id (pos_part m.base_version)
              (field_names out m.fields)) in
          plan_fields (t.shown out current.values) conflict apply)

  unfoldable pub merge_part :
      Outside
      → Store
      → String
      → PushMutation
      → String
      → PartRow V
      → Decision
      → Result PushError (PushOutcome × Store)
  merge_part out s group m item current (refuse outcome) =
      ok (record outcome { entity_id = said_id t.table.count current }, s)
  merge_part out s group m item current (merge plan) = do
    values ← t.merged out m.fields plan.allow current.values
    finish_updated (said_id t.table.count) (λ (r : PartRow V). r.id) (λ r. r.version)
        (λ r. t.table.diff out current.values r.values) t.table.name s m group plan
        (update_part t.table s group (record {
          item_id = item;
          id = m.entity_id;
          values = values;
          expected_version = current.version;
          now = pos_part m.now;
        }))

  -- The branch of a mutation that knows a version.
  unfoldable pub push_known_part :
      Outside → Store → String → PushMutation → String → Result PushError (PushOutcome × Store)
  unfolding merge_part plan_part
  push_known_part out s group m item = elim (get_part t.table s group item m.entity_id) [
    | none ↦ ok (conflict_outcome (entity_field ∷ []) [], s)
    | some current ↦ merge_part out s group m item current (plan_part out s group m current)
  ]

  unfoldable pub push_part :
      Outside → Store → String → PushMutation → Result PushError (PushOutcome × Store)
  unfolding push_new_part push_known_part
  push_part out s group m = do
    require_known_fields m.fields t.fields
    require_field m.fields "item_id"
    item ← decode_string out m.fields "item_id"
    if pos_part m.base_version == 0
        then push_new_part out s group m (or_zero "" item)
        else push_known_part out s group m (or_zero "" item)
