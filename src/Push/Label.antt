-- ===== src/Push/Label.antt =====
-- `pushLabel` of server/internal/storage/push_commit.go.
pub mod Keeps
use household_objects_srv.Prelude.{
  ℕ, String, str_eq, ◌≡◌, refl, sym, ap, ◌∙◌, true, false, Bool, inl, inr, arith, Bool-cases,
  Option-cases, Option, none, some, List, [], ◌∷◌, if◌then◌else◌, pos_part, Result, ok, err, ◌>>=◌,
  ◌>>◌, >>=-eq-ok, ok-injective, ◌==◌, find?,
}
use household_objects_srv.Push.Types.{
  LabelRow, FieldVersionRow, Store, PushMutation, PushOutcome, Outside, PushError,
}
use household_objects_srv.Push.Storage.{is_some}
use household_objects_srv.Push.Merge.{
  entity_field, require_known_fields, decode_string, or_zero, merge_string,
}
use household_objects_srv.Push.Item.{Plan, conflict_outcome}
use household_objects_srv.Push.Entity.{
  Decision, refuse, merge, plan_update, unsaid, finish_created, finish_updated, EntityPush, kept,
  Wrote-made, Wrote-changed, finish_created-Wrote, finish_updated-Wrote,
}
use household_objects_srv.Labels.{
  CreateLabelParams, UpdateLabelParams, get_label, create_label, update_label, diff_label_fields,
}

abbrev pub label_fields : List String
label_fields = "name" ∷ "color" ∷ []

unfoldable pub push_new_label :
    Outside → Store → String → PushMutation → Result PushError (PushOutcome × Store)
push_new_label out s group m =
    if is_some (find? (λ r. str_eq r.id m.entity_id) s.labels)
    then ok (conflict_outcome (entity_field ∷ []) [], s)
    else (do
      name ← decode_string out m.fields "name"
      color ← decode_string out m.fields "color"
      finish_created (λ (r : LabelRow). r.id) (λ r. r.version) s
          (create_label s group (record {
            id = m.entity_id;
            name = or_zero "" name;
            color = or_zero "" color;
            now = pos_part m.now;
          })))

-- The values that the conflict log shows.
abbrev label_values : Outside → LabelRow → String → Option String
label_values out current name =
    if str_eq name "name"
    then some (out.quote_string current.name)
    else if str_eq name "color"
    then some (out.quote_string current.color)
    else none

unfoldable pub merge_label :
    Outside
    → Store
    → String
    → PushMutation
    → LabelRow
    → Decision
    → Result PushError (PushOutcome × Store)
merge_label out s group m current (refuse outcome) = ok (outcome, s)
merge_label out s group m current (merge plan) = do
  name ← merge_string out m.fields "name" plan.allow current.name
  color ← merge_string out m.fields "color" plan.allow current.color
  finish_updated unsaid (λ (r : LabelRow). r.id) (λ r. r.version) (diff_label_fields current)
      "label" s m group plan
      (update_label s group (record {
        id = m.entity_id;
        name = name;
        color = color;
        expected_version = current.version;
        now = pos_part m.now;
      }))

unfoldable pub push_label :
    Outside → Store → String → PushMutation → Result PushError (PushOutcome × Store)
push_label out s group m = do
  require_known_fields m.fields label_fields
  if pos_part m.base_version == 0
      then push_new_label out s group m
      else elim (get_label s group m.entity_id) [
        | none ↦ ok (conflict_outcome (entity_field ∷ []) [], s)
        | some current ↦
            merge_label out s group m current
              (plan_update out s group m current.version (label_values out current))
      ]

-- What a push of a label has done to the store.
abbrev pub LabelPush : Store → String → Store → Type 0
LabelPush s group s' = EntityPush (create_label s group) (update_label s group) s s'

push_new_label-LabelPush :
    (out : Outside) (s : Store) (group : String) (m : PushMutation) (o : PushOutcome) (s' : Store)
    → push_new_label out s group m ≡ ok (o, s')
    → LabelPush s group s'
unfolding push_new_label
push_new_label-LabelPush out s group m o s' h =
    elim (Bool-cases (is_some (find? (λ r. str_eq r.id m.entity_id) s.labels))) [
      | inl e ↦ kept (sym (ok-injective (rw (e, push_new_label) at h)).1)
      | inr e ↦
          let (name, h₀, rest₀) =
            >>=-eq-ok (decode_string out m.fields "name") _ (rw (e, push_new_label) at h) in
          let (color, h₁, rest₁) = >>=-eq-ok (decode_string out m.fields "color") _ rest₀ in
          Wrote-made (create_label s group) (update_label s group) s s' _
            (finish_created-Wrote _ _ s _ o s' rest₁)
    ]

merge_label-LabelPush :
    (out : Outside) (s : Store) (group : String) (m : PushMutation) (current : LabelRow)
    (decision : Decision) (o : PushOutcome) (s' : Store)
    → merge_label out s group m current decision ≡ ok (o, s')
    → LabelPush s group s'
unfolding merge_label
merge_label-LabelPush out s group m current (refuse outcome) o s' h = kept (sym (ok-injective h).1)
merge_label-LabelPush out s group m current (merge plan) o s' h =
    let (name, h₀, rest₀) =
      >>=-eq-ok (merge_string out m.fields "name" plan.allow current.name) _ h in
    let (color, h₁, rest₁) =
      >>=-eq-ok (merge_string out m.fields "color" plan.allow current.color) _ rest₀ in
    Wrote-changed (create_label s group) (update_label s group) s s' _
      (finish_updated-Wrote _ _ _ _ "label" s m group plan _ o s' rest₁)

pub push_label-LabelPush :
    (out : Outside) (s : Store) (group : String) (m : PushMutation) (o : PushOutcome) (s' : Store)
    → push_label out s group m ≡ ok (o, s')
    → LabelPush s group s'
unfolding push_label
push_label-LabelPush out s group m o s' h =
    let (_, known, rest) = >>=-eq-ok (require_known_fields m.fields label_fields) _ h in
    elim (Bool-cases (pos_part m.base_version == 0)) [
      | inl e ↦ push_new_label-LabelPush out s group m o s' (rw e at rest)
      | inr e ↦ elim (Option-cases (get_label s group m.entity_id)) [
        | inl gone ↦ kept (sym (ok-injective (rw (e, gone) at rest)).1)
        | inr (current, found) ↦
            merge_label-LabelPush out s group m current _ o s' (rw (e, found) at rest)
      ]
    ]
