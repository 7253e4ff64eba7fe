-- ===== src/Push/Location.antt =====
-- `pushLocation` of server/internal/storage/push_commit.go.
pub mod Keeps
use household_objects_srv.Prelude.{
  ℕ, String, str_eq, ◌≡◌, refl, sym, ap, ◌∙◌, true, false, Bool, inl, inr, arith, Bool-cases,
  Option-cases, Option, none, some, List, [], ◌∷◌, if◌then◌else◌, pos_part, Result, ok, err, ◌>>=◌,
  ◌>>◌, >>=-eq-ok, ok-injective, ◌==◌, find?,
}
use household_objects_srv.Push.Types.{
  LocationRow, FieldVersionRow, Store, PushMutation, PushOutcome, Outside, PushError,
}
use household_objects_srv.Push.Storage.{is_some}
use household_objects_srv.Push.Merge.{
  entity_field, require_known_fields, decode_string, or_zero, merge_string, string_from_null,
}
use household_objects_srv.Push.Item.{Plan, conflict_outcome}
use household_objects_srv.Push.Entity.{
  Decision, refuse, merge, plan_update, unsaid, finish_created, finish_updated, EntityPush, kept,
  Wrote-made, Wrote-changed, finish_created-Wrote, finish_updated-Wrote,
}
use household_objects_srv.Locations.{
  CreateLocationParams, UpdateLocationParams, get_location, create_location, update_location,
  diff_location_fields,
}

abbrev pub location_fields : List String
location_fields = "name" ∷ "parent_id" ∷ []

unfoldable pub push_new_location :
    Outside → Store → String → PushMutation → Result PushError (PushOutcome × Store)
push_new_location out s group m =
    if is_some (find? (λ r. str_eq r.id m.entity_id) s.locations)
    then ok (conflict_outcome (entity_field ∷ []) [], s)
    else (do
      name ← decode_string out m.fields "name"
      parent_id ← decode_string out m.fields "parent_id"
      finish_created (λ (r : LocationRow). r.id) (λ r. r.version) s
          (create_location s group (record {
            id = m.entity_id;
            name = or_zero "" name;
            parent_id = or_zero "" parent_id;
            now = pos_part m.now;
          })))

-- The values that the conflict log shows.
abbrev location_values : Outside → LocationRow → String → Option String
location_values out current name =
    if str_eq name "name"
    then some (out.quote_string current.name)
    else if str_eq name "parent_id"
    then some (out.quote_string (string_from_null current.parent_id))
    else none

unfoldable pub merge_location :
    Outside
    → Store
    → String
    → PushMutation
    → LocationRow
    → Decision
    → Result PushError (PushOutcome × Store)
merge_location out s group m current (refuse outcome) = ok (outcome, s)
merge_location out s group m current (merge plan) = do
  name ← merge_string out m.fields "name" plan.allow current.name
  parent_id ← merge_string out m.fields "parent_id" plan.allow (string_from_null current.parent_id)
  finish_updated unsaid (λ (r : LocationRow). r.id) (λ r. r.version) (diff_location_fields current)
      "location" s m group plan
      (update_location s group (record {
        location_id = m.entity_id;
        name = name;
        parent_id = parent_id;
        expected_version = current.version;
        now = pos_part m.now;
      }))

unfoldable pub push_location :
    Outside → Store → String → PushMutation → Result PushError (PushOutcome × Store)
push_location out s group m = do
  require_known_fields m.fields location_fields
  if pos_part m.base_version == 0
      then push_new_location out s group m
      else elim (get_location s group m.entity_id) [
        | none ↦ ok (conflict_outcome (entity_field ∷ []) [], s)
        | some current ↦
            merge_location out s group m current
              (plan_update out s group m current.version (location_values out current))
      ]

-- What a push of a location has done to the store.
abbrev pub LocationPush : Store → String → Store → Type 0
LocationPush s group s' = EntityPush (create_location s group) (update_location s group) s s'

push_new_location-LocationPush :
    (out : Outside) (s : Store) (group : String) (m : PushMutation) (o : PushOutcome) (s' : Store)
    → push_new_location out s group m ≡ ok (o, s')
    → LocationPush s group s'
unfolding push_new_location
push_new_location-LocationPush out s group m o s' h =
    elim (Bool-cases (is_some (find? (λ r. str_eq r.id m.entity_id) s.locations))) [
      | inl e ↦ kept (sym (ok-injective (rw (e, push_new_location) at h)).1)
      | inr e ↦
          let (name, h₀, rest₀) =
            >>=-eq-ok (decode_string out m.fields "name") _ (rw (e, push_new_location) at h) in
          let (parent_id, h₁, rest₁) = >>=-eq-ok (decode_string out m.fields "parent_id") _ rest₀ in
          Wrote-made (create_location s group) (update_location s group) s s' _
            (finish_created-Wrote _ _ s _ o s' rest₁)
    ]

merge_location-LocationPush :
    (out : Outside) (s : Store) (group : String) (m : PushMutation) (current : LocationRow)
    (decision : Decision) (o : PushOutcome) (s' : Store)
    → merge_location out s group m current decision ≡ ok (o, s')
    → LocationPush s group s'
unfolding merge_location
merge_location-LocationPush out s group m current (refuse outcome) o s' h =
    kept (sym (ok-injective h).1)
merge_location-LocationPush out s group m current (merge plan) o s' h =
    let (name, h₀, rest₀) =
      >>=-eq-ok (merge_string out m.fields "name" plan.allow current.name) _ h in
    let (parent_id, h₁, rest₁) =
      >>=-eq-ok
        (merge_string out m.fields "parent_id" plan.allow (string_from_null current.parent_id)) _
        rest₀ in
    Wrote-changed (create_location s group) (update_location s group) s s' _
      (finish_updated-Wrote _ _ _ _ "location" s m group plan _ o s' rest₁)

pub push_location-LocationPush :
    (out : Outside) (s : Store) (group : String) (m : PushMutation) (o : PushOutcome) (s' : Store)
    → push_location out s group m ≡ ok (o, s')
    → LocationPush s group s'
unfolding push_location
push_location-LocationPush out s group m o s' h =
    let (_, known, rest) = >>=-eq-ok (require_known_fields m.fields location_fields) _ h in
    elim (Bool-cases (pos_part m.base_version == 0)) [
      | inl e ↦ push_new_location-LocationPush out s group m o s' (rw e at rest)
      | inr e ↦ elim (Option-cases (get_location s group m.entity_id)) [
        | inl gone ↦ kept (sym (ok-injective (rw (e, gone) at rest)).1)
        | inr (current, found) ↦
            merge_location-LocationPush out s group m current _ o s' (rw (e, found) at rest)
      ]
    ]
