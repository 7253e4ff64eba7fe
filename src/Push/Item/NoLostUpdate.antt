-- ===== src/Push/Item/NoLostUpdate.antt =====
-- The merge of `pushItem` of server/internal/storage/push_commit.go, stated of the fields' versions.
use household_objects_srv.Prelude.{
  ◌+◌, String, pos_part, ◌≡◌, refl, sym, ap, ◌∙◌, Bool, true, false, ◌&&◌, not, none, some, List,
  [], ◌∷◌, inl, inr, arith, Bool-cases, Option-cases, ok, >>=-eq-ok, ok-injective, ◌==◌, ltb, ◌⊎◌,
}
use household_objects_srv.Push.Types.{ItemRow, Store, PushMutation, PushOutcome, Outside}
use household_objects_srv.Push.Storage.{is_some, lookup_field_versions}
use household_objects_srv.Push.Items.{get_item}
use household_objects_srv.Push.Merge.{
  contains, raw_field, field_names, require_known_fields, field_version, merge_policy,
}
use household_objects_srv.Push.Merge.Split.{
  SortsStrings, field_names-contains, split_fields-contains,
}
use household_objects_srv.Push.Item.{Plan, item_fields, push_fields, push_existing_item, push_item}
use household_objects_srv.Push.Item.Values.{
  FieldValue, field_value, sent_value, chosen, merged_value, MergedRow,
}
use household_objects_srv.Push.Item.Merged.{Merged, Refused, write_merged-cases}

-- A field that was written after the version that the mutation is based on.
abbrev pub stale : Store → String → PushMutation → ItemRow → String → Bool
stale s group m current name =
    not (current.version == pos_part m.base_version)
    && ltb (pos_part m.base_version)
        (field_version (lookup_field_versions s group m.entity_type m.entity_id) name)

sent_value-none :
    (out : Outside) (fields : List (String × String)) (name : String)
    → is_some (raw_field fields name) ≡ false
    → sent_value out fields name ≡ none
unfolding sent_value
sent_value-none out fields name h = elim (Option-cases (raw_field fields name)) [
  | inl e ↦ rw (e, sent_value) (ground arith)
  | inr (raw, e) ↦ absurd (ground (arith, rw e at h))
]

chosen-none : (b : Bool) (current : FieldValue) → chosen b current none ≡ current
chosen-none true current = refl
chosen-none false current = refl

-- Two policies that agree on the fields that were sent merge to the same values.
merged_value-ext :
    (out : Outside) (fields : List (String × String)) (allow allow' : String → Bool)
    (current : ItemRow) (name : String)
    → (is_some (raw_field fields name) && allow name)
      ≡ (is_some (raw_field fields name) && allow' name)
    → merged_value out fields allow current name ≡ merged_value out fields allow' current name
unfolding merged_value
merged_value-ext out fields allow allow' current name h =
    elim (Bool-cases (is_some (raw_field fields name))) [
      | inl e ↦
          ap (λ b. chosen b (field_value current name) (sent_value out fields name)) (rw e at h)
      | inr e ↦ rw (sent_value-none out fields name e) (
          chosen-none (allow name) (field_value current name)
          ∙ sym (chosen-none (allow' name) (field_value current name)))
    ]

-- What the push of an item that exists has done when it was applied.
pub record Updates (out : Outside) (group : String) (m : PushMutation) (current : ItemRow)
    (s : Store) (o : PushOutcome) (s' : Store) : Type 0 where
  pub row : ItemRow
  pub read : get_item s' group m.entity_id ≡ some row
  pub version : (row.version ≡ current.version + 1) × (o.version ≡ row.version)
  pub values : MergedRow out m (λ name. not (stale s group m current name)) current row
  pub conflicts :
      (name : String)
      → contains o.conflict_fields name
        ≡ (is_some (raw_field m.fields name) && stale s group m current name)

MergedRow-ext :
    (out : Outside) (m : PushMutation) (allow allow' : String → Bool) (current row : ItemRow)
    → ((name : String)
        → (is_some (raw_field m.fields name) && allow name)
          ≡ (is_some (raw_field m.fields name) && allow' name))
    → MergedRow out m allow current row
    → MergedRow out m allow' current row
MergedRow-ext out m allow allow' current row h (a, (b, (c, (d, end)))) = (
  a ∙ merged_value-ext out m.fields allow allow' current "name" (h "name"),
  (
    b ∙ merged_value-ext out m.fields allow allow' current "description" (h "description"),
    (
      c ∙ merged_value-ext out m.fields allow allow' current "location_id" (h "location_id"),
      (d ∙ merged_value-ext out m.fields allow allow' current "quantity" (h "quantity"), tt),
    ),
  ),
)

-- The policy's two lists, over the names that were sent.
policy-contains :
    (out : Outside) (s : Store) (group : String) (m : PushMutation) (name : String)
    → SortsStrings out
    → let policy =
        merge_policy s group m.entity_type m.entity_id
          (pos_part m.base_version)
          (field_names out m.fields) in
      let newer =
        ltb
          (pos_part m.base_version)
          (field_version (lookup_field_versions s group m.entity_type m.entity_id) name) in
      (contains policy.0 name ≡ (is_some (raw_field m.fields name) && newer))
      × (contains policy.1 name ≡ (is_some (raw_field m.fields name) && not newer))
unfolding merge_policy
policy-contains out s group m name sorts =
    let split =
      split_fields-contains (lookup_field_versions s group m.entity_type m.entity_id)
        (pos_part m.base_version) (field_names out m.fields) name in
    rw (field_names-contains out m.fields name sorts) at split

and_both : (a b c : Bool) → b ≡ (a && c) → (a && b) ≡ (a && c)
and_both true b c h = h
and_both false b c h = refl

Merged-Updates :
    (out : Outside) (group : String) (m : PushMutation) (current : ItemRow) (plan : Plan)
    (s : Store) (o : PushOutcome) (s' : Store)
    → ((name : String)
        → (is_some (raw_field m.fields name) && plan.allow name)
          ≡ (is_some (raw_field m.fields name) && not (stale s group m current name)))
    → ((name : String)
        → contains plan.conflict name
          ≡ (is_some (raw_field m.fields name) && stale s group m current name))
    → Merged out group m current plan s o s'
    → Updates out group m current s o s'
Merged-Updates out group m current plan s o s' allows conflicts merged = record {
  row = merged.row;
  read = merged.read;
  version = (merged.version, merged.outcome_version);
  values = MergedRow-ext out m plan.allow _ current merged.row allows merged.values;
  conflicts = λ name. ap (λ (l : List String). contains l name) merged.conflicts ∙ conflicts name;
}

push_fields-cases :
    (out : Outside) (s : Store) (group : String) (m : PushMutation) (current : ItemRow)
    (conflict apply : List String) (o : PushOutcome) (s' : Store)
    → get_item s group m.entity_id ≡ some current
    → ((name : String)
        → contains apply name
          ≡ (is_some (raw_field m.fields name) && not (stale s group m current name)))
    → ((name : String)
        → contains conflict name
          ≡ (is_some (raw_field m.fields name) && stale s group m current name))
    → push_fields out s group m current conflict apply ≡ ok (o, s')
    → Refused o s s' ⊎ ((o.applied ≡ true) × Updates out group m current s o s')
unfolding push_fields
push_fields-cases out s group m current conflict [] o s' found allows conflicts h =
    let (same, same') = ok-injective h in
    inl (ap (λ (o : PushOutcome). o.applied) (sym same), sym same')
push_fields-cases out s group m current conflict (x ∷ xs) o s' found allows conflicts h =
    elim (write_merged-cases out s group m current _ o s' found h) [
      | inl refused ↦ inl refused
      | inr (applied, merged) ↦ inr (
        applied,
        Merged-Updates out group m current _ s o s'
            (λ name. and_both (is_some (raw_field m.fields name)) _ _ (allows name)) conflicts
            merged,
      )
    ]

push_existing_item-cases :
    (out : Outside) (s : Store) (group : String) (m : PushMutation) (current : ItemRow)
    (o : PushOutcome) (s' : Store)
    → SortsStrings out
    → get_item s group m.entity_id ≡ some current
    → push_existing_item out s group m current ≡ ok (o, s')
    → Refused o s s' ⊎ ((o.applied ≡ true) × Updates out group m current s o s')
unfolding push_existing_item
push_existing_item-cases out s group m current o s' sorts found h =
    elim (Bool-cases (current.version == pos_part m.base_version)) [
      | inl e ↦
          elim (write_merged-cases out s group m current _ o s' found
            (rw (e, push_existing_item) at h)) [
              | inl refused ↦ inl refused
              | inr (applied, merged) ↦ inr (
                applied,
                Merged-Updates out group m current _ s o s' (λ name. rw e refl)
                    (λ name. rw e (ground arith)) merged,
              )
            ]
      | inr e ↦
          let policy =
            merge_policy s group m.entity_type m.entity_id (pos_part m.base_version)
              (field_names out m.fields) in
          push_fields-cases out s group m current policy.0 policy.1 o s' found
            (λ name. rw e (policy-contains out s group m name sorts).1)
            (λ name. rw e (policy-contains out s group m name sorts).0)
            (rw (e, push_existing_item) at h)
    ]

-- `sort.Strings` permutes its argument. When `pushItem` returns no error for a mutation whose base
-- version is positive and whose item is live, then either it has not applied the mutation and has
-- written nothing, or the item's row afterwards has the next version, which is the outcome's; every
-- one of the four fields that has a version above the base (the base not being the item's version)
-- keeps its value, whatever the client sent for it; every other field has the value that the client
-- sent, or its old value where the client sent none; and the fields reported as conflicts are
-- those that were sent and are stale.
pub push_item-no_lost_update :
    (out : Outside) (s : Store) (group : String) (m : PushMutation) (current : ItemRow)
    (o : PushOutcome) (s' : Store)
    → SortsStrings out
    → (pos_part m.base_version == 0) ≡ false
    → get_item s group m.entity_id ≡ some current
    → push_item out s group m ≡ ok (o, s')
    → Refused o s s' ⊎ ((o.applied ≡ true) × Updates out group m current s o s')
unfolding push_item
push_item-no_lost_update out s group m current o s' sorts based found h =
    let (_, known, rest) = >>=-eq-ok (require_known_fields m.fields item_fields) _ h in
    push_existing_item-cases out s group m current o s' sorts found (rw (based, found) at rest)
