-- ===== src/Push/Item/Merged.antt =====
-- What `pushItem` of server/internal/storage/push_commit.go does to an item that exists, under a plan
-- of the fields that it may write.
use mathlib.Core.Path.{subst}
use household_objects_srv.Prelude.{
  ◌+◌, String, pos_part, ◌≡◌, refl, sym, ap, ◌∙◌, true, false, some, inl, inr, arith, Option-cases,
  Result, ok, err, >>=-eq-ok, ok-injective, ◌⊎◌,
}
use household_objects_srv.Push.Types.{ItemRow, Store, PushMutation, PushOutcome, Outside, PushError}
use household_objects_srv.Push.Storage.{record_field_versions}
use household_objects_srv.Push.Items.{get_item, updated_item}
use household_objects_srv.Push.Items.Effects.{update_item-Updated}
use household_objects_srv.Push.Items.Sequence.{Sequenced, Advances, update_item-Advances}
use household_objects_srv.Push.Merge.{merge_string, merge_int64, string_from_null, diff_item_fields}
use household_objects_srv.Push.Item.{
  Plan, merged_params, finish_item, write_merged, classify_entity_error,
}
use household_objects_srv.Push.Item.Values.{MergedRow, updated_item-MergedRow}

-- What an applied push of an item has done under a plan.
pub record Merged (out : Outside) (group : String) (m : PushMutation) (current : ItemRow)
    (plan : Plan) (s : Store) (o : PushOutcome) (s' : Store) : Type 0 where
  pub row : ItemRow
  pub read : get_item s' group m.entity_id ≡ some row
  pub version : row.version ≡ current.version + 1
  pub outcome_version : o.version ≡ row.version
  pub values : MergedRow out m plan.allow current row
  pub conflicts : o.conflict_fields ≡ plan.conflict
  pub advances : Sequenced s group → Advances s group s'
  pub keeps : (s'.mutations ≡ s.mutations) × (s'.conflicts ≡ s.conflicts)
  pub recorded :
      s'.field_versions
      ≡ record_field_versions group "item" row.id row.version
          (pos_part m.now)
          (diff_item_fields current row)
          s.field_versions

-- A push that has written nothing.
abbrev pub Refused : PushOutcome → Store → Store → Type 0
Refused o s s' = (o.applied ≡ false) × (s' ≡ s)

classified-applied :
    (e : PushError) (outcome : PushOutcome)
    → classify_entity_error e ≡ some outcome
    → outcome.applied ≡ false
classified-applied e outcome h = ground arith

finish_item-cases :
    (s : Store) (m : PushMutation) (group : String) (current : ItemRow) (plan : Plan)
    (update : Result PushError (ItemRow × Store)) (o : PushOutcome) (s' : Store)
    → finish_item s m group current plan update ≡ ok (o, s')
    → Refused o s s'
      ⊎ ((r : ItemRow) × (s₁ : Store) × (update ≡ ok (r, s₁))
          × (o.applied ≡ true)
          × (o.version ≡ r.version)
          × (o.conflict_fields ≡ plan.conflict)
          × (s' ≡ record s₁ {
            field_versions =
                record_field_versions group "item" r.id r.version
                  (pos_part m.now)
                  (diff_item_fields current r)
                  s₁.field_versions;
          }))
unfolding finish_item
finish_item-cases s m group current plan (ok (r, s₁)) o s' h =
    let (same, same') = ok-injective h in
    inr (
      r,
      s₁,
      refl,
      ap (λ (o : PushOutcome). o.applied) (sym same),
      ap (λ (o : PushOutcome). o.version) (sym same),
      ap (λ (o : PushOutcome). o.conflict_fields) (sym same),
      sym same',
    )
finish_item-cases s m group current plan (err e) o s' h =
    elim (Option-cases (classify_entity_error e)) [
      | inl none_such ↦ absurd (ground (arith, rw (none_such, finish_item) at h))
      | inr (outcome, e') ↦
          let (same, same') = ok-injective (rw (e', finish_item) at h) in
          inl (
            ap (λ (o : PushOutcome). o.applied) (sym same) ∙ classified-applied e outcome e',
            sym same',
          )
    ]

pub write_merged-cases :
    (out : Outside) (s : Store) (group : String) (m : PushMutation) (current : ItemRow)
    (plan : Plan) (o : PushOutcome) (s' : Store)
    → get_item s group m.entity_id ≡ some current
    → write_merged out s group m current plan ≡ ok (o, s')
    → Refused o s s' ⊎ ((o.applied ≡ true) × Merged out group m current plan s o s')
unfolding write_merged get_item
write_merged-cases out s group m current plan o s' found h =
    let (name, h₀, rest₀) =
      >>=-eq-ok (merge_string out m.fields "name" plan.allow current.name) _ h in
    let (description, h₁, rest₁) =
      >>=-eq-ok (merge_string out m.fields "description" plan.allow current.description) _ rest₀ in
    let (location_id, h₂, rest₂) =
      >>=-eq-ok
        (merge_string out m.fields "location_id" plan.allow (string_from_null current.location_id))
        _ rest₁ in
    let (quantity, h₃, rest₃) =
      >>=-eq-ok (merge_int64 out m.fields "quantity" plan.allow current.quantity) _ rest₂ in
    elim (finish_item-cases s m group current plan _ o s' rest₃) [
      | inl refused ↦ inl refused
      | inr (r, s₁, update, applied, version, conflicts, same) ↦
          let done =
            update_item-Updated s group
              (merged_params m current name description location_id quantity) r s₁ update in
          let is_current : done.current ≡ current = ground (arith, found, done.found) in
          let row : r
              ≡ updated_item (merged_params m current name description location_id quantity)
                  done.seq current =
            done.row
            ∙ ap
                (updated_item (merged_params m current name description location_id quantity)
                  done.seq)
                is_current in
          let (mutations, log, versions) = done.keeps in
          inr (
            applied,
            rw same (record {
              row = r;
              read = done.read;
              version = ap (λ (r : ItemRow). r.version) row;
              outcome_version = version;
              values = subst (MergedRow out m plan.allow current) (sym row) (
                  updated_item-MergedRow out m plan.allow current name description location_id
                    quantity done.seq h₀ h₁ h₂ h₃);
              conflicts = conflicts;
              advances = λ sequenced. (update_item-Advances s group _ r s₁ sequenced update).0;
              keeps = (mutations, log);
              recorded =
                  ap
                    (record_field_versions group "item" r.id r.version (pos_part m.now)
                      (diff_item_fields current r))
                    versions;
            }),
          )
    ]
