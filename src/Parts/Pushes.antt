-- ===== src/Parts/Pushes.antt =====
-- What a push of a row of an item (server/internal/storage/push_commit.go) does to the store: one
-- creation, one update, or nothing.
use mathlib.Core.Path.{subst}
use household_objects_srv.Prelude.{
  String, ◌≡◌, refl, sym, inl, inr, Bool-cases, Option-cases, ok, >>=-eq-ok, ok-injective, ◌==◌,
  find?, str_eq, pos_part,
}
use household_objects_srv.Push.Rows.{PartRow}
use household_objects_srv.Push.Types.{Store, PushMutation, PushOutcome, Outside}
use household_objects_srv.Push.Storage.{is_some}
use household_objects_srv.Push.Merge.{require_known_fields, require_field, decode_string, or_zero}
use household_objects_srv.Push.Entity.{
  KeepsLogs, KeepsLogs-trans, alloc_change_seq-KeepsLogs, Decision, refuse, merge, EntityPush, kept,
  EntityPush-keeps, Wrote-made, Wrote-changed, finish_created-Wrote, finish_updated-Wrote,
}
use household_objects_srv.Push.Apply.Ledger.{KeepsLog}
use household_objects_srv.Parts.{
  Table, CreatePartParams, UpdatePartParams, get_part, create_part, update_part,
}
use household_objects_srv.Parts.Push.{Pushed, push_new_part, merge_part, push_known_part, push_part}
use household_objects_srv.Parts.Keeps.{Laws, create_part-Made, update_part-Changed}

abbrev pub PartPush : {P V : Type 0} → Table P V → Store → String → Store → Type 0
PartPush t s group s' = EntityPush (create_part t s group) (update_part t s group) s s'

module _ {P V : Type 0} (t : Table P V) (laws : Laws t) where
  create_part-KeepsLogs :
      (s : Store) (group : String) (p : CreatePartParams P) (r : PartRow V) (s' : Store)
      → create_part t s group p ≡ ok (r, s')
      → KeepsLogs s s'
  create_part-KeepsLogs s group p r s' h =
      let made = create_part-Made t laws s group p r s' h in
      KeepsLogs-trans s made.counted s'
        (alloc_change_seq-KeepsLogs s group made.seq made.counted made.allocated)
        (subst (KeepsLogs made.counted) (sym made.written) (laws.put-KeepsLogs made.counted _))

  update_part-KeepsLogs :
      (s : Store) (group : String) (p : UpdatePartParams P) (r : PartRow V) (s' : Store)
      → update_part t s group p ≡ ok (r, s')
      → KeepsLogs s s'
  update_part-KeepsLogs s group p r s' h =
      let changed = update_part-Changed t laws s group p r s' h in
      KeepsLogs-trans s changed.counted s'
        (alloc_change_seq-KeepsLogs s group changed.seq changed.counted changed.allocated)
        (subst (KeepsLogs changed.counted) (sym changed.written)
          (laws.put-KeepsLogs changed.counted _))

  pub PartPush-KeepsLogs :
      (s : Store) (group : String) (s' : Store) → PartPush t s group s' → KeepsLogs s s'
  PartPush-KeepsLogs s group s' h =
      EntityPush-keeps (create_part t s group) (update_part t s group) s s' (KeepsLogs s)
        (refl, refl) (create_part-KeepsLogs s group) (update_part-KeepsLogs s group)
        (λ s₁ fields kept. kept) h

module _ {P V : Type 0} (t : Pushed P V) where
  push_new_part-PartPush :
      (out : Outside) (s : Store) (group : String) (m : PushMutation) (item : String)
      (o : PushOutcome) (s' : Store)
      → push_new_part t out s group m item ≡ ok (o, s')
      → PartPush t.table s group s'
  unfolding push_new_part
  push_new_part-PartPush out s group m item o s' h =
      elim (Bool-cases
        (is_some (find? (λ (r : PartRow V). str_eq r.id m.entity_id) (t.table.rows s)))) [
          | inl e ↦ kept (sym (ok-injective (rw (e, push_new_part) at h)).1)
          | inr e ↦
              let (values, decoded, rest) =
                >>=-eq-ok (t.decode out m.fields) _ (rw (e, push_new_part) at h) in
              Wrote-made (create_part t.table s group) (update_part t.table s group) s s' _
                (finish_created-Wrote _ _ s _ o s' rest)
        ]

  merge_part-PartPush :
      (out : Outside) (s : Store) (group : String) (m : PushMutation) (item : String)
      (current : PartRow V) (decision : Decision) (o : PushOutcome) (s' : Store)
      → merge_part t out s group m item current decision ≡ ok (o, s')
      → PartPush t.table s group s'
  unfolding merge_part
  merge_part-PartPush out s group m item current (refuse outcome) o s' h =
      kept (sym (ok-injective h).1)
  merge_part-PartPush out s group m item current (merge plan) o s' h =
      let (values, merged, rest) =
        >>=-eq-ok (t.merged out m.fields plan.allow current.values) _ h in
      Wrote-changed (create_part t.table s group) (update_part t.table s group) s s' _
        (finish_updated-Wrote _ _ _ _ t.table.name s m group plan _ o s' rest)

  push_known_part-PartPush :
      (out : Outside) (s : Store) (group : String) (m : PushMutation) (item : String)
      (o : PushOutcome) (s' : Store)
      → push_known_part t out s group m item ≡ ok (o, s')
      → PartPush t.table s group s'
  unfolding push_known_part
  push_known_part-PartPush out s group m item o s' h =
      elim (Option-cases (get_part t.table s group item m.entity_id)) [
        | inl gone ↦ kept (sym (ok-injective (rw (gone, push_known_part) at h)).1)
        | inr (current, found) ↦
            merge_part-PartPush out s group m item current _ o s' (rw (found, push_known_part) at h)
      ]

  pub push_part-PartPush :
      (out : Outside) (s : Store) (group : String) (m : PushMutation) (o : PushOutcome) (s' : Store)
      → push_part t out s group m ≡ ok (o, s')
      → PartPush t.table s group s'
  unfolding push_part
  push_part-PartPush out s group m o s' h =
      let (_, known, rest) = >>=-eq-ok (require_known_fields m.fields t.fields) _ h in
      let (_, required, rest₁) = >>=-eq-ok (require_field m.fields "item_id") _ rest in
      let (item, decoded, last) = >>=-eq-ok (decode_string out m.fields "item_id") _ rest₁ in
      elim (Bool-cases (pos_part m.base_version == 0)) [
        | inl e ↦ push_new_part-PartPush out s group m (or_zero "" item) o s' (rw e at last)
        | inr e ↦ push_known_part-PartPush out s group m (or_zero "" item) o s' (rw e at last)
      ]

  pub push_part-KeepsLog : Laws t.table → (out : Outside) → KeepsLog (push_part t out)
  push_part-KeepsLog laws out s group m o s' h =
      PartPush-KeepsLogs t.table laws s group s' (push_part-PartPush out s group m o s' h)
