-- ===== src/Push/Label/Keeps.antt =====
-- What `pushLabel` of server/internal/storage/push_commit.go keeps: the names of the live labels, and the
-- two logs of the pushes.
use household_objects_srv.Prelude.{
  ℕ, String, ◌≡◌, refl, inl, inr, arith, Bool-cases, Option-cases, Option, none, some, ok,
  >>=-eq-ok, ◌==◌,
}
use household_objects_srv.Push.Types.{LabelRow, Store, PushMutation, PushOutcome, Outside}
use household_objects_srv.Push.Storage.{alloc_change_seq}
use household_objects_srv.Push.Entity.{
  KeepsLogs, KeepsLogs-trans, alloc_change_seq-KeepsLogs, EntityPush-keeps,
}
use household_objects_srv.Push.Apply.Ledger.{KeepsLog}
use household_objects_srv.Push.Label.{push_label, push_label-LabelPush}
use household_objects_srv.Labels.{
  CreateLabelParams, UpdateLabelParams, get_label, get_label_by_name, new_label, reread_label,
  insert_label, check_name, create_label, write_label, update_label_found, update_label,
}
use household_objects_srv.Labels.Clash.{Distinct}
use household_objects_srv.Labels.Distinct.{create_label-Distinct, update_label-Distinct}

insert_label-KeepsLogs :
    (s : Store) (row : LabelRow) (s' : Store) → insert_label s row ≡ ok s' → KeepsLogs s s'
unfolding insert_label
insert_label-KeepsLogs s row s' h = ground arith

reread_label-KeepsLogs :
    (o : Option LabelRow) (s : Store) (r : LabelRow) (s' : Store)
    → reread_label o s ≡ ok (r, s')
    → KeepsLogs s s'
unfolding reread_label
reread_label-KeepsLogs o s r s' h = ground arith

create_label-KeepsLogs :
    (s : Store) (group : String) (p : CreateLabelParams) (r : LabelRow) (s' : Store)
    → create_label s group p ≡ ok (r, s')
    → KeepsLogs s s'
unfolding create_label
create_label-KeepsLogs s group p r s' h =
    let (_, free, rest) = >>=-eq-ok (check_name (get_label_by_name s group p.name) none) _ h in
    let ((seq, s₁), allocated, rest₁) = >>=-eq-ok (alloc_change_seq s group) _ rest in
    let (s₂, inserted, last) = >>=-eq-ok (insert_label s₁ (new_label group p seq)) _ rest₁ in
    KeepsLogs-trans s s₁ s' (alloc_change_seq-KeepsLogs s group seq s₁ allocated) (
      KeepsLogs-trans s₁ s₂ s' (insert_label-KeepsLogs s₁ _ s₂ inserted)
        (reread_label-KeepsLogs _ s₂ r s' last))

write_label-KeepsLogs :
    (s : Store) (group : String) (p : UpdateLabelParams) (seq : ℕ) (r : LabelRow) (s' : Store)
    → write_label s group p seq ≡ ok (r, s')
    → KeepsLogs s s'
unfolding write_label
write_label-KeepsLogs s group p seq r s' h = ground arith

update_label-KeepsLogs :
    (s : Store) (group : String) (p : UpdateLabelParams) (r : LabelRow) (s' : Store)
    → update_label s group p ≡ ok (r, s')
    → KeepsLogs s s'
unfolding update_label update_label_found
update_label-KeepsLogs s group p r s' h = elim (Option-cases (get_label s group p.id)) [
  | inl e ↦ absurd (ground (arith, rw (e, update_label) at h))
  | inr (current, e) ↦
      let found = rw (e, update_label) at h in
      elim (Bool-cases (current.version == p.expected_version)) [
        | inl same ↦
            let (_, free, rest) =
              >>=-eq-ok (check_name (get_label_by_name s group p.name) (some p.id)) _
                (rw (same, update_label_found) at found) in
            let ((seq, s₁), allocated, written) = >>=-eq-ok (alloc_change_seq s group) _ rest in
            KeepsLogs-trans s s₁ s' (alloc_change_seq-KeepsLogs s group seq s₁ allocated)
              (write_label-KeepsLogs s₁ group p seq r s' written)
        | inr other ↦ absurd (ground (arith, rw (other, update_label_found) at found))
      ]
]

pub push_label-KeepsLog : (out : Outside) → KeepsLog (push_label out)
push_label-KeepsLog out s group m o s' h =
    EntityPush-keeps (create_label s group) (update_label s group) s s' (KeepsLogs s) (refl, refl)
      (create_label-KeepsLogs s group) (update_label-KeepsLogs s group) (λ s₁ fields kept. kept)
      (push_label-LabelPush out s group m o s' h)

-- Where the ids of labels are unique, and the names of a household's live labels too, a push of a label
-- that returns no error leaves them so.
pub push_label-Distinct :
    (out : Outside) (s : Store) (group : String) (m : PushMutation) (o : PushOutcome) (s' : Store)
    → Distinct group s.labels
    → push_label out s group m ≡ ok (o, s')
    → Distinct group s'.labels
push_label-Distinct out s group m o s' distinct h =
    EntityPush-keeps (create_label s group) (update_label s group) s s'
      (λ s. Distinct group s.labels) distinct
      (λ p r s₁. create_label-Distinct s group p r s₁ distinct)
      (λ p r s₁. update_label-Distinct s group p r s₁ distinct) (λ s₁ fields kept. kept)
      (push_label-LabelPush out s group m o s' h)
