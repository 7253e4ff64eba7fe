-- ===== src/Push/Location/Keeps.antt =====
-- What `pushLocation` of server/internal/storage/push_commit.go keeps: the location tree, and the two
-- logs of the pushes.
use household_objects_srv.Prelude.{
  ℕ, String, ◌≡◌, refl, inl, inr, arith, Bool-cases, Option-cases, Option, ok, >>=-eq-ok, ◌==◌,
}
use household_objects_srv.Push.Types.{LocationRow, Store, PushMutation, PushOutcome, Outside}
use household_objects_srv.Push.Storage.{alloc_change_seq}
use household_objects_srv.Push.Entity.{
  KeepsLogs, KeepsLogs-trans, alloc_change_seq-KeepsLogs, EntityPush-keeps,
}
use household_objects_srv.Push.Apply.Ledger.{KeepsLog}
use household_objects_srv.Push.Location.{push_location, push_location-LocationPush}
use household_objects_srv.Locations.{
  CreateLocationParams, UpdateLocationParams, get_location, check_parent, check_move,
  reread_location, insert_location, create_location, write_location, update_location_found,
  update_location,
}
use household_objects_srv.Locations.Tree.{Tree, Tree-rows}
use household_objects_srv.Locations.Created.{create_location-Tree}
use household_objects_srv.Locations.Keeps.{update_location-Tree}

insert_location-KeepsLogs :
    (s : Store) (group : String) (row : LocationRow) (s' : Store)
    → insert_location s group row ≡ ok s'
    → KeepsLogs s s'
unfolding insert_location
insert_location-KeepsLogs s group row s' h = ground arith

reread_location-KeepsLogs :
    (o : Option LocationRow) (s : Store) (r : LocationRow) (s' : Store)
    → reread_location o s ≡ ok (r, s')
    → KeepsLogs s s'
unfolding reread_location
reread_location-KeepsLogs o s r s' h = ground arith

create_location-KeepsLogs :
    (s : Store) (group : String) (p : CreateLocationParams) (r : LocationRow) (s' : Store)
    → create_location s group p ≡ ok (r, s')
    → KeepsLogs s s'
unfolding create_location
create_location-KeepsLogs s group p r s' h =
    let (_, checked, rest) = >>=-eq-ok (check_parent s group p.parent_id) _ h in
    let ((seq, s₁), allocated, rest₁) = >>=-eq-ok (alloc_change_seq s group) _ rest in
    let (s₂, inserted, last) = >>=-eq-ok (insert_location s₁ group _) _ rest₁ in
    KeepsLogs-trans s s₁ s' (alloc_change_seq-KeepsLogs s group seq s₁ allocated) (
      KeepsLogs-trans s₁ s₂ s' (insert_location-KeepsLogs s₁ group _ s₂ inserted)
        (reread_location-KeepsLogs _ s₂ r s' last))

write_location-KeepsLogs :
    (s : Store) (group : String) (p : UpdateLocationParams) (seq : ℕ) (r : LocationRow) (s' : Store)
    → write_location s group p seq ≡ ok (r, s')
    → KeepsLogs s s'
unfolding write_location
write_location-KeepsLogs s group p seq r s' h = ground arith

update_location-KeepsLogs :
    (s : Store) (group : String) (p : UpdateLocationParams) (r : LocationRow) (s' : Store)
    → update_location s group p ≡ ok (r, s')
    → KeepsLogs s s'
unfolding update_location update_location_found
update_location-KeepsLogs s group p r s' h =
    elim (Option-cases (get_location s group p.location_id)) [
      | inl e ↦ absurd (ground (arith, rw (e, update_location) at h))
      | inr (current, e) ↦
          let found = rw (e, update_location) at h in
          elim (Bool-cases (current.version == p.expected_version)) [
            | inl same ↦
                let (_, checked, rest) =
                  >>=-eq-ok (check_move s group p.location_id p.parent_id) _
                    (rw (same, update_location_found) at found) in
                let ((seq, s₁), allocated, written) = >>=-eq-ok (alloc_change_seq s group) _ rest in
                KeepsLogs-trans s s₁ s' (alloc_change_seq-KeepsLogs s group seq s₁ allocated)
                  (write_location-KeepsLogs s₁ group p seq r s' written)
            | inr other ↦ absurd (ground (arith, rw (other, update_location_found) at found))
          ]
    ]

pub push_location-KeepsLog : (out : Outside) → KeepsLog (push_location out)
push_location-KeepsLog out s group m o s' h =
    EntityPush-keeps (create_location s group) (update_location s group) s s' (KeepsLogs s)
      (refl, refl) (create_location-KeepsLogs s group) (update_location-KeepsLogs s group)
      (λ s₁ fields kept. kept) (push_location-LocationPush out s group m o s' h)

-- Where a household's locations form a tree, a push of a location that returns no error leaves a tree,
-- whatever the mutation says, and whatever the conflicts.
pub push_location-Tree :
    (out : Outside) (s : Store) (group : String) (m : PushMutation) (o : PushOutcome) (s' : Store)
    → Tree s group
    → push_location out s group m ≡ ok (o, s')
    → Tree s' group
push_location-Tree out s group m o s' tree h =
    EntityPush-keeps (create_location s group) (update_location s group) s s' (λ s. Tree s group)
      tree (λ p r s₁. create_location-Tree s group p r s₁ tree)
      (λ p r s₁. update_location-Tree s group p r s₁ tree)
      (λ s₁ fields. Tree-rows s₁ (record s₁ { field_versions = fields }) group refl)
      (push_location-LocationPush out s group m o s' h)
