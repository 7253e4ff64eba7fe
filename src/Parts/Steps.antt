-- ===== src/Parts/Steps.antt =====
-- The operations on the warranties, sales and purchases of items, as steps: creations, updates and
-- deletions (server/internal/storage/warranty.go, sale.go and purchase.go) and the pushes of an
-- offline client (server/internal/storage/push_commit.go), in any order.
use mathlib.Core.Path.{subst}
use household_objects_srv.Prelude.{
  ℕ, String, ◌≡◌, sym, inl, inr, arith, Bool-cases, Option-cases, ok, >>=-eq-ok, ok-injective,
}
use household_objects_srv.Push.Rows.{PartRow}
use household_objects_srv.Push.Types.{Store, PushMutation, PushOutcome, Outside, PushError}
use household_objects_srv.Push.Entity.{EntityPush-keeps}
use household_objects_srv.Parts.{
  one, CreatePartParams, UpdatePartParams, get_part, create_part, update_part, delete_part,
  valid_creation, valid_update, create, update,
}
use household_objects_srv.Parts.Keeps.{Laws}
use household_objects_srv.Parts.Pushes.{push_part-PartPush}
use household_objects_srv.Parts.Push.{Pushed, push_part}
use household_objects_srv.Parts.Alone.{
  AtMostOne, create_part-AtMostOne, update_part-AtMostOne, delete_part-AtMostOne,
}

-- One operation without error, by any household.
pub data Step {P V : Type 0} (t : Pushed P V) (out : Outside) : Store → Store → Type 0 where
  creates :
      {s s' : Store} (group : String) (p : CreatePartParams P) (r : PartRow V)
      → create t.table s group p ≡ ok (r, s')
      → Step t out s s'
  updates :
      {s s' : Store} (group : String) (p : UpdatePartParams P) (r : PartRow V)
      → update t.table out s group p ≡ ok (r, s')
      → Step t out s s'
  deletes :
      {s s' : Store} (group item id : String) (now : ℕ)
      → delete_part t.table s group item id now ≡ ok s'
      → Step t out s s'
  pushes :
      {s s' : Store} (group : String) (m : PushMutation) (o : PushOutcome)
      → push_part t out s group m ≡ ok (o, s')
      → Step t out s s'

pub data Steps {P V : Type 0} (t : Pushed P V) (out : Outside) : Store → Store → Type 0 where
  done : {s : Store} → Steps t out s s
  next : {s s₁ s' : Store} → Step t out s s₁ → Steps t out s₁ s' → Steps t out s s'

module _ {P V : Type 0} (t : Pushed P V) (laws : Laws t.table) (e : PushError)
    (alone : t.table.count ≡ one e) (out : Outside) where
  create-AtMostOne :
      (s : Store) (group : String) (p : CreatePartParams P) (r : PartRow V) (s' : Store)
      → AtMostOne (t.table.rows s)
      → create t.table s group p ≡ ok (r, s')
      → AtMostOne (t.table.rows s')
  unfolding create
  create-AtMostOne s group p r s' atmost h = elim (Bool-cases (valid_creation t.table p)) [
    | inl v ↦ create_part-AtMostOne t.table laws e alone s group p r s' atmost (rw (v, create) at h)
    | inr v ↦ absurd (ground (arith, rw (v, create) at h))
  ]

  update-AtMostOne :
      (s : Store) (group : String) (p : UpdatePartParams P) (r : PartRow V) (s' : Store)
      → AtMostOne (t.table.rows s)
      → update t.table out s group p ≡ ok (r, s')
      → AtMostOne (t.table.rows s')
  unfolding update
  update-AtMostOne s group p r s' atmost h = elim (Bool-cases (valid_update t.table p)) [
    | inl v ↦
        let ((row, s₁), updated, rest) =
          >>=-eq-ok (update_part t.table s group p) _ (rw (v, update) at h) in
        let after = update_part-AtMostOne t.table laws e alone s group p row s₁ atmost updated in
        elim (Option-cases (get_part t.table s group p.item_id p.id)) [
          | inl gone ↦ absurd (ground (arith, rw gone at rest))
          | inr (before, found) ↦
              subst (λ x. AtMostOne (t.table.rows x)) (ok-injective (rw found at rest)).1
                (subst AtMostOne (sym (laws.rows-field_versions s₁ _)) after)
        ]
    | inr v ↦ absurd (ground (arith, rw (v, update) at h))
  ]

  pub push_part-AtMostOne :
      (s : Store) (group : String) (m : PushMutation) (o : PushOutcome) (s' : Store)
      → AtMostOne (t.table.rows s)
      → push_part t out s group m ≡ ok (o, s')
      → AtMostOne (t.table.rows s')
  push_part-AtMostOne s group m o s' atmost h =
      EntityPush-keeps (create_part t.table s group) (update_part t.table s group) s s'
        (λ x. AtMostOne (t.table.rows x)) atmost
        (λ p r s₁. create_part-AtMostOne t.table laws e alone s group p r s₁ atmost)
        (λ p r s₁. update_part-AtMostOne t.table laws e alone s group p r s₁ atmost)
        (λ s₁ fields after. subst AtMostOne (sym (laws.rows-field_versions s₁ fields)) after)
        (push_part-PartPush t out s group m o s' h)

  Step-AtMostOne :
      (s s' : Store) → Step t out s s' → AtMostOne (t.table.rows s) → AtMostOne (t.table.rows s')
  Step-AtMostOne s s' (creates group p r h) atmost = create-AtMostOne s group p r s' atmost h
  Step-AtMostOne s s' (updates group p r h) atmost = update-AtMostOne s group p r s' atmost h
  Step-AtMostOne s s' (deletes group item id now h) atmost =
      delete_part-AtMostOne t.table laws e alone s group item id now s' atmost h
  Step-AtMostOne s s' (pushes group m o h) atmost = push_part-AtMostOne s group m o s' atmost h

  -- Where a table takes one live row for an item, and no item has two, then no item has two after any
  -- sequence of creations, updates, deletions and pushes without error.
  pub Steps-AtMostOne :
      (s s' : Store) → Steps t out s s' → AtMostOne (t.table.rows s) → AtMostOne (t.table.rows s')
  Steps-AtMostOne s s' done atmost = atmost
  Steps-AtMostOne s s' (next {s₁ = s₁} step steps) atmost =
      Steps-AtMostOne s₁ s' steps (Step-AtMostOne s s₁ step atmost)
