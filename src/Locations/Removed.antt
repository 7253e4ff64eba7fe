-- ===== src/Locations/Removed.antt =====
-- `Delete` of server/internal/storage/locations.go on the location tree.
use household_objects_srv.Prelude.{
  ℕ, String, str_eq, eq_iff, ◌≡◌, refl, ap, Bool, true, false, Option, none, some, inl, inr, arith,
  Bool-cases, Option-cases, ok, update_where, >>=-eq-ok,
}
use household_objects_srv.Push.Types.{LocationRow, Store, reassign_target}
use household_objects_srv.Push.Storage.{null_string, alloc_change_seq}
use household_objects_srv.Locations.{DeleteLocationParams, location_is, get_location, check_parent}
use household_objects_srv.Locations.Removal.{
  validate_delete, live_child, reparented, buried, check_empty, check_target, move_contents, bury,
  delete_location_found, delete_location,
}
use household_objects_srv.Locations.Rooted.{Avoids, off_root, off, AvoidsTarget}
use household_objects_srv.Locations.Relocate.{Writes, hit, hit-parent}
use household_objects_srv.Locations.Tree.{
  Tree, Relocates-Tree, parents, alloc_change_seq-locations, Tree-rows,
}
use household_objects_srv.Locations.Keeps.{
  in_group, MoveOk, checked-MoveOk, no_parent-MoveOk, write-Relocates, write-keeps,
}

reparented-Writes :
    (group : String) (target : Option String) (now seq : ℕ)
    → Writes (in_group group) (reparented target now seq)
reparented-Writes group target now seq = record { same_id = λ r. refl; same_group = λ r. refl }

buried-Writes : (group : String) (now seq : ℕ) → Writes (in_group group) (buried now seq)
buried-Writes group now seq = record { same_id = λ r. refl; same_group = λ r. refl }

live_child-parent :
    (group id : String) (r : LocationRow) → live_child group id r ≡ true → r.parent_id ≡ some id
live_child-parent group id r h = refers-some r.parent_id (ground arith)
  where
    refers-some :
        (o : Option String)
        → elim o [ none ↦ false | some parent ↦ str_eq parent id ] ≡ true
        → o ≡ some id
    refers-some none e = cc
    refers-some (some parent) e = ap some ((eq_iff parent id).0 e)

-- The way from a target that avoids a location avoids its children.
Avoids-children :
    (parent : String → Option String) (moving : String) (test : String → Bool) (id : String)
    → ((id : String) → test id ≡ true → parent id ≡ some moving)
    → Avoids parent (λ id. str_eq id moving) id
    → Avoids parent test id
Avoids-children parent moving test id under (off_root h e) = elim (Bool-cases (test id)) [
  | inl k ↦ absurd (ground (arith, under id k))
  | inr k ↦ off_root k e
]
Avoids-children parent moving test id under (off next h e rest) = elim (Bool-cases (test id)) [
  | inl k ↦
      let same : next ≡ moving = ground (arith, under id k) in absurd (not_there next same rest)
  | inr k ↦ off next k e (Avoids-children parent moving test next under rest)
]
  where
    not_there : (next : String) → next ≡ moving → Avoids parent (λ id. str_eq id moving) next → ⊥
    not_there next same (off_root h e) = cc (h, (eq_iff next moving).1 same)
    not_there next same (off next' h e rest) = cc (h, (eq_iff next moving).1 same)

check_target-ok :
    (s : Store) (group : String) (p : DeleteLocationParams)
    → check_target s group p ≡ ok tt
    → p.reassign ≡ true
    → MoveOk s group p.location_id p.reassign_to
unfolding check_target
check_target-ok s group p h reassign = elim (Bool-cases (str_eq p.reassign_to "")) [
  | inl e ↦ no_parent-MoveOk s group p.location_id p.reassign_to e
  | inr e ↦
      let (_, checked, cycle) =
        >>=-eq-ok (check_parent s group p.reassign_to) _ (rw (reassign, e, check_target) at h) in
      checked-MoveOk s group p.location_id p.reassign_to reassign_target e checked cycle
]

children-hit :
    (group : String) (p : DeleteLocationParams) (seq : ℕ) (s : Store) (target : Option String)
    → Tree s group
    → (id : String)
    → hit
        (in_group group)
        (live_child group p.location_id)
        (reparented target p.now seq)
        (reparented-Writes group target p.now seq)
        id
        s.locations
      ≡ true
    → parents s group id ≡ some p.location_id
children-hit group p seq s target tree id h =
    hit-parent (in_group group) (live_child group p.location_id) (reparented target p.now seq)
      (reparented-Writes group target p.now seq) (some p.location_id) id s.locations
      (live_child-parent group p.location_id) tree.unique h

AvoidsTarget-children :
    (parent : String → Option String) (moving : String) (test : String → Bool)
    (target : Option String)
    → ((id : String) → test id ≡ true → parent id ≡ some moving)
    → AvoidsTarget parent (λ id. str_eq id moving) target
    → AvoidsTarget parent test target
AvoidsTarget-children parent moving test none under free = tt
AvoidsTarget-children parent moving test (some t) under free =
    Avoids-children parent moving test t under free

move_contents-rows :
    (s : Store) (group : String) (p : DeleteLocationParams) (seq : ℕ) (s' : Store)
    → p.reassign ≡ true
    → move_contents s group p seq ≡ ok s'
    → s'.locations
      ≡ update_where
          (live_child group p.location_id)
          (reparented (null_string p.reassign_to) p.now seq)
          s.locations
unfolding move_contents
move_contents-rows s group p seq s' e h = ground arith

move_contents-keeps :
    (s : Store) (group : String) (p : DeleteLocationParams) (seq : ℕ) (s' : Store)
    → p.reassign ≡ false
    → move_contents s group p seq ≡ ok s'
    → s'.locations ≡ s.locations
unfolding move_contents
move_contents-keeps s group p seq s' e h = ground arith

move_contents-Tree :
    (s : Store) (group : String) (p : DeleteLocationParams) (seq : ℕ) (s' : Store)
    → Tree s group
    → (p.reassign ≡ true → MoveOk s group p.location_id p.reassign_to)
    → move_contents s group p seq ≡ ok s'
    → Tree s' group
move_contents-Tree s group p seq s' tree target h = elim (Bool-cases p.reassign) [
  | inl e ↦
      let (free, known) = target e in
      Relocates-Tree s group s' tree (
        write-Relocates s group s' tree (live_child group p.location_id)
          (reparented (null_string p.reassign_to) p.now seq)
          (reparented-Writes group (null_string p.reassign_to) p.now seq)
          (move_contents-rows s group p seq s' e h) (null_string p.reassign_to) (λ r. refl)
          (AvoidsTarget-children (parents s group) p.location_id _ (null_string p.reassign_to)
            (children-hit group p seq s (null_string p.reassign_to) tree) free)
          known)
  | inr e ↦ Tree-rows s s' group (move_contents-keeps s group p seq s' e h) tree
]

bury-rows :
    (s : Store) (group : String) (p : DeleteLocationParams) (seq : ℕ) (s' : Store)
    → bury s group p seq ≡ ok s'
    → s'.locations ≡ update_where (location_is group p.location_id) (buried p.now seq) s.locations
unfolding bury
bury-rows s group p seq s' h = ground arith

bury-Tree :
    (s : Store) (group : String) (p : DeleteLocationParams) (seq : ℕ) (s' : Store)
    → Tree s group
    → bury s group p seq ≡ ok s'
    → Tree s' group
bury-Tree s group p seq s' tree h = Relocates-Tree s group s' tree (
    write-keeps s group s' tree (location_is group p.location_id) (buried p.now seq)
      (buried-Writes group p.now seq) (bury-rows s group p seq s' h) (λ r. refl))

MoveOk-rows :
    (s s' : Store) (group moving parent : String)
    → s'.locations ≡ s.locations
    → MoveOk s group moving parent
    → MoveOk s' group moving parent
MoveOk-rows s s' group moving parent same target = rw same target

-- Where a household's locations form a tree, a deletion that returns no error leaves a tree, with and
-- without a place that gets what the location held.
pub delete_location-Tree :
    (s : Store) (group : String) (p : DeleteLocationParams) (s' : Store)
    → Tree s group
    → delete_location s group p ≡ ok s'
    → Tree s' group
unfolding delete_location delete_location_found
delete_location-Tree s group p s' tree h =
    let (_, valid, found) = >>=-eq-ok (validate_delete p) _ h in
    elim (Option-cases (get_location s group p.location_id)) [
      | inl e ↦ absurd (ground (arith, rw e at found))
      | inr (row, e) ↦
          let (_, empty, checks) =
            >>=-eq-ok (check_empty s group p) _ (rw (e, delete_location_found) at found) in
          let (_, target, allocation) = >>=-eq-ok (check_target s group p) _ checks in
          let ((seq, s₁), allocated, moves) = >>=-eq-ok (alloc_change_seq s group) _ allocation in
          let (s₂, moved, buries) = >>=-eq-ok (move_contents s₁ group p seq) _ moves in
          let (same, items) = alloc_change_seq-locations s group seq s₁ allocated in
          bury-Tree s₂ group p seq s'
            (move_contents-Tree s₁ group p seq s₂ (Tree-rows s s₁ group same tree)
              (λ k.
                MoveOk-rows s s₁ group p.location_id p.reassign_to same
                  (check_target-ok s group p target k))
              moved)
            buries
    ]
