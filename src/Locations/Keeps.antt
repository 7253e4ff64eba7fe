-- ===== src/Locations/Keeps.antt =====
-- `createLocationTx`, `updateLocationTx` and `Delete` of server/internal/storage/locations.go on the
-- location tree.
use mathlib.Core.Path.{subst}
use household_objects_srv.Prelude.{
  ℕ, String, str_eq, eq_iff, ◌≡◌, refl, sym, ap, ◌∙◌, Bool, true, false, ◌&&◌, Option, none, some,
  List, [], ◌∷◌, inl, inr, arith, if◌then◌else◌, Bool-cases, Option-cases, ok, select, find?,
  update_where, >>=-eq-ok, ◌==◌,
}
use household_objects_srv.Push.Types.{LocationRow, Store, PushError, location_cycle}
use household_objects_srv.Push.Storage.{is_some, null_string, alloc_change_seq}
use household_objects_srv.Push.Merge.{contains}
use household_objects_srv.Locations.{
  UpdateLocationParams, location_version_is, get_location, check_parent, check_move, edges,
  parent_of, updated_location, write_location, update_location, update_location_found,
  location_move_creates_cycle, refuse_cycle,
}
use household_objects_srv.Locations.Rooted.{AvoidsTarget}
use household_objects_srv.Locations.Walk.{ids_of}
use household_objects_srv.Locations.Relocate.{
  UniqueIds, Writes, hit, UniqueIds-write, ids_of-write, parent_of-relocate, parent_of-keep,
}
use household_objects_srv.Locations.Tree.{
  Tree, Relocates, Relocates-Tree, Avoids-fewer, parents, get_location-contains, refuse_cycle-ok,
  check_parent-ok, alloc_change_seq-locations,
}

abbrev pub in_group : String → LocationRow → Bool
in_group group r = str_eq r.group_id group

pub null_string-eq : (t u : String) → null_string t ≡ some u → (t ≡ u) × (str_eq t "" ≡ false)
null_string-eq t u h = ground arith

updated_location-Writes :
    (group : String) (p : UpdateLocationParams) (seq : ℕ)
    → Writes (in_group group) (updated_location p seq)
updated_location-Writes group p seq = record { same_id = λ r. refl; same_group = λ r. refl }

-- What is left of the checks of a new parent: it avoids what is moved, and is a location.
abbrev pub MoveOk : Store → String → String → String → Type 0
MoveOk s group moving parent =
    AvoidsTarget (parents s group) (λ id. str_eq id moving) (null_string parent)
    × ((t : String) → null_string parent ≡ some t → contains (ids_of (edges s group)) t ≡ true)

pub checked-MoveOk :
    (s : Store) (group moving parent : String) (e : PushError)
    → str_eq parent "" ≡ false
    → check_parent s group parent ≡ ok tt
    → refuse_cycle e (location_move_creates_cycle s group moving parent) ≡ ok tt
    → MoveOk s group moving parent
checked-MoveOk s group moving parent e named checked cycle =
    let (row, live) = check_parent-ok s group parent checked named in
    rw named (
      refuse_cycle-ok s group moving parent e cycle,
      λ t same.
          subst (λ t. contains (ids_of (edges s group)) t ≡ true) (ground arith)
            (get_location-contains s group parent row live),
    )

pub no_parent-MoveOk :
    (s : Store) (group moving parent : String)
    → str_eq parent "" ≡ true
    → MoveOk s group moving parent
no_parent-MoveOk s group moving parent e = rw e (tt, λ t absent. cc)

check_move-ok :
    (s : Store) (group moving parent : String)
    → check_move s group moving parent ≡ ok tt
    → MoveOk s group moving parent
unfolding check_move
check_move-ok s group moving parent h = elim (Bool-cases (str_eq parent "")) [
  | inl e ↦ no_parent-MoveOk s group moving parent e
  | inr e ↦
      let (_, checked, cycle) =
        >>=-eq-ok (check_parent s group parent) _ (rw (e, check_move) at h) in
      checked-MoveOk s group moving parent location_cycle e checked cycle
]

-- The writes of an UPDATE that gives rows a parent move them there.
module _ (s : Store) (group : String) (s' : Store) (tree : Tree s group) (q : LocationRow → Bool)
    (f : LocationRow → LocationRow) (writes : Writes (in_group group) f)
    (written : s'.locations ≡ update_where q f s.locations) where
  same_ids : ids_of (edges s' group) ≡ ids_of (edges s group)
  same_ids =
      ap (λ rows. ids_of (select (in_group group) rows)) written
      ∙ ids_of-write (in_group group) q f writes s.locations

  pub write-Relocates :
      (target : Option String)
      → ((r : LocationRow) → (f r).parent_id ≡ target)
      → AvoidsTarget (parents s group) (λ id. hit (in_group group) q f writes id s.locations) target
      → ((t : String) → target ≡ some t → contains (ids_of (edges s group)) t ≡ true)
      → Relocates s group s'
  write-Relocates target sets free known = record {
    test = λ id. hit (in_group group) q f writes id s.locations;
    target = target;
    unique =
        subst UniqueIds (sym written)
          (UniqueIds-write (in_group group) q f writes s.locations tree.unique);
    grows = λ id h. ap (λ ids. contains ids id) same_ids ∙ h;
    moves = record { moved = λ id h. after id ∙ rw h refl; others = λ id h. after id ∙ rw h refl };
    free = free;
    known = λ t e. ap (λ ids. contains ids t) same_ids ∙ known t e;
  }
    where
      after :
          (id : String)
          → parents s' group id ≡ (
              if hit (in_group group) q f writes id s.locations then target else parents s group id)
      after id =
          ap (λ rows. parent_of (select (in_group group) rows) id) written
          ∙ parent_of-relocate (in_group group) q f writes target id s.locations sets tree.unique

  -- The same of an UPDATE that leaves the parents.
  pub write-keeps : ((r : LocationRow) → (f r).parent_id ≡ r.parent_id) → Relocates s group s'
  write-keeps keeps = record {
    test = λ id. false;
    target = none;
    unique =
        subst UniqueIds (sym written)
          (UniqueIds-write (in_group group) q f writes s.locations tree.unique);
    grows = λ id h. ap (λ ids. contains ids id) same_ids ∙ h;
    moves = record {
      moved = λ id h. cc;
      others = λ id h.
          (ap (λ rows. parent_of (select (in_group group) rows) id) written
            ∙ parent_of-keep (in_group group) q f writes id s.locations keeps);
    };
    free = tt;
    known = λ t e. cc;
  }

write_location-rows :
    (s : Store) (group : String) (p : UpdateLocationParams) (seq : ℕ) (r : LocationRow) (s' : Store)
    → write_location s group p seq ≡ ok (r, s')
    → s'.locations
      ≡ update_where
          (location_version_is group p.location_id p.expected_version)
          (updated_location p seq)
          s.locations
unfolding write_location
write_location-rows s group p seq r s' h = ground arith

pub found-true :
    (p : LocationRow → Bool) (rows : List LocationRow)
    → is_some (find? p rows) ≡ true
    → (r : LocationRow) × (p r ≡ true)
found-true p [] h = cc
found-true p (r ∷ rows) h = elim (Bool-cases (p r)) [
  | inl e ↦ (r, e)
  | inr e ↦ found-true p rows (rw e at h)
]

hit-moving :
    (group : String) (p : UpdateLocationParams) (seq : ℕ) (rows : List LocationRow) (id : String)
    → hit
        (in_group group)
        (location_version_is group p.location_id p.expected_version)
        (updated_location p seq)
        (updated_location-Writes group p seq)
        id
        rows
      ≡ true
    → str_eq id p.location_id ≡ true
hit-moving group p seq rows id h =
    let (r, passes) =
      found-true
        (λ (r : LocationRow).
          in_group group r
          && (location_version_is group p.location_id p.expected_version r && str_eq r.id id))
        rows h in
    ground (arith, passes, eq_iff r.id id, eq_iff r.id p.location_id, eq_iff id p.location_id)

pub AvoidsTarget-fewer :
    (parent : String → Option String) (test test' : String → Bool) (target : Option String)
    → ((id : String) → test' id ≡ true → test id ≡ true)
    → AvoidsTarget parent test target
    → AvoidsTarget parent test' target
AvoidsTarget-fewer parent test test' none sub free = tt
AvoidsTarget-fewer parent test test' (some t) sub free = Avoids-fewer parent test test' t sub free

update_found-Tree :
    (s : Store) (group : String) (p : UpdateLocationParams) (current r : LocationRow) (s' : Store)
    → Tree s group
    → update_location_found s group p current ≡ ok (r, s')
    → Tree s' group
unfolding update_location_found
update_found-Tree s group p current r s' tree h =
    elim (Bool-cases (current.version == p.expected_version)) [
      | inl e ↦
          let (_, checked, rest) =
            >>=-eq-ok (check_move s group p.location_id p.parent_id) _
              (rw (e, update_location_found) at h) in
          let ((seq, s₁), allocated, written) = >>=-eq-ok (alloc_change_seq s group) _ rest in
          let (same, items) = alloc_change_seq-locations s group seq s₁ allocated in
          let rows =
            write_location-rows s₁ group p seq r s' written
            ∙ ap
                (update_where (location_version_is group p.location_id p.expected_version)
                  (updated_location p seq))
                same in
          let (free, known) = check_move-ok s group p.location_id p.parent_id checked in
          Relocates-Tree s group s' tree (
            write-Relocates s group s' tree
              (location_version_is group p.location_id p.expected_version) (updated_location p seq)
              (updated_location-Writes group p seq) rows (null_string p.parent_id) (λ r. refl)
              (AvoidsTarget-fewer (parents s group) (λ id. str_eq id p.location_id) _
                (null_string p.parent_id) (hit-moving group p seq s.locations) free)
              known)
      | inr e ↦ absurd (ground (arith, rw (e, update_location_found) at h))
    ]

-- Where a household's locations form a tree, an update that returns no error leaves a tree, whatever
-- parent it gives.
pub update_location-Tree :
    (s : Store) (group : String) (p : UpdateLocationParams) (r : LocationRow) (s' : Store)
    → Tree s group
    → update_location s group p ≡ ok (r, s')
    → Tree s' group
unfolding update_location
update_location-Tree s group p r s' tree h =
    elim (Option-cases (get_location s group p.location_id)) [
      | inl e ↦ absurd (ground (arith, rw (e, update_location) at h))
      | inr (current, e) ↦
          update_found-Tree s group p current r s' tree (rw (e, update_location) at h)
    ]
