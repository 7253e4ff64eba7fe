-- ===== src/Locations/Created.antt =====
-- `createLocationTx` of server/internal/storage/locations.go on the location tree.
use mathlib.Core.Path.{subst}
use household_objects_srv.Prelude.{
  String, str_eq, str_eq-swap, eq_iff, ◌≡◌, refl, sym, ap, ◌∙◌, Bool, true, false, ◌||◌, Option,
  none, some, List, [], ◌∷◌, ◌++◌, inl, inr, arith, if◌then◌else◌, Bool-cases, ok, select,
  select-append, find?, All-append, >>=-eq-ok,
}
use household_objects_srv.Push.Types.{LocationRow, Store}
use household_objects_srv.Push.Storage.{is_some, null_string, alloc_change_seq}
use household_objects_srv.Push.Merge.{contains}
use household_objects_srv.Locations.{
  CreateLocationParams, get_location, check_parent, edges, parent_of, new_location, insert_location,
  create_location, reread_location,
}
use household_objects_srv.Locations.Rooted.{
  Rooted, at_root, under, Avoids, off_root, off, AvoidsTarget,
}
use household_objects_srv.Locations.Walk.{ids_of}
use household_objects_srv.Locations.Relocate.{Unused, UniqueIds, parent_of-Unused}
use household_objects_srv.Locations.Tree.{
  Tree, Tree-rows, Relocates-Tree, parents, get_location-contains, check_parent-ok,
  alloc_change_seq-locations,
}
use household_objects_srv.Locations.Keeps.{in_group}

find?-none-Unused :
    (id : String) (rows : List LocationRow)
    → is_some (find? (λ (r : LocationRow). str_eq r.id id) rows) ≡ false
    → Unused id rows
find?-none-Unused id [] h = tt
find?-none-Unused id (r ∷ rows) h = elim (Bool-cases (str_eq r.id id)) [
  | inl e ↦ cc (rw e at h)
  | inr e ↦ (e, find?-none-Unused id rows (rw e at h))
]

UniqueIds-append :
    (rows : List LocationRow) (row : LocationRow)
    → Unused row.id rows
    → UniqueIds rows
    → UniqueIds (rows ++ row ∷ [])
UniqueIds-append [] row h k = (tt, tt)
UniqueIds-append (r ∷ rows) row (h, hs) (k, ks) = (
  All-append _ rows (row ∷ []) k ((str_eq-swap r.id row.id h), tt),
  UniqueIds-append rows row hs ks,
)

parent_of-append :
    (rows : List LocationRow) (row : LocationRow) (id : String)
    → parent_of (rows ++ row ∷ []) id ≡ (
        if str_eq row.id id
        then elim row.parent_id [ some p ↦ some p | none ↦ parent_of rows id ]
        else parent_of rows id)
unfolding parent_of
parent_of-append [] row id = ground arith
parent_of-append (r ∷ rows) row id = ground (arith, parent_of-append rows row id)

contains-Unused :
    (group id : String) (rows : List LocationRow)
    → Unused id rows
    → contains (ids_of (select (in_group group) rows)) id ≡ false
contains-Unused group id [] h = refl
contains-Unused group id (r ∷ rows) (h, hs) = ground (arith, contains-Unused group id rows hs)

ids_of-append :
    (rows : List LocationRow) (row : LocationRow) (id : String)
    → contains (ids_of (rows ++ row ∷ [])) id ≡ (contains (ids_of rows) id || str_eq row.id id)
ids_of-append [] row id = ground arith
ids_of-append (r ∷ rows) row id = ground (arith, ids_of-append rows row id)

apart :
    (s : Store) (group new id : String)
    → contains (ids_of (edges s group)) new ≡ false
    → contains (ids_of (edges s group)) id ≡ true
    → str_eq id new ≡ false
apart s group new id h k = elim (Bool-cases (str_eq id new)) [
  | inl e ↦ cc (h, subst (λ i. contains (ids_of (edges s group)) i ≡ true) ((eq_iff id new).0 e) k)
  | inr e ↦ e
]

-- The parents of a known location do not lead to an id that no row has.
known-Avoids :
    (s : Store) (group new id : String)
    → Tree s group
    → contains (ids_of (edges s group)) new ≡ false
    → contains (ids_of (edges s group)) id ≡ true
    → Rooted (parents s group) id
    → Avoids (parents s group) (λ id. str_eq id new) id
known-Avoids s group new id tree unknown known (at_root e) =
    off_root (apart s group new id unknown known) e
known-Avoids s group new id tree unknown known (under next e rest) =
    off next (apart s group new id unknown known) e
      (known-Avoids s group new next tree unknown (tree.linked id next e) rest)

insert_location-rows :
    (s : Store) (group : String) (row : LocationRow) (s' : Store)
    → insert_location s group row ≡ ok s'
    → (s'.locations ≡ s.locations ++ row ∷ [])
      × (is_some (find? (λ (r : LocationRow). str_eq r.id row.id) s.locations) ≡ false)
unfolding insert_location
insert_location-rows s group row s' h = ground arith

reread_location-same :
    (o : Option LocationRow) (s : Store) (r : LocationRow) (s' : Store)
    → reread_location o s ≡ ok (r, s')
    → s' ≡ s
unfolding reread_location
reread_location-same o s r s' h = ground arith

-- The target of a creation.
parent_target :
    (s : Store) (group parent new : String)
    → Tree s group
    → check_parent s group parent ≡ ok tt
    → contains (ids_of (edges s group)) new ≡ false
    → AvoidsTarget (parents s group) (λ id. str_eq id new) (null_string parent)
      × ((t : String) → null_string parent ≡ some t → contains (ids_of (edges s group)) t ≡ true)
parent_target s group parent new tree checked unknown = elim (Bool-cases (str_eq parent "")) [
  | inl e ↦ rw e (tt, λ t absent. cc)
  | inr e ↦
      let (row, live) = check_parent-ok s group parent checked e in
      let known = get_location-contains s group parent row live in
      rw e (
        known-Avoids s group new parent tree unknown known (tree.rooted parent),
        λ t same. subst (λ t. contains (ids_of (edges s group)) t ≡ true) (ground arith) known,
      )
]

choose :
    (b : Bool) (o old : Option String)
    → b ≡ true
    → old ≡ none
    → (if b then elim o [ some p ↦ some p | none ↦ old ] else old) ≡ o
choose b none old h k = ground arith
choose b (some p) old h k = ground arith

here :
    (row : LocationRow) (parent : String → Option String) (id : String)
    → id ≡ row.id
    → parent row.id ≡ none
    → (if str_eq row.id id
        then elim row.parent_id [ some p ↦ some p | none ↦ parent id ]
        else parent id)
      ≡ row.parent_id
here row parent id same old =
    choose (str_eq row.id id) row.parent_id (parent id) ((eq_iff row.id id).1 (sym same))
      (ap parent same ∙ old)

-- A row of a new id and a known parent is put into the tree.
inserted-Tree :
    (s : Store) (group : String) (row : LocationRow) (parent : String) (s' : Store)
    → Tree s group
    → row.group_id ≡ group
    → row.parent_id ≡ null_string parent
    → check_parent s group parent ≡ ok tt
    → insert_location s group row ≡ ok s'
    → Tree s' group
inserted-Tree s group row parent s' tree mine named checked h =
    let (rows, missing) = insert_location-rows s group row s' h in
    let unused = find?-none-Unused row.id s.locations missing in
    let unknown = contains-Unused group row.id s.locations unused in
    let (free, known) = parent_target s group parent row.id tree checked unknown in
    let joined : edges s' group ≡ edges s group ++ row ∷ [] =
      ap (select (in_group group)) rows
      ∙ select-append (in_group group) s.locations (row ∷ [])
      ∙ ap (λ (b : Bool). edges s group ++ (if b then row ∷ [] else []))
          ((eq_iff row.group_id group).1 mine) in
    let after = λ (id : String).
      (ap (λ (l : List LocationRow). parent_of l id) joined
        ∙ parent_of-append (edges s group) row id) in
    let ids = λ (id : String).
      (ap (λ (l : List LocationRow). contains (ids_of l) id) joined
        ∙ ids_of-append (edges s group) row id) in
    let grown =
      λ (id : String) (k : contains (ids_of (edges s group)) id ≡ true). (ids id ∙ rw k refl) in
    Relocates-Tree s group s' tree (record {
      test = λ id. str_eq id row.id;
      target = null_string parent;
      unique = subst UniqueIds (sym rows) (UniqueIds-append s.locations row unused tree.unique);
      grows = grown;
      moves = record {
        moved = λ id e.
            (let same : id ≡ row.id = (eq_iff id row.id).0 e in
              let old = parent_of-Unused (in_group group) row.id s.locations unused in
              after id ∙ here row (parents s group) id same old ∙ named);
        others = λ id e. (after id ∙ rw (str_eq-swap id row.id e) refl);
      };
      free = free;
      known = λ t e. grown t (known t e);
    })

check_parent-rows :
    (s s' : Store) (group parent : String)
    → s'.locations ≡ s.locations
    → check_parent s group parent ≡ ok tt
    → check_parent s' group parent ≡ ok tt
unfolding check_parent get_location
check_parent-rows s s' group parent e h = rw e h

-- Where a household's locations form a tree, a creation that returns no error leaves a tree.
pub create_location-Tree :
    (s : Store) (group : String) (p : CreateLocationParams) (r : LocationRow) (s' : Store)
    → Tree s group
    → create_location s group p ≡ ok (r, s')
    → Tree s' group
unfolding create_location
create_location-Tree s group p r s' tree h =
    let (_, checked, rest) = >>=-eq-ok (check_parent s group p.parent_id) _ h in
    let ((seq, s₁), allocated, more) = >>=-eq-ok (alloc_change_seq s group) _ rest in
    let (s₂, inserted, last) =
      >>=-eq-ok (insert_location s₁ group (new_location group p seq)) _ more in
    let same = reread_location-same (get_location s₂ group p.id) s₂ r s' last in
    let (rows, items) = alloc_change_seq-locations s group seq s₁ allocated in
    subst (λ s. Tree s group) (sym same)
      (inserted-Tree s₁ group (new_location group p seq) p.parent_id s₂
        (Tree-rows s s₁ group rows tree) refl refl
        (check_parent-rows s s₁ group p.parent_id rows checked) inserted)
