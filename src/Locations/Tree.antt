-- ===== src/Locations/Tree.antt =====
-- The invariant of a household's locations, and how a statement of
-- server/internal/storage/locations.go keeps it.
use mathlib.Core.Path.{subst}
use household_objects_srv.Prelude.{
  ℕ, zero, suc, ◌+◌, String, str_eq, ◌≡◌, refl, sym, ◌∙◌, Bool, true, false, Option, some, List, [],
  ◌∷◌, inl, inr, arith, Bool-cases, Option-cases, Result, ok, err, select, find?, length,
}
use household_objects_srv.Push.Types.{LocationRow, Store, PushError}
use household_objects_srv.Push.Storage.{alloc_change_seq}
use household_objects_srv.Push.Merge.{contains}
use household_objects_srv.Locations.{
  location_is, get_location, check_parent, edges, parent_of, walk, location_move_creates_cycle,
  refuse_cycle,
}
use household_objects_srv.Locations.Rooted.{
  Rooted, Rooted-Level, Avoids, off_root, off, Moves, AvoidsTarget, Moves-Rooted, walk-Avoids,
}
use household_objects_srv.Locations.Walk.{ids_of, walk-ends}
use household_objects_srv.Locations.Relocate.{UniqueIds}

abbrev pub parents : Store → String → String → Option String
parents s group = parent_of (edges s group)

-- The ids are unique, each parent is a location of the household, and each location's parents end at
-- a root.
pub record Tree (s : Store) (group : String) : Type 0 where
  pub unique : UniqueIds s.locations
  pub linked :
      (id next : String)
      → parents s group id ≡ some next
      → contains (ids_of (edges s group)) next ≡ true
  pub rooted : (id : String) → Rooted (parents s group) id

-- A statement that moves some locations to a target.
pub record Relocates (s : Store) (group : String) (s' : Store) : Type 0 where
  pub test : String → Bool
  pub target : Option String
  pub unique : UniqueIds s'.locations
  pub grows :
      (id : String)
      → contains (ids_of (edges s group)) id ≡ true
      → contains (ids_of (edges s' group)) id ≡ true
  pub moves : Moves (parents s group) (parents s' group) test target
  pub free : AvoidsTarget (parents s group) test target
  pub known : (t : String) → target ≡ some t → contains (ids_of (edges s' group)) t ≡ true

pub Relocates-Tree :
    (s : Store) (group : String) (s' : Store) → Tree s group → Relocates s group s' → Tree s' group
Relocates-Tree s group s' tree move = record {
  unique = move.unique;
  linked = λ id next e. elim (Bool-cases (move.test id)) [
    | inl h ↦ move.known next (sym (move.moves.moved id h) ∙ e)
    | inr h ↦ move.grows next (tree.linked id next (sym (move.moves.others id h) ∙ e))
  ];
  rooted = λ id.
      Moves-Rooted (parents s group) (parents s' group) move.test move.target id move.moves
        move.free (tree.rooted id);
}

fails : (a b : Bool) → (b ≡ true → a ≡ true) → a ≡ false → b ≡ false
fails a false h e = refl
fails a true h e = cc (h refl, e)

-- Fewer locations are easier to avoid.
pub Avoids-fewer :
    (parent : String → Option String) (test test' : String → Bool) (id : String)
    → ((id : String) → test' id ≡ true → test id ≡ true)
    → Avoids parent test id
    → Avoids parent test' id
Avoids-fewer parent test test' id sub (off_root h e) =
    off_root (fails (test id) (test' id) (sub id) h) e
Avoids-fewer parent test test' id sub (off next h e rest) =
    off next (fails (test id) (test' id) (sub id) h) e
      (Avoids-fewer parent test test' next sub rest)

-- A live location of the household is among its rows.
pub get_location-contains :
    (s : Store) (group id : String) (row : LocationRow)
    → get_location s group id ≡ some row
    → contains (ids_of (edges s group)) id ≡ true
unfolding get_location
get_location-contains s group id row h = found s.locations h
  where
    found :
        (rows : List LocationRow)
        → find? (location_is group id) rows ≡ some row
        → contains (ids_of (select (λ (r : LocationRow). str_eq r.group_id group) rows)) id ≡ true
    found [] h = cc
    found (r ∷ rows) h = ground (arith, found rows)

-- A parent that passes the checks for a move avoids the location, and is known.
pub refuse_cycle-ok :
    (s : Store) (group moving parent : String) (e : PushError)
    → refuse_cycle e (location_move_creates_cycle s group moving parent) ≡ ok tt
    → Avoids (parents s group) (λ id. str_eq id moving) parent
unfolding refuse_cycle location_move_creates_cycle
refuse_cycle-ok s group moving parent e h =
    walk-Avoids (parents s group) moving (length (edges s group) + 1) parent
      (inner (walk (parents s group) moving (length (edges s group) + 1) parent) h)
  where
    inner : (r : Result PushError Bool) → refuse_cycle e r ≡ ok tt → r ≡ ok false
    inner (ok true) h = cc
    inner (ok false) h = refl
    inner (err x) h = cc

pub check_parent-ok :
    (s : Store) (group parent : String)
    → check_parent s group parent ≡ ok tt
    → str_eq parent "" ≡ false
    → (row : LocationRow) × (get_location s group parent ≡ some row)
unfolding check_parent
check_parent-ok s group parent h named = elim (Option-cases (get_location s group parent)) [
  | inl e ↦ absurd (ground (arith, rw (named, e, check_parent) at h))
  | inr found ↦ found
]

pub alloc_change_seq-locations :
    (s : Store) (group : String) (seq : ℕ) (s' : Store)
    → alloc_change_seq s group ≡ ok (seq, s')
    → (s'.locations ≡ s.locations) × (s'.items ≡ s.items)
unfolding alloc_change_seq
alloc_change_seq-locations s group seq s' h = ground arith

-- Going from a location to its parent, and so on, one comes to another.
pub data Reaches (parent : String → Option String) (to : String) : String → Type 0 where
  there : {id : String} → str_eq id to ≡ true → Reaches parent to id
  onward :
      {id : String} (next : String)
      → parent id ≡ some next
      → Reaches parent to next
      → Reaches parent to id

Avoids-not_Reaches :
    (parent : String → Option String) (to id : String)
    → Avoids parent (λ id. str_eq id to) id
    → ¬ (Reaches parent to id)
Avoids-not_Reaches parent to id (off_root h e) (there k) = cc
Avoids-not_Reaches parent to id (off_root h e) (onward next k rest) = cc
Avoids-not_Reaches parent to id (off next h e free) (there k) = cc
Avoids-not_Reaches parent to id (off next h e free) (onward next' k rest) =
    let same : next' ≡ next = ground (arith, e, k) in
    Avoids-not_Reaches parent to next free (subst (Reaches parent to) same rest)

walk-Reaches :
    (parent : String → Option String) (moving : String) (steps : ℕ) (current : String)
    → walk parent moving steps current ≡ ok true
    → Reaches parent moving current
unfolding walk
walk-Reaches parent moving zero current h = cc
walk-Reaches parent moving (suc steps) current h = elim (Bool-cases (str_eq current moving)) [
  | inl e ↦ there e
  | inr e ↦ elim (Option-cases (parent current)) [
    | inl root ↦ absurd (ground (arith, rw (e, root, walk) at h))
    | inr (next, up) ↦
        onward next up (walk-Reaches parent moving steps next (rw (e, up, walk) at h))
  ]
]

-- What the check answers, of a location that may be moved and the parent that it may get.
pub data Answers (s : Store) (group moving candidate : String) : Type 0 where
  cycle :
      location_move_creates_cycle s group moving candidate ≡ ok true
      → Reaches (parents s group) moving candidate
      → Answers s group moving candidate
  no_cycle :
      location_move_creates_cycle s group moving candidate ≡ ok false
      → ¬ (Reaches (parents s group) moving candidate)
      → Answers s group moving candidate

decide_cycle :
    (s : Store) (group moving candidate : String) (b : Bool)
    → location_move_creates_cycle s group moving candidate ≡ ok b
    → Answers s group moving candidate
unfolding location_move_creates_cycle
decide_cycle s group moving candidate true h =
    cycle h (walk-Reaches (parents s group) moving _ candidate h)
decide_cycle s group moving candidate false h = no_cycle h (
    Avoids-not_Reaches (parents s group) moving candidate
      (walk-Avoids (parents s group) moving _ candidate h))

-- In a household whose locations form a tree, the check for cycles comes to an answer for any two
-- locations, within its bound on the steps; it answers yes where the parents of the candidate, itself
-- included, lead to the location that is moved, and no where they do not.
pub location_move_creates_cycle-Answers :
    (s : Store) (group moving candidate : String) → Tree s group → Answers s group moving candidate
unfolding location_move_creates_cycle
location_move_creates_cycle-Answers s group moving candidate tree =
    let (n, level) = Rooted-Level (parents s group) candidate (tree.rooted candidate) in
    let (b, answer) = walk-ends (edges s group) moving candidate n level in
    decide_cycle s group moving candidate b answer

abbrev rows_of : String → List LocationRow → List LocationRow
rows_of group rows = select (λ (r : LocationRow). str_eq r.group_id group) rows

-- The invariant is one of the rows alone.
pub Tree-rows :
    (s s' : Store) (group : String) → s'.locations ≡ s.locations → Tree s group → Tree s' group
Tree-rows s s' group e tree = record {
  unique = subst UniqueIds (sym e) tree.unique;
  linked =
      subst
        (λ (rows : List LocationRow).
          (id next : String)
          → parent_of (rows_of group rows) id ≡ some next
          → contains (ids_of (rows_of group rows)) next ≡ true)
        (sym e) tree.linked;
  rooted =
      subst
        (λ (rows : List LocationRow). (id : String) → Rooted (parent_of (rows_of group rows)) id)
        (sym e) tree.rooted;
}
