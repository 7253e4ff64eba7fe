-- ===== src/Locations/Descended.antt =====
-- What `Descendants` of server/internal/storage/locations.go finds: the locations whose parents lead to
-- the one it starts from.
use mathlib.Core.Path.{subst}
use household_objects_srv.Prelude.{
  ◌+◌, String, str_eq, eq_iff, ◌≡◌, ◌↔◌, refl, sym, ap, ◌∙◌, Bool, true, false, ◌&&◌, not, Option,
  none, some, List, [], ◌∷◌, inl, inr, arith, if◌then◌else◌, Bool-cases, Option-cases, ok, length,
  find?, select,
}
use household_objects_srv.Push.Types.{LocationRow, Store}
use household_objects_srv.Push.Storage.{is_some}
use household_objects_srv.Push.Merge.{contains}
use household_objects_srv.Locations.{get_location, location_is, edges, parent_of}
use household_objects_srv.Locations.Removal.{refers}
use household_objects_srv.Locations.Relocate.{Unused, UniqueIds, hit-parent}
use household_objects_srv.Locations.Tree.{Reaches, there, onward, parents}
use household_objects_srv.Locations.Keeps.{in_group}
use household_objects_srv.Locations.Descent.{
  live_entry, is_live, children, found_all, descendants, descend_all-ends,
}
use household_objects_srv.Locations.Searched.{descend-Searched, descend_sound}

-- The children of a location are the rows whose parent it is.
child-hit :
    (group p x : String) (rows : List LocationRow)
    → contains (children (select (in_group group) rows) p) x ≡ true
    → is_some (
        find?
          (λ (r : LocationRow). in_group group r && (refers r.parent_id p && str_eq r.id x))
          rows)
      ≡ true
child-hit group p x [] h = cc
child-hit group p x (r ∷ rows) h = ground (arith, child-hit group p x rows)

refers-some : (o : Option String) (p : String) → refers o p ≡ true → o ≡ some p
refers-some none p h = cc
refers-some (some q) p h = ap some ((eq_iff q p).0 h)

child-parent :
    (s : Store) (group p x : String)
    → UniqueIds s.locations
    → contains (children (edges s group) p) x ≡ true
    → parents s group x ≡ some p
child-parent s group p x unique h =
    hit-parent (in_group group) (λ (r : LocationRow). refers r.parent_id p) (λ r. r)
      (record { same_id = λ r. refl; same_group = λ r. refl }) (some p) x s.locations
      (λ r k. refers-some r.parent_id p k) unique (child-hit group p x s.locations h)

chosen :
    (b : Bool) (o : Option String) (p : String)
    → (if b then o else none) ≡ some p
    → (b ≡ true) × (o ≡ some p)
chosen true o p h = (refl, h)
chosen false o p h = cc

parent_of-child :
    (rows : List LocationRow) (x p : String)
    → parent_of rows x ≡ some p
    → contains (children rows p) x ≡ true
unfolding parent_of
parent_of-child [] x p h = cc
parent_of-child (r ∷ rows) x p h = elim (Option-cases (parent_of rows x)) [
  | inl e ↦
      let (same, parent) = chosen (str_eq r.id x) r.parent_id p (rw (e, parent_of) at h) in
      let child : refers r.parent_id p ≡ true =
        (ap (λ o. refers o p) parent ∙ (eq_iff p p).1 refl) in
      ground (arith, same, child)
  | inr (q, e) ↦
      let same : some q ≡ some p = (rw (e, parent_of) at h) in
      let rest = parent_of-child rows x p (e ∙ same) in ground (arith, rest)
]

-- Who gets to a location from the children of another passes that other.
onward-child :
    (s : Store) (group id p x : String)
    → UniqueIds s.locations
    → Reaches (parents s group) id p
    → contains (children (edges s group) p) x ≡ true
    → Reaches (parents s group) id x
onward-child s group id p x unique way h = onward p (child-parent s group p x unique h) way

Reaches-all :
    (parent : String → Option String) (rows : List LocationRow) (id x : String) (all : List String)
    → ((x p : String) → parent x ≡ some p → contains (children rows p) x ≡ true)
    → contains all id ≡ true
    → ((p x : String)
        → contains all p ≡ true
        → contains (children rows p) x ≡ true
        → contains all x ≡ true)
    → Reaches parent id x
    → contains all x ≡ true
Reaches-all parent rows id x all edge start closed (there e) =
    ap (contains all) ((eq_iff x id).0 e) ∙ start
Reaches-all parent rows id x all edge start closed (onward next e rest) =
    closed next x (Reaches-all parent rows id next all edge start closed rest) (edge x next e)

live_entry-Unused :
    (group x : String) (rows : List LocationRow)
    → Unused x rows
    → live_entry (select (in_group group) rows) x ≡ none
unfolding live_entry
live_entry-Unused group x [] h = refl
live_entry-Unused group x (r ∷ rows) (h, hs) = ground (arith, live_entry-Unused group x rows hs)

no_location :
    (group x : String) (rows : List LocationRow)
    → Unused x rows
    → find? (location_is group x) rows ≡ none
no_location group x [] h = refl
no_location group x (r ∷ rows) (h, hs) = ground (arith, no_location group x rows hs)

keep_entry :
    (o v : Option Bool) (b : Bool)
    → b ≡ false
    → elim o [ some c ↦ some c | none ↦ if b then v else none ] ≡ o
keep_entry none v b h = ground arith
keep_entry (some c) v b h = refl

live_entry-past :
    (r : LocationRow) (rows : List LocationRow) (x : String)
    → str_eq r.id x ≡ false
    → live_entry (r ∷ rows) x ≡ live_entry rows x
unfolding live_entry
live_entry-past r rows x h =
    keep_entry (live_entry rows x) (some (not (is_some r.deleted_at))) (str_eq r.id x) h

-- The map of the live locations holds what `GetLocation` finds.
is_live-get :
    (group x : String) (rows : List LocationRow)
    → UniqueIds rows
    → is_live (select (in_group group) rows) x ≡ is_some (find? (location_is group x) rows)
unfolding live_entry
is_live-get group x [] h = refl
is_live-get group x (r ∷ rows) (unused, unique) = elim (Bool-cases (str_eq r.id x)) [
  | inl e ↦
      let none_else = subst (λ (i : String). Unused i rows) ((eq_iff r.id x).0 e) unused in
      ground (arith, live_entry-Unused group x rows none_else, no_location group x rows none_else)
  | inr e ↦
      let rest = is_live-get group x rows unique in
      let past = live_entry-past r (select (in_group group) rows) x e in
      elim (Bool-cases (in_group group r)) [ inl g ↦ rw (g, e, past) rest | inr g ↦ rw g rest ]
]

-- A list of the locations that have an ancestor, or themselves, in a location.
pub record Finds (s : Store) (group id : String) : Type 0 where
  pub out : List String
  pub returned : descendants s group id ≡ ok out
  pub each :
      (x : String)
      → (contains out x ≡ true)
        ↔ ((is_some (get_location s group x) ≡ true) × Reaches (parents s group) id x)

-- Where the ids of the locations are unique, a search from an id that is not empty comes to an end, and
-- what it lists are exactly the live locations of the household whose parents, themselves included,
-- lead to the id.
pub descendants-Finds :
    (s : Store) (group id : String)
    → UniqueIds s.locations
    → str_eq id "" ≡ false
    → Finds s group id
unfolding descendants found_all get_location
descendants-Finds s group id unique named =
    let rows = edges s group in
    let (out, e) = descend_all-ends rows id in
    let searched = descend-Searched rows (length rows + 1) [] (id ∷ []) out (λ p x h k. cc) e in
    let live = λ (x : String). is_live-get group x s.locations unique in
    let self : str_eq id id ≡ true = (eq_iff id id).1 refl in
    record {
      out = out;
      returned = rw (named, e, descendants) refl;
      each = λ x. (
        λ h.
            (let (way, alive) =
                descend_sound (Reaches (parents s group) id) rows
                  (λ p y. onward-child s group id p y unique) (length rows + 1) [] (id ∷ []) out
                  (λ y k. there ((eq_iff y id).1 (sym ((eq_iff id y).0 (ground (arith, k)))))) e x
                  h in
              (sym (live x) ∙ alive, way)),
        λ (alive, way).
            (let all =
                Reaches-all (parents s group) rows id x searched.all
                  (λ y p. parent_of-child rows y p) (searched.queued id (ground (arith, self)))
                  searched.closed way in
              searched.listed x all (live x ∙ alive)),
      );
    }
