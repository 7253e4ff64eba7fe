-- ===== src/Locations/Relocate.antt =====
-- The parents of a household's locations after a statement of server/internal/storage/locations.go:
-- an INSERT, an UPDATE of the parents of some rows, and one that leaves the parents.
use mathlib.Core.Path.{subst}
use household_objects_srv.Prelude.{
  String, str_eq, eq_iff, ◌≡◌, refl, ap, ◌∙◌, Bool, true, false, ◌&&◌, Option, none, List, [], ◌∷◌,
  inl, inr, arith, if◌then◌else◌, Bool-cases, select, find?, update_where, All,
}
use household_objects_srv.Push.Types.{LocationRow}
use household_objects_srv.Push.Storage.{is_some}
use household_objects_srv.Locations.{parent_of}
use household_objects_srv.Locations.Walk.{ids_of}

-- No row has the id.
abbrev pub Unused : String → List LocationRow → Type 0
Unused id rows = All (λ (r : LocationRow). str_eq r.id id ≡ false) rows

-- The primary key.
abbrev pub UniqueIds : List LocationRow → Type 0
UniqueIds [] = Unit
UniqueIds (r ∷ rows) = Unused r.id rows × UniqueIds rows

parent_of-skip :
    (r : LocationRow) (rows : List LocationRow) (id : String)
    → str_eq r.id id ≡ false
    → parent_of (r ∷ rows) id ≡ parent_of rows id
unfolding parent_of
parent_of-skip r rows id h = ground arith

parent_of-top :
    (r : LocationRow) (rows : List LocationRow) (id : String)
    → str_eq r.id id ≡ true
    → parent_of rows id ≡ none
    → parent_of (r ∷ rows) id ≡ r.parent_id
unfolding parent_of
parent_of-top r rows id h k = ground arith

module _ (g : LocationRow → Bool) where
  pub parent_of-Unused :
      (id : String) (rows : List LocationRow) → Unused id rows → parent_of (select g rows) id ≡ none
  unfolding parent_of
  parent_of-Unused id [] h = refl
  parent_of-Unused id (r ∷ rows) (h, hs) = elim (Bool-cases (g r)) [
    | inl e ↦ rw e (parent_of-skip r (select g rows) id h ∙ parent_of-Unused id rows hs)
    | inr e ↦ rw e (parent_of-Unused id rows hs)
  ]

  -- A row with an id of its own decides the parent.
  parent_of-here :
      (r : LocationRow) (rows : List LocationRow) (id : String)
      → str_eq r.id id ≡ true
      → parent_of (select g rows) id ≡ none
      → parent_of (select g (r ∷ rows)) id ≡ (if g r then r.parent_id else none)
  parent_of-here r rows id h k = elim (Bool-cases (g r)) [
    | inl e ↦ rw e (parent_of-top r (select g rows) id h k)
    | inr e ↦ rw e k
  ]

  parent_of-past :
      (r : LocationRow) (rows : List LocationRow) (id : String)
      → str_eq r.id id ≡ false
      → parent_of (select g (r ∷ rows)) id ≡ parent_of (select g rows) id
  parent_of-past r rows id h = elim (Bool-cases (g r)) [
    | inl e ↦ rw e (parent_of-skip r (select g rows) id h)
    | inr e ↦ rw e refl
  ]

-- A statement that writes the rows that pass `q`, and leaves the id and the household of each.
pub record Writes (g : LocationRow → Bool) (f : LocationRow → LocationRow) : Type 0 where
  pub same_id : (r : LocationRow) → (f r).id ≡ r.id
  pub same_group : (r : LocationRow) → g (f r) ≡ g r

module _ (g q : LocationRow → Bool) (f : LocationRow → LocationRow) (writes : Writes g f) where
  -- The statement writes a row with this id.
  abbrev pub hit : String → List LocationRow → Bool
  hit id rows = is_some (find? (λ (r : LocationRow). g r && (q r && str_eq r.id id)) rows)

  Unused-write :
      (id : String) (rows : List LocationRow) → Unused id rows → Unused id (update_where q f rows)
  Unused-write id [] h = tt
  Unused-write id (r ∷ rows) (h, hs) = elim (Bool-cases (q r)) [
    | inl e ↦ rw e (ap (λ k. str_eq k id) (writes.same_id r) ∙ h, Unused-write id rows hs)
    | inr e ↦ rw e (h, Unused-write id rows hs)
  ]

  pub UniqueIds-write :
      (rows : List LocationRow) → UniqueIds rows → UniqueIds (update_where q f rows)
  UniqueIds-write [] h = tt
  UniqueIds-write (r ∷ rows) (h, hs) = elim (Bool-cases (q r)) [
    | inl e ↦ rw (e, writes.same_id r) (Unused-write r.id rows h, UniqueIds-write rows hs)
    | inr e ↦ rw e (Unused-write r.id rows h, UniqueIds-write rows hs)
  ]

  pub ids_of-write :
      (rows : List LocationRow) → ids_of (select g (update_where q f rows)) ≡ ids_of (select g rows)
  ids_of-write [] = refl
  ids_of-write (r ∷ rows) = ground (arith, ids_of-write rows, writes.same_id r, writes.same_group r)

  hit-Unused : (id : String) (rows : List LocationRow) → Unused id rows → hit id rows ≡ false
  hit-Unused id [] h = refl
  hit-Unused id (r ∷ rows) (h, hs) = ground (arith, hit-Unused id rows hs)

  head_parent :
      (target : Option String) (id : String) (r : LocationRow) (rows : List LocationRow)
      (old : Option String)
      → str_eq r.id id ≡ true
      → hit id rows ≡ false
      → (f r).parent_id ≡ target
      → old ≡ (if g r then r.parent_id else none)
      → (if g (if q r then f r else r) then (if q r then f r else r).parent_id else none)
        ≡ (if hit id (r ∷ rows) then target else old)
  head_parent target id r rows old e miss sets before = ground (arith, writes.same_group r)

  tail_hit :
      (target : Option String) (id : String) (r : LocationRow) (rows : List LocationRow)
      (old tail : Option String)
      → str_eq r.id id ≡ false
      → old ≡ tail
      → (if hit id rows then target else tail) ≡ (if hit id (r ∷ rows) then target else old)
  tail_hit target id r rows old tail e before = ground arith

  -- A statement that gives the rows that it writes one parent.
  pub parent_of-relocate :
      (target : Option String) (id : String) (rows : List LocationRow)
      → ((r : LocationRow) → (f r).parent_id ≡ target)
      → UniqueIds rows
      → parent_of (select g (update_where q f rows)) id
        ≡ (if hit id rows then target else parent_of (select g rows) id)
  parent_of-relocate target id [] sets unique = refl
  parent_of-relocate target id (r ∷ rows) sets (unused, unique) =
      let w = if q r then f r else r in
      let same_id : w.id ≡ r.id = ground (arith, writes.same_id r) in
      elim (Bool-cases (str_eq r.id id)) [
        | inl e ↦
            let none_else = subst (λ (i : String). Unused i rows) ((eq_iff r.id id).0 e) unused in
            let after =
              parent_of-here g w (update_where q f rows) id (ap (λ i. str_eq i id) same_id ∙ e)
                (parent_of-Unused g id (update_where q f rows) (Unused-write id rows none_else)) in
            let before = parent_of-here g r rows id e (parent_of-Unused g id rows none_else) in
            after
            ∙ head_parent target id r rows (parent_of (select g (r ∷ rows)) id) e
                (hit-Unused id rows none_else) (sets r) before
        | inr e ↦
            let after =
              parent_of-past g w (update_where q f rows) id (ap (λ i. str_eq i id) same_id ∙ e) in
            let before = parent_of-past g r rows id e in
            after
            ∙ parent_of-relocate target id rows sets unique
            ∙ tail_hit target id r rows (parent_of (select g (r ∷ rows)) id)
                (parent_of (select g rows) id) e before
      ]

  -- The rows that the statement writes have one parent before it.
  pub hit-parent :
      (parent : Option String) (id : String) (rows : List LocationRow)
      → ((r : LocationRow) → q r ≡ true → r.parent_id ≡ parent)
      → UniqueIds rows
      → hit id rows ≡ true
      → parent_of (select g rows) id ≡ parent
  hit-parent parent id [] had unique h = cc
  hit-parent parent id (r ∷ rows) had (unused, unique) h = elim (Bool-cases (str_eq r.id id)) [
    | inl e ↦
        let none_else = subst (λ (i : String). Unused i rows) ((eq_iff r.id id).0 e) unused in
        let here = parent_of-here g r rows id e (parent_of-Unused g id rows none_else) in
        let miss = hit-Unused id rows none_else in here ∙ ground (arith, miss, h, had r)
    | inr e ↦ parent_of-past g r rows id e ∙ hit-parent parent id rows had unique (ground arith)
  ]

  -- A statement that leaves the parents.
  pub parent_of-keep :
      (id : String) (rows : List LocationRow)
      → ((r : LocationRow) → (f r).parent_id ≡ r.parent_id)
      → parent_of (select g (update_where q f rows)) id ≡ parent_of (select g rows) id
  unfolding parent_of
  parent_of-keep id [] keeps = refl
  parent_of-keep id (r ∷ rows) keeps =
      ground (arith, parent_of-keep id rows keeps, writes.same_id r, writes.same_group r, keeps r)
