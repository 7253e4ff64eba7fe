-- ===== src/Parts/Alone.antt =====
-- The live rows of an item in the tables of warranties, sales and purchases, through a creation, an
-- update and a deletion (server/internal/storage/warranty.go, sale.go and purchase.go).
use mathlib.Core.Path.{subst}
use household_objects_srv.Prelude.{
  ℕ, ◌≤◌, String, str_eq, eq_iff, ◌≡◌, refl, sym, Bool, true, ◌&&◌, not, inl, inr, arith,
  Bool-cases, Option, none, some, List, [], ◌∷◌, ◌++◌, ok, select, none-length-select,
  length-select-append, length-select-update_where, length, find?, update_where,
}
use household_objects_srv.Push.Rows.{PartRow}
use household_objects_srv.Push.Types.{Store, PushError}
use household_objects_srv.Push.Storage.{is_some}
use household_objects_srv.Parts.{
  Table, one, CreatePartParams, UpdatePartParams, check_free, new_part, get_part, create_part,
  update_part, part_is, part_version_is, updated_part, delete_part, buried_part,
}
use household_objects_srv.Parts.Keeps.{
  Laws, create_part-Made, update_part-Changed, rows-alloc_change_seq, delete_part-ok,
}

abbrev pub live_part : {V : Type 0} → String → String → PartRow V → Bool
live_part group item r =
    str_eq r.group_id group && (str_eq r.item_id item && not (is_some r.deleted_at))

-- No item of any household has two live rows.
abbrev pub AtMostOne : {V : Type 0} → List (PartRow V) → Type 0
AtMostOne rows = (group item : String) → length (select (live_part group item) rows) ≤ 1

module _ {V : Type 0} where
  AtMostOne-update_where :
      (q : PartRow V → Bool) (f : PartRow V → PartRow V) (rows : List (PartRow V))
      → ((group item : String) (r : PartRow V)
          → live_part group item (f r) ≡ true
          → live_part group item r ≡ true)
      → AtMostOne rows
      → AtMostOne (update_where q f rows)
  AtMostOne-update_where q f rows h atmost group item =
      let fewer = length-select-update_where (live_part group item) q f rows (h group item) in
      let before = atmost group item in omega arith

  same_address :
      (group item : String) (new : PartRow V)
      → live_part group item new ≡ true
      → (new.group_id ≡ group) × (new.item_id ≡ item)
  same_address group item new h =
      (ground (arith, eq_iff new.group_id group), ground (arith, eq_iff new.item_id item))

  AtMostOne-append :
      (new : PartRow V) (rows : List (PartRow V))
      → length (select (live_part new.group_id new.item_id) rows) ≡ 0
      → AtMostOne rows
      → AtMostOne (rows ++ new ∷ [])
  AtMostOne-append new rows free atmost group item = elim (Bool-cases (live_part group item new)) [
    | inl e ↦
        let (g, i) = same_address group item new e in
        let before = rw (g, i) at free in
        rw (length-select-append (live_part group item) rows new, e, before) (omega arith)
    | inr e ↦
        let before = atmost group item in
        rw (length-select-append (live_part group item) rows new, e) (omega arith)
  ]

free-none :
    {V : Type 0} (e : PushError) (o : Option (PartRow V)) → check_free (one e) o ≡ ok tt → o ≡ none
unfolding check_free
free-none e none h = refl
free-none e (some r) h = absurd (ground (arith, h))

module _ {P V : Type 0} (t : Table P V) (laws : Laws t) (e : PushError)
    (alone : t.count ≡ one e) where
  pub create_part-AtMostOne :
      (s : Store) (group : String) (p : CreatePartParams P) (r : PartRow V) (s' : Store)
      → AtMostOne (t.rows s)
      → create_part t s group p ≡ ok (r, s')
      → AtMostOne (t.rows s')
  unfolding get_part
  create_part-AtMostOne s group p r s' atmost h =
      let made = create_part-Made t laws s group p r s' h in
      let same = rows-alloc_change_seq t laws s group made.seq made.counted made.allocated in
      let none_live = none-length-select (live_part group p.item_id) (t.rows made.counted) (
        free-none e _ (
          subst
            (λ c.
              check_free c (find? (part_is c group p.item_id p.id) (t.rows made.counted)) ≡ ok tt)
            alone made.free)) in
      subst (λ x. AtMostOne (t.rows x)) (sym made.written)
        (subst AtMostOne (sym (laws.rows-put made.counted _)) (
          AtMostOne-append (new_part t group p made.seq) (t.rows made.counted) none_live
            (subst AtMostOne (sym same) atmost)))

  pub update_part-AtMostOne :
      (s : Store) (group : String) (p : UpdatePartParams P) (r : PartRow V) (s' : Store)
      → AtMostOne (t.rows s)
      → update_part t s group p ≡ ok (r, s')
      → AtMostOne (t.rows s')
  update_part-AtMostOne s group p r s' atmost h =
      let changed = update_part-Changed t laws s group p r s' h in
      let same =
        rows-alloc_change_seq t laws s group changed.seq changed.counted changed.allocated in
      subst (λ x. AtMostOne (t.rows x)) (sym changed.written)
        (subst AtMostOne (sym (laws.rows-put changed.counted _)) (
          AtMostOne-update_where (part_version_is t.count group p.item_id p.id p.expected_version)
            (updated_part t p changed.seq) (t.rows changed.counted) (λ g i r k. k)
            (subst AtMostOne (sym same) atmost)))

  unburied :
      (group item : String) (r : PartRow V) (seq now : ℕ)
      → live_part group item (buried_part t now seq r) ≡ true
      → ⊥
  unburied group item r seq now h = ground (arith, h)

  pub delete_part-AtMostOne :
      (s : Store) (group item id : String) (now : ℕ) (s' : Store)
      → AtMostOne (t.rows s)
      → delete_part t s group item id now ≡ ok s'
      → AtMostOne (t.rows s')
  delete_part-AtMostOne s group item id now s' atmost h =
      let (seq, s₁, allocated, written) = delete_part-ok t laws s group item id now s' h in
      let same = rows-alloc_change_seq t laws s group seq s₁ allocated in
      subst (λ x. AtMostOne (t.rows x)) (sym written)
        (subst AtMostOne (sym (laws.rows-put s₁ _)) (
          AtMostOne-update_where (part_is t.count group item id) (buried_part t now seq) (t.rows s₁)
            (λ g i r k. absurd (unburied g i r seq now k)) (subst AtMostOne (sym same) atmost)))
