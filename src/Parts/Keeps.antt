-- ===== src/Parts/Keeps.antt =====
-- What the statements on the rows of an item write.

use household_objects_srv.Prelude.{
  ℕ, String, str_eq, ◌≡◌, sym, ap, ◌∙◌, true, ◌||◌, inl, inr, arith, Bool-cases, Option-cases,
  Option, none, some, List, [], ◌∷◌, ◌++◌, ok, >>=-eq-ok, ok-injective, ◌==◌, select, length, find?,
  update_where,
}
use mathlib.Core.Path.{subst}
use household_objects_srv.Push.Rows.{PartRow}
use household_objects_srv.Push.Types.{GroupRow, FieldVersionRow, Store}
use household_objects_srv.Push.Storage.{is_some, group_is, alloc_change_seq}
use household_objects_srv.Push.Items.{get_item}
use household_objects_srv.Parts.{
  Table, CreatePartParams, UpdatePartParams, check_free, get_part, new_part, insert_part,
  reread_part, create_part, updated_part, part_is, part_version_is, no_address, buried_part,
  delete_part, write_part, update_part_found, update_part,
}
use household_objects_srv.Push.Entity.{KeepsLogs}

-- What a table's rows have to do with the rest of the store.
pub record Laws {P V : Type 0} (t : Table P V) : Type 0 where
  pub rows-groups :
      (s : Store) (groups : List GroupRow) → t.rows (record s { groups = groups }) ≡ t.rows s
  pub rows-field_versions :
      (s : Store) (fields : List FieldVersionRow)
      → t.rows (record s { field_versions = fields }) ≡ t.rows s
  pub rows-put : (s : Store) (rows : List (PartRow V)) → t.rows (t.put s rows) ≡ rows
  pub put-KeepsLogs : (s : Store) (rows : List (PartRow V)) → KeepsLogs s (t.put s rows)

module _ {P V : Type 0} (t : Table P V) (laws : Laws t) where
  pub rows-alloc_change_seq :
      (s : Store) (group : String) (seq : ℕ) (s' : Store)
      → alloc_change_seq s group ≡ ok (seq, s')
      → t.rows s' ≡ t.rows s
  unfolding alloc_change_seq
  rows-alloc_change_seq s group seq s' h = elim (Option-cases (find? (group_is group) s.groups)) [
    | inl e ↦ absurd (ground (arith, rw (e, alloc_change_seq) at h))
    | inr (g, e) ↦
        subst (λ x. t.rows x ≡ t.rows s) (ok-injective (rw (e, alloc_change_seq) at h)).1
          (laws.rows-groups s _)
  ]

  -- What a creation without error has done: there was no row in the way, and one is appended.
  pub record Made (s : Store) (group : String) (p : CreatePartParams P) (r : PartRow V) (s' : Store)
      : Type 0 where
    pub seq : ℕ
    pub counted : Store
    pub item : is_some (get_item s group p.item_id) ≡ true
    pub allocated : alloc_change_seq s group ≡ ok (seq, counted)
    pub free : check_free t.count (get_part t counted group p.item_id p.id) ≡ ok tt
    pub admitted : t.admits counted group (t.columns p.values) ≡ true
    pub written : s' ≡ t.put counted (t.rows counted ++ new_part t group p seq ∷ [])
    pub read : get_part t s' group p.item_id p.id ≡ some r

  insert_part-ok :
      (s : Store) (row : PartRow V) (s' : Store)
      → insert_part t s row ≡ ok s'
      → (check_free t.count (get_part t s row.group_id row.item_id row.id) ≡ ok tt)
        × (t.admits s row.group_id row.values ≡ true)
        × (s' ≡ t.put s (t.rows s ++ row ∷ []))
  unfolding insert_part
  insert_part-ok s row s' h =
      elim (Bool-cases (is_some (find? (λ (r : PartRow V). str_eq r.id row.id) (t.rows s)))) [
        | inl e ↦ absurd (ground (arith, rw (e, insert_part) at h))
        | inr e ↦ elim (Bool-cases (t.admits s row.group_id row.values)) [
          | inl a ↦
              let (_, free, last) =
                >>=-eq-ok (check_free t.count (get_part t s row.group_id row.item_id row.id)) _
                  (rw (e, a, insert_part) at h) in
              let same : t.put s (t.rows s ++ row ∷ []) ≡ s' = ground (arith, last) in
              (free, a, sym same)
          | inr a ↦ absurd (ground (arith, rw (e, a, insert_part) at h))
        ]
      ]

  pub reread_part-ok :
      (o : Option (PartRow V)) (s : Store) (r : PartRow V) (s' : Store)
      → reread_part o s ≡ ok (r, s')
      → (o ≡ some r) × (s' ≡ s)
  unfolding reread_part
  reread_part-ok none s r s' h = absurd (ground (arith, h))
  reread_part-ok (some x) s r s' h = (ap some (ok-injective h).0, sym (ok-injective h).1)

  pub create_part-Made :
      (s : Store) (group : String) (p : CreatePartParams P) (r : PartRow V) (s' : Store)
      → create_part t s group p ≡ ok (r, s')
      → Made s group p r s'
  unfolding create_part
  create_part-Made s group p r s' h = elim (Bool-cases (is_some (get_item s group p.item_id))) [
    | inl e ↦
        let (_, before, rest) =
          >>=-eq-ok (check_free t.count (get_part t s group p.item_id p.id)) _
            (rw (e, create_part) at h) in
        let ((seq, s₁), allocated, rest₁) = >>=-eq-ok (alloc_change_seq s group) _ rest in
        let (s₂, inserted, last) = >>=-eq-ok (insert_part t s₁ (new_part t group p seq)) _ rest₁ in
        let (free, admitted, written) = insert_part-ok s₁ _ s₂ inserted in
        let (read, same) = reread_part-ok (get_part t s₂ group p.item_id p.id) s₂ r s' last in
        record {
          seq = seq;
          counted = s₁;
          item = e;
          allocated = allocated;
          free = free;
          admitted = admitted;
          written = same ∙ written;
          read = subst (λ s. get_part t s group p.item_id p.id ≡ some r) (sym same) read;
        }
    | inr e ↦ absurd (ground (arith, rw (e, create_part) at h))
  ]

  -- What an update without error has done: the row with the expected version is rewritten.
  pub record Changed (s : Store) (group : String) (p : UpdatePartParams P) (r : PartRow V)
      (s' : Store) : Type 0 where
    pub seq : ℕ
    pub counted : Store
    pub current : PartRow V
    pub found : get_part t s group p.item_id p.id ≡ some current
    pub expected : (current.version == p.expected_version) ≡ true
    pub allocated : alloc_change_seq s group ≡ ok (seq, counted)
    pub written :
        s'
        ≡ t.put counted (
            update_where
              (part_version_is t.count group p.item_id p.id p.expected_version)
              (updated_part t p seq)
              (t.rows counted))
    pub read : get_part t s' group p.item_id p.id ≡ some r

  write_part-ok :
      (s : Store) (group : String) (p : UpdatePartParams P) (seq : ℕ) (r : PartRow V) (s' : Store)
      → write_part t s group p seq ≡ ok (r, s')
      → (get_part t s' group p.item_id p.id ≡ some r)
        × (s'
            ≡ t.put s (
                update_where
                  (part_version_is t.count group p.item_id p.id p.expected_version)
                  (updated_part t p seq)
                  (t.rows s)))
  unfolding write_part
  write_part-ok s group p seq r s' h =
      elim (Bool-cases (
        length (select (part_version_is t.count group p.item_id p.id p.expected_version) (t.rows s))
        == 0)) [
          | inl e ↦ absurd (ground (arith, rw (e, write_part) at h))
          | inr e ↦ elim (Bool-cases (t.admits s group (t.columns p.values))) [
            | inl a ↦
                elim (Bool-cases (
                  length (
                    select (part_version_is t.count group p.item_id p.id p.expected_version)
                      (t.rows s))
                  == 1)) [
                    | inl o ↦
                        let (read, same) =
                          reread_part-ok _ _ r s' (rw (e, a, o, write_part) at h) in
                        (
                          subst (λ s. get_part t s group p.item_id p.id ≡ some r) (sym same) read,
                          same,
                        )
                    | inr o ↦ absurd (ground (arith, rw (e, a, o, write_part) at h))
                  ]
            | inr a ↦ absurd (ground (arith, rw (e, a, write_part) at h))
          ]
        ]

  pub update_part-Changed :
      (s : Store) (group : String) (p : UpdatePartParams P) (r : PartRow V) (s' : Store)
      → update_part t s group p ≡ ok (r, s')
      → Changed s group p r s'
  unfolding update_part update_part_found
  update_part-Changed s group p r s' h = elim (Option-cases (get_part t s group p.item_id p.id)) [
    | inl e ↦ absurd (ground (arith, rw (e, update_part) at h))
    | inr (current, e) ↦
        let found = rw (e, update_part) at h in
        elim (Bool-cases (current.version == p.expected_version)) [
          | inl same ↦
              let ((seq, s₁), allocated, last) =
                >>=-eq-ok (alloc_change_seq s group) _ (rw (same, update_part_found) at found) in
              let (read, written) = write_part-ok s₁ group p seq r s' last in
              record {
                seq = seq;
                counted = s₁;
                current = current;
                found = e;
                expected = same;
                allocated = allocated;
                written = written;
                read = read;
              }
          | inr other ↦ absurd (ground (arith, rw (other, update_part_found) at found))
        ]
  ]

  -- What a deletion without error has done: the live rows are marked.
  pub delete_part-ok :
      (s : Store) (group item id : String) (now : ℕ) (s' : Store)
      → delete_part t s group item id now ≡ ok s'
      → (seq : ℕ) × (s₁ : Store) × (alloc_change_seq s group ≡ ok (seq, s₁))
        × (s'
            ≡ t.put s₁
                (update_where (part_is t.count group item id) (buried_part t now seq) (t.rows s₁)))
  unfolding delete_part
  delete_part-ok s group item id now s' h =
      elim (Bool-cases (str_eq item "" || (no_address t.count id || now == 0))) [
        | inl e ↦ absurd (ground (arith, rw (e, delete_part) at h))
        | inr e ↦
            let ((seq, s₁), allocated, rest) =
              >>=-eq-ok (alloc_change_seq s group) _ (rw (e, delete_part) at h) in
            elim (Bool-cases (length (select (part_is t.count group item id) (t.rows s₁)) == 0)) [
              | inl z ↦ absurd (ground (arith, rw z at rest))
              | inr z ↦
                  let same : t.put s₁ (
                        update_where (part_is t.count group item id) (buried_part t now seq)
                          (t.rows s₁))
                      ≡ s' =
                    ground (arith, rw z at rest) in
                  (seq, s₁, allocated, sym same)
            ]
      ]
