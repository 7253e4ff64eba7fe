-- ===== src/Labels/Distinct.antt =====
-- The names of the live labels of a household, under the operations of server/internal/storage/labels.go.
use mathlib.Core.Path.{subst}
use household_objects_srv.Prelude.{
  ℕ, String, str_eq, ◌≡◌, refl, sym, ap, ◌∙◌, false, ◌||◌, Option, none, some, [], ◌∷◌, ◌++◌, inl,
  inr, arith, Bool-cases, Option-cases, ok, >>=-eq-ok, ◌==◌, find?, update_where,
}
use household_objects_srv.Push.Types.{LabelRow, Store}
use household_objects_srv.Push.Storage.{is_some, alloc_change_seq}
use household_objects_srv.Labels.{
  CreateLabelParams, UpdateLabelParams, label_is, label_named, get_label, get_label_by_name,
  new_label, reread_label, insert_label, check_name, create_label, updated_label, label_version_is,
  write_label, update_label_found, update_label, buried_label, delete_label,
}
use household_objects_srv.Labels.Clash.{
  Distinct, find?-none-All, Distinct-append, check_name-NameOf, Distinct-write, Distinct-bury,
}

alloc_change_seq-labels :
    (s : Store) (group : String) (seq : ℕ) (s' : Store)
    → alloc_change_seq s group ≡ ok (seq, s')
    → s'.labels ≡ s.labels
unfolding alloc_change_seq
alloc_change_seq-labels s group seq s' h = ground arith

insert_label-rows :
    (s : Store) (row : LabelRow) (s' : Store)
    → insert_label s row ≡ ok s'
    → (s'.labels ≡ s.labels ++ row ∷ [])
      × (is_some (find? (λ (r : LabelRow). str_eq r.id row.id) s.labels) ≡ false)
unfolding insert_label
insert_label-rows s row s' h = ground arith

reread_label-same :
    (o : Option LabelRow) (s : Store) (r : LabelRow) (s' : Store)
    → reread_label o s ≡ ok (r, s')
    → s' ≡ s
unfolding reread_label
reread_label-same o s r s' h = ground arith

check_name-none : (o : Option LabelRow) → check_name o none ≡ ok tt → is_some o ≡ false
unfolding check_name
check_name-none none h = refl
check_name-none (some c) h = cc

-- Where ids are unique, and the names of a household's live labels too, a creation of a label that
-- returns no error leaves them so.
pub create_label-Distinct :
    (s : Store) (group : String) (p : CreateLabelParams) (r : LabelRow) (s' : Store)
    → Distinct group s.labels
    → create_label s group p ≡ ok (r, s')
    → Distinct group s'.labels
unfolding create_label get_label_by_name
create_label-Distinct s group p r s' distinct h =
    let (_, free, rest) = >>=-eq-ok (check_name (get_label_by_name s group p.name) none) _ h in
    let ((seq, s₁), allocated, rest₁) = >>=-eq-ok (alloc_change_seq s group) _ rest in
    let (s₂, inserted, last) = >>=-eq-ok (insert_label s₁ (new_label group p seq)) _ rest₁ in
    let same = alloc_change_seq-labels s group seq s₁ allocated in
    let (rows, unused) = insert_label-rows s₁ (new_label group p seq) s₂ inserted in
    let joined : s'.labels ≡ s.labels ++ new_label group p seq ∷ [] =
      (ap (λ (s : Store). s.labels) (reread_label-same _ s₂ r s' last)
        ∙ rows
        ∙ ap (λ l. l ++ new_label group p seq ∷ []) same) in
    subst (Distinct group) (sym joined) (
      Distinct-append group (new_label group p seq) s.labels
        (find?-none-All _ s.labels
          (subst (λ l. is_some (find? (λ (r : LabelRow). str_eq r.id p.id) l) ≡ false) same unused))
        (find?-none-All (label_named group p.name) s.labels (check_name-none _ free)) distinct)

write_label-rows :
    (s : Store) (group : String) (p : UpdateLabelParams) (seq : ℕ) (r : LabelRow) (s' : Store)
    → write_label s group p seq ≡ ok (r, s')
    → s'.labels
      ≡ update_where (label_version_is group p.id p.expected_version) (updated_label p seq) s.labels
unfolding write_label
write_label-rows s group p seq r s' h = ground arith

-- Where ids are unique, and the names of a household's live labels too, an update of a label that
-- returns no error leaves them so.
pub update_label-Distinct :
    (s : Store) (group : String) (p : UpdateLabelParams) (r : LabelRow) (s' : Store)
    → Distinct group s.labels
    → update_label s group p ≡ ok (r, s')
    → Distinct group s'.labels
unfolding update_label update_label_found get_label_by_name
update_label-Distinct s group p r s' distinct h = elim (Option-cases (get_label s group p.id)) [
  | inl e ↦ absurd (ground (arith, rw (e, update_label) at h))
  | inr (current, e) ↦
      let found = rw (e, update_label) at h in
      elim (Bool-cases (current.version == p.expected_version)) [
        | inl same ↦
            let (_, free, rest) =
              >>=-eq-ok (check_name (get_label_by_name s group p.name) (some p.id)) _
                (rw (same, update_label_found) at found) in
            let ((seq, s₁), allocated, written) = >>=-eq-ok (alloc_change_seq s group) _ rest in
            let rows = write_label-rows s₁ group p seq r s' written in
            let kept =
              ap
                (update_where (label_version_is group p.id p.expected_version)
                  (updated_label p seq))
                (alloc_change_seq-labels s group seq s₁ allocated) in
            subst (Distinct group) (sym (rows ∙ kept)) (
              Distinct-write group p seq s.labels
                (check_name-NameOf group p.name p.id s.labels free distinct) distinct)
        | inr other ↦ absurd (ground (arith, rw (other, update_label_found) at found))
      ]
]

delete_label-rows :
    (s : Store) (group id : String) (now : ℕ) (s' : Store)
    → delete_label s group id now ≡ ok s'
    → (seq : ℕ) × (s'.labels ≡ update_where (label_is group id) (buried_label now seq) s.labels)
unfolding delete_label
delete_label-rows s group id now s' h = elim (Bool-cases (str_eq id "" || now == 0)) [
  | inl e ↦ absurd (ground (arith, rw (e, delete_label) at h))
  | inr e ↦
      let ((seq, s₁), allocated, rest) =
        >>=-eq-ok (alloc_change_seq s group) _ (rw (e, delete_label) at h) in
      let same = alloc_change_seq-labels s group seq s₁ allocated in (seq, ground (arith, rest))
]

pub delete_label-Distinct :
    (s : Store) (group id : String) (now : ℕ) (s' : Store)
    → Distinct group s.labels
    → delete_label s group id now ≡ ok s'
    → Distinct group s'.labels
delete_label-Distinct s group id now s' distinct h =
    let (seq, rows) = delete_label-rows s group id now s' h in
    subst (Distinct group) (sym rows) (Distinct-bury group id now seq s.labels distinct)
