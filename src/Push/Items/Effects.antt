-- ===== src/Push/Items/Effects.antt =====
-- What the statements of server/internal/storage/items.go write and leave alone.
use household_objects_srv.Prelude.{
  ℕ, String, ◌≡◌, sym, ap, ◌∙◌, length, select, List, find?-true, update_where, find?-update_where,
  ◌==◌, arith, inl, inr, some, Option-cases, Bool-cases, ok, >>=-eq-ok,
}
use household_objects_srv.Push.Types.{ItemRow, Store}
use household_objects_srv.Push.Storage.{alloc_change_seq}
use household_objects_srv.Push.Items.{
  CreateItemParams, UpdateItemParams, Created, get_item, create_item, item_is, item_version_is,
  updated_item, write_item, update_found, update_item,
}

abbrev pub Keeps : Store → Store → Type 0
Keeps s s' =
    (s'.mutations ≡ s.mutations)
    × (s'.conflicts ≡ s.conflicts)
    × (s'.field_versions ≡ s.field_versions)

alloc_change_seq-Keeps :
    (s : Store) (group : String) (seq : ℕ) (s' : Store)
    → alloc_change_seq s group ≡ ok (seq, s')
    → Keeps s s'
unfolding alloc_change_seq
alloc_change_seq-Keeps s group seq s' h = ground arith

pub create_item-Keeps :
    (s : Store) (group : String) (p : CreateItemParams) (c : Created) (s' : Store)
    → create_item s group p ≡ ok (c, s')
    → Keeps s s'
unfolding create_item
create_item-Keeps s group p c s' h =
    let ((seq, s₁), allocated, rest) = >>=-eq-ok (alloc_change_seq s group) _ h in
    let (same, same', same'') = alloc_change_seq-Keeps s group seq s₁ allocated in
    ground (arith, rest, same, same', same'')

abbrev pub rewritten : String → UpdateItemParams → ℕ → List ItemRow → List ItemRow
rewritten group p seq items =
    update_where (item_version_is group p.item_id p.expected_version) (updated_item p seq) items

abbrev pub matched : String → UpdateItemParams → List ItemRow → ℕ
matched group p items = length (select (item_version_is group p.item_id p.expected_version) items)

write_item-reads :
    (s : Store) (group : String) (p : UpdateItemParams) (seq : ℕ) (r : ItemRow) (s' : Store)
    → write_item s group p seq ≡ ok (r, s')
    → Keeps s s'
      × (s'.groups ≡ s.groups)
      × (s'.items ≡ rewritten group p seq s.items)
      × (get_item s' group p.item_id ≡ some r)
      × (matched group p s.items ≡ 1)
unfolding write_item
write_item-reads s group p seq r s' h = ground arith

-- What a successful update has done.
pub record Updated (s : Store) (group : String) (p : UpdateItemParams) (r : ItemRow) (s' : Store)
    : Type 0 where
  pub current : ItemRow
  pub seq : ℕ
  pub numbered : Store
  pub allocated : alloc_change_seq s group ≡ ok (seq, numbered)
  pub groups : s'.groups ≡ numbered.groups
  pub found : get_item s group p.item_id ≡ some current
  pub expected : current.version ≡ p.expected_version
  pub row : r ≡ updated_item p seq current
  pub items : s'.items ≡ rewritten group p seq s.items
  pub one : matched group p s.items ≡ 1
  pub keeps : Keeps s s'
  pub read : get_item s' group p.item_id ≡ some r

alloc_change_seq-items :
    (s : Store) (group : String) (seq : ℕ) (s' : Store)
    → alloc_change_seq s group ≡ ok (seq, s')
    → s'.items ≡ s.items
unfolding alloc_change_seq
alloc_change_seq-items s group seq s' h = ground arith

get_item-rewritten :
    (s : Store) (group : String) (p : UpdateItemParams) (seq : ℕ) (current : ItemRow) (s' : Store)
    → get_item s group p.item_id ≡ some current
    → current.version ≡ p.expected_version
    → s'.items ≡ rewritten group p seq s.items
    → get_item s' group p.item_id ≡ some (updated_item p seq current)
unfolding get_item
get_item-rewritten s group p seq current s' found expected e =
    let is_item = find?-true (item_is group p.item_id) s.items current found in
    rw e (
      find?-update_where (item_is group p.item_id)
        (item_version_is group p.item_id p.expected_version) (updated_item p seq) s.items current
        (λ x h. ground arith) found (ground arith) (ground arith))

update_found-Updated :
    (s : Store) (group : String) (p : UpdateItemParams) (current r : ItemRow) (s' : Store)
    → get_item s group p.item_id ≡ some current
    → update_found s group p current ≡ ok (r, s')
    → Updated s group p r s'
unfolding update_found
update_found-Updated s group p current r s' found h =
    elim (Bool-cases (current.version == p.expected_version)) [
      | inl e ↦
          let ((seq, s₁), allocated, rest) = >>=-eq-ok (alloc_change_seq s group) _ (rw e at h) in
          let (same, same', same'') = alloc_change_seq-Keeps s group seq s₁ allocated in
          let ((kept, kept', kept''), groups, items, read, one) =
            write_item-reads s₁ group p seq r s' rest in
          let items' : s'.items ≡ rewritten group p seq s.items =
            items ∙ ap (rewritten group p seq) (alloc_change_seq-items s group seq s₁ allocated) in
          let expected : current.version ≡ p.expected_version = ground arith in
          let reread = get_item-rewritten s group p seq current s' found expected items' in
          record {
            current = current;
            seq = seq;
            numbered = s₁;
            allocated = allocated;
            groups = groups;
            found = found;
            expected = expected;
            row = ground (arith, read, reread);
            items = items';
            one =
                ap (matched group p) (sym (alloc_change_seq-items s group seq s₁ allocated)) ∙ one;
            keeps = (kept ∙ same, kept' ∙ same', kept'' ∙ same'');
            read = read;
          }
      | inr e ↦ absurd (ground (arith, rw e at h))
    ]

pub update_item-Updated :
    (s : Store) (group : String) (p : UpdateItemParams) (r : ItemRow) (s' : Store)
    → update_item s group p ≡ ok (r, s')
    → Updated s group p r s'
unfolding update_item
update_item-Updated s group p r s' h = elim (Option-cases (get_item s group p.item_id)) [
  | inl e ↦ absurd (ground (arith, rw (e, update_item) at h))
  | inr (current, e) ↦ update_found-Updated s group p current r s' e (rw (e, update_item) at h)
]
