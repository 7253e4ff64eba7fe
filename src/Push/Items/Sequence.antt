-- ===== src/Push/Items/Sequence.antt =====
-- The change counter of a household and the sequence numbers of its items
-- (server/internal/storage/items.go over server/internal/storage/internal/db/changeseq.go).
use household_objects_srv.Prelude.{
  ℕ, ◌+◌, ◌≤◌, String, ◌≡◌, sym, ap, ◌∙◌, List, [], ◌∷◌, ◌++◌, arith, ◌⊎◌, inl, inr, Option, none,
  some, Option-cases, Bool-cases, ok, >>=-eq-ok, ok-injective, find?, find?-true, update_where,
  find?-update_where, All, All-imp, All-append,
}
use household_objects_srv.Push.Types.{GroupRow, ItemRow, Store}
use household_objects_srv.Push.Storage.{alloc_change_seq, group_is}
use household_objects_srv.Push.Items.Effects.{update_item-Updated}
use household_objects_srv.Push.Items.{
  CreateItemParams, UpdateItemParams, Created, create_item, new_item, item_version_is, updated_item,
  update_item,
}

abbrev counter_in : Option GroupRow → ℕ
counter_in none = 0
counter_in (some g) = g.change_seq_counter

-- The change counter of a household.
abbrev pub counter : Store → String → ℕ
counter s group = counter_in (find? (group_is group) s.groups)

abbrev pub Below : String → ℕ → ItemRow → Type 0
Below group n r = r.group_id ≡ group → r.change_seq ≤ n

-- No item of the household has a sequence number above the household's change counter.
abbrev pub Sequenced : Store → String → Type 0
Sequenced s group = All (Below group (counter s group)) s.items

pub alloc_change_seq-counter :
    (s : Store) (group : String) (seq : ℕ) (s' : Store)
    → alloc_change_seq s group ≡ ok (seq, s')
    → (counter s' group ≡ seq) × (seq ≡ counter s group + 1) × (s'.items ≡ s.items)
unfolding alloc_change_seq
alloc_change_seq-counter s group seq s' h = elim (Option-cases (find? (group_is group) s.groups)) [
  | inl e ↦ absurd (ground (arith, rw (e, alloc_change_seq) at h))
  | inr (g, e) ↦
      let (next, same) = ok-injective (rw (e, alloc_change_seq) at h) in
      let is_group = find?-true (group_is group) s.groups g e in
      let after =
        find?-update_where (group_is group) (group_is group)
          (λ (r : GroupRow). record r { change_seq_counter = r.change_seq_counter + 1 }) s.groups g
          (λ x q. q) e is_group is_group in
      (
        ap (λ (s : Store). counter s group) (sym same) ∙ ap counter_in after ∙ next,
        sym next ∙ ap (λ (o : Option GroupRow). counter_in o + 1) (sym e),
        ap (λ (s : Store). s.items) (sym same),
      )
]

Below-raise :
    (group : String) (n m : ℕ) (rows : List ItemRow)
    → n ≤ m
    → All (Below group n) rows
    → All (Below group m) rows
Below-raise group n m rows h below =
    All-imp (Below group n) (Below group m) rows (λ r old mine. (let x = old mine in omega arith))
      below

Below-update :
    (group : String) (p : UpdateItemParams) (n : ℕ) (rows : List ItemRow)
    → All (Below group n) rows
    → All
        (Below group n)
        (update_where (item_version_is group p.item_id p.expected_version) (updated_item p n) rows)
Below-update group p n [] h = tt
Below-update group p n (r ∷ rows) (h, hs) =
    elim (Bool-cases (item_version_is group p.item_id p.expected_version r)) [
      | inl e ↦ rw e ((λ mine. omega arith), Below-update group p n rows hs)
      | inr e ↦ rw e (h, Below-update group p n rows hs)
    ]

create_item-items :
    (s : Store) (group : String) (p : CreateItemParams) (c : Created) (s' : Store)
    → create_item s group p ≡ ok (c, s')
    → (seq : ℕ) × (s₁ : Store) × (alloc_change_seq s group ≡ ok (seq, s₁))
      × (s'.groups ≡ s₁.groups)
      × ((s'.items ≡ s₁.items) ⊎ (s'.items ≡ s₁.items ++ new_item group p seq ∷ []))
unfolding create_item
create_item-items s group p c s' h =
    let ((seq, s₁), allocated, rest) = >>=-eq-ok (alloc_change_seq s group) _ h in
    (seq, s₁, allocated, ground (arith, rest), ground (arith, rest))

-- What a write does to the change counter, and to the numbers below it.
abbrev pub Advances : Store → String → Store → Type 0
Advances s group s' = (counter s' group ≡ counter s group + 1) × Sequenced s' group

advance :
    (group : String) (n : ℕ) (s s' : Store) (rows : List ItemRow)
    → counter s' group ≡ n
    → s'.items ≡ rows
    → All (Below group n) rows
    → Sequenced s' group
advance group n s s' rows count items below = rw (count, items) below

-- When no item of the household has a sequence number above the household's change counter, a
-- creation that returns no error, with the short code taken or not, advances the counter by one, and
-- again no item of the household has a number above it.
pub create_item-Advances :
    (s : Store) (group : String) (p : CreateItemParams) (c : Created) (s' : Store)
    → Sequenced s group
    → create_item s group p ≡ ok (c, s')
    → Advances s group s'
create_item-Advances s group p c s' sequenced h =
    let (seq, s₁, allocated, groups, items) = create_item-items s group p c s' h in
    let (count, next, same) = alloc_change_seq-counter s group seq s₁ allocated in
    let count' : counter s' group ≡ seq =
      ap (λ (g : List GroupRow). counter_in (find? (group_is group) g)) groups ∙ count in
    let raised = Below-raise group (counter s group) seq s.items (omega arith) sequenced in
    elim items [
      | inl e ↦ (count' ∙ next, advance group seq s s' s.items count' (e ∙ same) raised)
      | inr e ↦ (
        count' ∙ next,
        advance group seq s s' (s.items ++ new_item group p seq ∷ []) count'
            (e ∙ ap (λ (l : List ItemRow). l ++ new_item group p seq ∷ []) same)
            (All-append _ s.items (new_item group p seq ∷ []) raised ((λ mine. omega arith), tt)),
      )
    ]

-- When no item of the household has a sequence number above the household's change counter, an
-- update that returns no error advances the counter by one; the row that it returns has the new
-- counter for its number, and again no item of the household has a number above it.
pub update_item-Advances :
    (s : Store) (group : String) (p : UpdateItemParams) (r : ItemRow) (s' : Store)
    → Sequenced s group
    → update_item s group p ≡ ok (r, s')
    → Advances s group s' × (r.change_seq ≡ counter s' group)
update_item-Advances s group p r s' sequenced h =
    let done = update_item-Updated s group p r s' h in
    let (count, next, same) =
      alloc_change_seq-counter s group done.seq done.numbered done.allocated in
    let count' : counter s' group ≡ done.seq =
      ap (λ (g : List GroupRow). counter_in (find? (group_is group) g)) done.groups ∙ count in
    let raised = Below-raise group (counter s group) done.seq s.items (omega arith) sequenced in
    (
      (
        count' ∙ next,
        advance group done.seq s s' _ count' done.items
            (Below-update group p done.seq s.items raised),
      ),
      ap (λ (r : ItemRow). r.change_seq) done.row ∙ sym count',
    )
