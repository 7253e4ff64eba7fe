-- ===== src/Labels/Reattached.antt =====
-- Detaching a label and attaching it again, in server/internal/storage/item_labels.go.
use mathlib.Core.Path.{subst}
use household_objects_srv.Prelude.{
  ℕ, ◌+◌, String, str_eq, eq_iff, ◌≡◌, refl, sym, ap, ◌∙◌, true, false, none, some, List, [], ◌∷◌,
  inl, inr, arith, Bool-cases, Option-cases, ok, >>=-eq-ok, ok-injective, find?, find?-true,
  find?-update_where, update_where, select, length, All, All-imp,
}
use household_objects_srv.Push.Types.{GroupRow, ItemLabelRow, Store}
use household_objects_srv.Push.Storage.{is_some, alloc_change_seq, group_is}
use household_objects_srv.Labels.Edges.{
  AttachLabelParams, edge_is, live_edge, dead_edge, get_item_label, revived, revive_or_insert,
  reread_edge, attach_edge, attach_item_label, buried_edge, detach_item_label,
}
use household_objects_srv.Labels.Attached.{
  OneRow, same_edge, Ends, Ends-rows, attach_item_label-edge, alloc_change_seq-edges,
}

module _ (group item label : String) (now seq : ℕ) where
  abbrev pub detached : List ItemLabelRow → List ItemLabelRow
  detached rows = update_where (live_edge group item label) (buried_edge now seq) rows

  -- No edge is live after all live ones are buried.
  pub detached-none :
      (rows : List ItemLabelRow) → find? (live_edge group item label) (detached rows) ≡ none
  detached-none [] = refl
  detached-none (r ∷ rows) = ground (arith, detached-none rows)

  other_edges :
      (r : ItemLabelRow) (rows : List ItemLabelRow)
      → edge_is group item label r ≡ true
      → All (λ (x : ItemLabelRow). same_edge r x ≡ false) rows
      → All (λ (x : ItemLabelRow). edge_is group item label x ≡ false) rows
  other_edges r rows h apart =
      All-imp _ (λ (x : ItemLabelRow). edge_is group item label x ≡ false) rows
        (λ x k.
          ground (arith, eq_iff r.group_id group, eq_iff r.item_id item, eq_iff r.label_id label))
        apart

  detached-others :
      (rows : List ItemLabelRow)
      → All (λ (x : ItemLabelRow). edge_is group item label x ≡ false) rows
      → (select (dead_edge group item label) (detached rows) ≡ [])
        × (find? (live_edge group item label) rows ≡ none)
  detached-others [] h = (refl, refl)
  detached-others (x ∷ rows) (h, hs) =
      let (dead, live) = detached-others rows hs in
      (ground (arith, h, dead), ground (arith, h, live))

  -- The row of the edge is the only one that a revival finds.
  pub detached-one :
      (now' seq' : ℕ) (rows : List ItemLabelRow) (r : ItemLabelRow)
      → OneRow rows
      → find? (live_edge group item label) rows ≡ some r
      → (length (select (dead_edge group item label) (detached rows)) ≡ 1)
        × (find?
              (live_edge group item label)
              (update_where (dead_edge group item label) (revived now' seq') (detached rows))
            ≡ some (revived now' seq' (buried_edge now seq r)))
  detached-one now' seq' [] r one h = cc
  detached-one now' seq' (x ∷ rows) r (apart, one) h =
      elim (Bool-cases (edge_is group item label x)) [
        | inl e ↦
            let (dead, live) = detached-others rows (other_edges x rows e apart) in
            let this : is_some x.deleted_at ≡ false = ground (arith, live, h) in
            let same : x ≡ r = ground (arith, h, e, this) in
            let g : str_eq x.group_id group ≡ true = ground (arith, e) in
            let i : str_eq x.item_id item ≡ true = ground (arith, e) in
            let l : str_eq x.label_id label ≡ true = ground (arith, e) in
            rw (g, i, l, this)
              (rw (g, i, l)
                (rw (g, i, l)
                  (
                    ap length (ap (λ l. buried_edge now seq x ∷ l) dead),
                    ap (λ x. some (revived now' seq' (buried_edge now seq x))) same,
                  )))
        | inr e ↦
            let (count, first) = detached-one now' seq' rows r one (ground (arith, e, h)) in
            (ground (arith, e, count), ground (arith, e, first))
      ]

abbrev Allocates : Store → String → Type 0
Allocates s group = (seq : ℕ) × (s' : Store) × (alloc_change_seq s group ≡ ok (seq, s'))

group-Allocates :
    (s : Store) (group : String) (g : GroupRow)
    → find? (group_is group) s.groups ≡ some g
    → Allocates s group
unfolding alloc_change_seq
group-Allocates s group g e = (
  g.change_seq_counter + 1,
  record s {
    groups =
        update_where (group_is group)
          (λ r. record r { change_seq_counter = r.change_seq_counter + 1 }) s.groups;
  },
  rw (e, alloc_change_seq) refl,
)

alloc_again :
    (s : Store) (group : String) (seq : ℕ) (t t' : Store)
    → alloc_change_seq s group ≡ ok (seq, t)
    → t'.groups ≡ t.groups
    → Allocates t' group
unfolding alloc_change_seq
alloc_again s group seq t t' h same = elim (Option-cases (find? (group_is group) s.groups)) [
  | inl e ↦ absurd (ground (arith, rw (e, alloc_change_seq) at h))
  | inr (g, e) ↦
      let (next, store) = ok-injective (rw (e, alloc_change_seq) at h) in
      let is_group = find?-true (group_is group) s.groups g e in
      let after =
        find?-update_where (group_is group) (group_is group)
          (λ (r : GroupRow). record r { change_seq_counter = r.change_seq_counter + 1 }) s.groups g
          (λ x q. q) e is_group is_group in
      let there =
        ap (find? (group_is group)) (same ∙ sym (ap (λ (s : Store). s.groups) store)) ∙ after in
      group-Allocates t' group _ there
]

detach-rows :
    (s : Store) (group item label : String) (now : ℕ) (s₁ : Store)
    → detach_item_label s group item label now ≡ ok s₁
    → (seq : ℕ) × (t : Store) × (alloc_change_seq s group ≡ ok (seq, t))
      × (s₁ ≡ record t { item_labels = detached group item label now seq t.item_labels })
unfolding detach_item_label
detach-rows s group item label now s₁ h =
    let ((seq, t), allocated, rest) = >>=-eq-ok (alloc_change_seq s group) _ h in
    (seq, t, allocated, ground (arith, rest))

-- What an attachment after a detachment gives: the row that there was, two versions later.
pub record Reattached (s : Store) (group : String) (p : AttachLabelParams) (r : ItemLabelRow)
    : Type 0 where
  pub gone : get_item_label s group p.item_id p.label_id ≡ none
  pub row : ItemLabelRow
  pub after : Store
  pub returned : attach_item_label s group p ≡ ok (row, after)
  pub same_id : row.id ≡ r.id
  pub same_creation : row.created_at ≡ r.created_at
  pub version : row.version ≡ r.version + 1 + 1
  pub live : row.deleted_at ≡ none

attach_revives :
    (s : Store) (group : String) (p : AttachLabelParams) (seq : ℕ) (t : Store) (r : ItemLabelRow)
    → get_item_label s group p.item_id p.label_id ≡ none
    → alloc_change_seq s group ≡ ok (seq, t)
    → length (select (dead_edge group p.item_id p.label_id) t.item_labels) ≡ 1
    → find?
        (live_edge group p.item_id p.label_id)
        (update_where (dead_edge group p.item_id p.label_id) (revived p.now seq) t.item_labels)
      ≡ some r
    → attach_edge s group p none
      ≡ ok (
        r,
        record t {
          item_labels =
              update_where (dead_edge group p.item_id p.label_id) (revived p.now seq) t.item_labels;
        },
      )
unfolding attach_edge revive_or_insert get_item_label reread_edge
attach_revives s group p seq t r gone allocated count first = rw (allocated, count, first) refl

-- Where an item and a label have one row at most, are both live, and have an edge, then after the label
-- is detached the item does not have it, and attaching it again, with any id and time, returns: it gives
-- the old row, live, with its id and time of creation, and two versions later.
pub detach_item_label-Reattached :
    (s : Store) (group : String) (p : AttachLabelParams) (now : ℕ) (r : ItemLabelRow) (s₁ : Store)
    → OneRow s.item_labels
    → Ends s group p.item_id p.label_id
    → get_item_label s group p.item_id p.label_id ≡ some r
    → detach_item_label s group p.item_id p.label_id now ≡ ok s₁
    → Reattached s₁ group p r
unfolding get_item_label
detach_item_label-Reattached s group p now r s₁ one ends there h =
    let (seq, t, allocated, same) = detach-rows s group p.item_id p.label_id now s₁ h in
    let (edges, items, labels) = alloc_change_seq-edges s group seq t allocated in
    let rows : s₁.item_labels ≡ detached group p.item_id p.label_id now seq s.item_labels =
      (ap (λ (s : Store). s.item_labels) same
        ∙ ap (detached group p.item_id p.label_id now seq) edges) in
    let (seq', t', again) =
      alloc_again s group seq t s₁ allocated (ap (λ (s : Store). s.groups) same) in
    let (edges', items', labels') = alloc_change_seq-edges s₁ group seq' t' again in
    let (count, first) =
      detached-one group p.item_id p.label_id now seq p.now seq' s.item_labels r one there in
    let gone =
      ap (find? (live_edge group p.item_id p.label_id)) rows
      ∙ detached-none group p.item_id p.label_id now seq s.item_labels in
    let ends' =
      Ends-rows s s₁ group p.item_id p.label_id (ap (λ (s : Store). s.items) same ∙ items)
        (ap (λ (s : Store). s.labels) same ∙ labels) ends in
    record {
      gone = gone;
      row = revived p.now seq' (buried_edge now seq r);
      after = record t' {
        item_labels =
            update_where (dead_edge group p.item_id p.label_id) (revived p.now seq') t'.item_labels;
      };
      returned =
          attach_item_label-edge s₁ group p ends'
          ∙ ap (attach_edge s₁ group p) gone
          ∙ attach_revives s₁ group p seq' t' (revived p.now seq' (buried_edge now seq r)) gone
              again
              (subst (λ l. length (select (dead_edge group p.item_id p.label_id) l) ≡ 1)
                (sym (edges' ∙ rows)) count)
              (subst
                (λ l.
                  find? (live_edge group p.item_id p.label_id)
                    (update_where (dead_edge group p.item_id p.label_id) (revived p.now seq') l)
                  ≡ some (revived p.now seq' (buried_edge now seq r)))
                (sym (edges' ∙ rows)) first);
      same_id = refl;
      same_creation = refl;
      version = refl;
      live = refl;
    }
