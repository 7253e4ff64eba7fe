-- ===== src/Labels/Attached.antt =====
-- Attaching and detaching a label, in server/internal/storage/item_labels.go.
use mathlib.Core.Path.{subst}
use household_objects_srv.Prelude.{
  ℕ, String, eq_iff, ◌≡◌, refl, sym, ap, ◌∙◌, Bool, true, false, Option, none, some, List, [], ◌∷◌,
  ◌++◌, inl, inr, arith, if◌then◌else◌, Bool-cases, Option-cases, ok, >>=-eq-ok, ok-injective, ◌==◌,
  find?, update_where, select, length, All, All-append,
}
use household_objects_srv.Push.Types.{ItemLabelRow, Store}
use household_objects_srv.Push.Storage.{alloc_change_seq}
use household_objects_srv.Push.Items.{get_item}
use household_objects_srv.Labels.{get_label}
use household_objects_srv.Labels.Edges.{
  AttachLabelParams, edge_is, live_edge, dead_edge, get_item_label, revived, new_edge, insert_edge,
  revive_or_insert, reread_edge, attach_edge, found, attach_item_label,
}

abbrev pub same_edge : ItemLabelRow → ItemLabelRow → Bool
same_edge r x = edge_is r.group_id r.item_id r.label_id x

-- An item and a label have one row at most, live or deleted.
abbrev pub OneRow : List ItemLabelRow → Type 0
OneRow [] = Unit
OneRow (r ∷ rows) = All (λ (x : ItemLabelRow). same_edge r x ≡ false) rows × OneRow rows

-- A statement that leaves what a row is an edge of.
module _ (q : ItemLabelRow → Bool) (f : ItemLabelRow → ItemLabelRow)
    (keeps : (r : ItemLabelRow)
      → ((f r).group_id ≡ r.group_id)
        × ((f r).item_id ≡ r.item_id)
        × ((f r).label_id ≡ r.label_id)) where
  same_edge-write :
      (r x : ItemLabelRow)
      → same_edge (if q r then f r else r) (if q x then f x else x) ≡ same_edge r x
  same_edge-write r x =
      let (g, i, l) = keeps r in
      let (g', i', l') = keeps x in
      elim (Bool-cases (q r)) [
        | inl e ↦ elim (Bool-cases (q x)) [
          | inl e' ↦ rw (e, e', g, i, l, g', i', l') refl
          | inr e' ↦ rw (e, e', g, i, l) refl
        ]
        | inr e ↦ elim (Bool-cases (q x)) [
          | inl e' ↦ rw (e, e', g', i', l') refl
          | inr e' ↦ rw (e, e') refl
        ]
      ]

  same_edge-write_rows :
      (r : ItemLabelRow) (rows : List ItemLabelRow)
      → All (λ (x : ItemLabelRow). same_edge r x ≡ false) rows
      → All
          (λ (x : ItemLabelRow). same_edge (if q r then f r else r) x ≡ false)
          (update_where q f rows)
  same_edge-write_rows r [] h = tt
  same_edge-write_rows r (x ∷ rows) (h, hs) =
      (same_edge-write r x ∙ h, same_edge-write_rows r rows hs)

  OneRow-write : (rows : List ItemLabelRow) → OneRow rows → OneRow (update_where q f rows)
  OneRow-write [] h = tt
  OneRow-write (r ∷ rows) (h, hs) = (same_edge-write_rows r rows h, OneRow-write rows hs)

OneRow-append :
    (new : ItemLabelRow) (rows : List ItemLabelRow)
    → All (λ (x : ItemLabelRow). edge_is new.group_id new.item_id new.label_id x ≡ false) rows
    → OneRow rows
    → OneRow (rows ++ new ∷ [])
OneRow-append new [] free h = (tt, tt)
OneRow-append new (r ∷ rows) (k, ks) (h, hs) =
    (All-append _ rows (new ∷ []) h (swap_edge r new k, tt), OneRow-append new rows ks hs)
  where
    swap_edge :
        (r new : ItemLabelRow)
        → edge_is new.group_id new.item_id new.label_id r ≡ false
        → same_edge r new ≡ false
    swap_edge r new k = ground (
      arith,
      k,
      eq_iff r.group_id new.group_id,
      eq_iff new.group_id r.group_id,
      eq_iff r.item_id new.item_id,
      eq_iff new.item_id r.item_id,
      eq_iff r.label_id new.label_id,
      eq_iff new.label_id r.label_id,
    )

-- Where no row is a live edge and none a deleted one, none is an edge.
no_edge :
    (group item label : String) (rows : List ItemLabelRow)
    → find? (live_edge group item label) rows ≡ none
    → length (select (dead_edge group item label) rows) == 0 ≡ true
    → All (λ (x : ItemLabelRow). edge_is group item label x ≡ false) rows
no_edge group item label [] h k = tt
no_edge group item label (r ∷ rows) h k = elim (Bool-cases (edge_is group item label r)) [
  | inl e ↦ absurd (ground (arith, e, h, k))
  | inr e ↦ (e, no_edge group item label rows (ground (arith, e, h)) (ground (arith, e, k)))
]

pub alloc_change_seq-edges :
    (s : Store) (group : String) (seq : ℕ) (s' : Store)
    → alloc_change_seq s group ≡ ok (seq, s')
    → (s'.item_labels ≡ s.item_labels) × (s'.items ≡ s.items) × (s'.labels ≡ s.labels)
unfolding alloc_change_seq
alloc_change_seq-edges s group seq s' h = ground arith

insert_edge-rows :
    (s : Store) (row : ItemLabelRow) (s' : Store)
    → insert_edge s row ≡ ok s'
    → s' ≡ record s { item_labels = s.item_labels ++ row ∷ [] }
unfolding insert_edge
insert_edge-rows s row s' h = ground arith

-- What a successful attachment leaves.
pub record Attached (s : Store) (group item label : String) (r : ItemLabelRow) (s' : Store)
    : Type 0 where
  pub items : s'.items ≡ s.items
  pub labels : s'.labels ≡ s.labels
  pub read : get_item_label s' group item label ≡ some r
  pub one_row : OneRow s.item_labels → OneRow s'.item_labels

reread_edge-same :
    (o : Option ItemLabelRow) (s : Store) (r : ItemLabelRow) (s' : Store)
    → reread_edge o s ≡ ok (r, s')
    → (o ≡ some r) × (s' ≡ s)
unfolding reread_edge
reread_edge-same none s r s' h = cc
reread_edge-same (some x) s r s' h = let (same, same') = ok-injective h in (ap some same, sym same')

revive_or_insert-rows :
    (s : Store) (group : String) (p : AttachLabelParams) (seq : ℕ) (s' : Store)
    → find? (live_edge group p.item_id p.label_id) s.item_labels ≡ none
    → revive_or_insert s group p seq ≡ ok s'
    → (s'.items ≡ s.items) × (s'.labels ≡ s.labels) × (OneRow s.item_labels → OneRow s'.item_labels)
unfolding revive_or_insert
revive_or_insert-rows s group p seq s' absent h =
    elim (Bool-cases (length (select (dead_edge group p.item_id p.label_id) s.item_labels) == 0)) [
      | inl e ↦
          let same = insert_edge-rows s (new_edge group p seq) s' (rw (e, revive_or_insert) at h) in
          rw same (
            refl,
            refl,
            OneRow-append (new_edge group p seq) s.item_labels
                (no_edge group p.item_id p.label_id s.item_labels absent e),
          )
      | inr e ↦
          elim (Bool-cases
            (length (select (dead_edge group p.item_id p.label_id) s.item_labels) == 1)) [
              | inl one ↦
                  let done = rw (e, one, revive_or_insert) at h in
                  let same : s' ≡ record s {
                    item_labels =
                        update_where (dead_edge group p.item_id p.label_id) (revived p.now seq)
                          s.item_labels;
                  } =
                    ground (arith, done) in
                  rw same (
                    refl,
                    refl,
                    OneRow-write (dead_edge group p.item_id p.label_id) (revived p.now seq)
                        (λ r. (refl, refl, refl)) s.item_labels,
                  )
              | inr more ↦ absurd (ground (arith, rw (e, more, revive_or_insert) at h))
            ]
    ]

attach_edge-Attached :
    (s : Store) (group : String) (p : AttachLabelParams) (r : ItemLabelRow) (s' : Store)
    → attach_edge s group p (get_item_label s group p.item_id p.label_id) ≡ ok (r, s')
    → Attached s group p.item_id p.label_id r s'
unfolding attach_edge get_item_label
attach_edge-Attached s group p r s' h =
    elim (Option-cases (get_item_label s group p.item_id p.label_id)) [
      | inr (x, e) ↦
          let (same, same') = ok-injective (rw (e, attach_edge) at h) in
          rw (← same')
            (record { items = refl; labels = refl; read = e ∙ ap some same; one_row = λ one. one })
      | inl e ↦
          let ((seq, s₁), allocated, rest) =
            >>=-eq-ok (alloc_change_seq s group) _ (rw (e, attach_edge) at h) in
          let (s₂, written, last) = >>=-eq-ok (revive_or_insert s₁ group p seq) _ rest in
          let (read, same) = reread_edge-same _ s₂ r s' last in
          let (edges, items, labels) = alloc_change_seq-edges s group seq s₁ allocated in
          let absent = ap (find? (live_edge group p.item_id p.label_id)) edges ∙ e in
          let (items', labels', one) = revive_or_insert-rows s₁ group p seq s₂ absent written in
          rw same (record {
            items = items' ∙ items;
            labels = labels' ∙ labels;
            read = read;
            one_row = λ h. one (subst OneRow (sym edges) h);
          })
    ]

pub attach_item_label-Attached :
    (s : Store) (group : String) (p : AttachLabelParams) (r : ItemLabelRow) (s' : Store)
    → attach_item_label s group p ≡ ok (r, s')
    → Attached s group p.item_id p.label_id r s'
unfolding attach_item_label
attach_item_label-Attached s group p r s' h =
    let (_, item, rest) = >>=-eq-ok (found (get_item s group p.item_id)) _ h in
    let (_, label, last) = >>=-eq-ok (found (get_label s group p.label_id)) _ rest in
    attach_edge-Attached s group p r s' last

-- Where an item and a label have one row at most, that stays so in an attachment that returns no error.
pub attach_item_label-OneRow :
    (s : Store) (group : String) (p : AttachLabelParams) (r : ItemLabelRow) (s' : Store)
    → OneRow s.item_labels
    → attach_item_label s group p ≡ ok (r, s')
    → OneRow s'.item_labels
attach_item_label-OneRow s group p r s' one h =
    (attach_item_label-Attached s group p r s' h).one_row one

get_item-items :
    (s s' : Store) (group id : String)
    → s'.items ≡ s.items
    → get_item s' group id ≡ get_item s group id
unfolding get_item
get_item-items s s' group id e = ap (find? _) e

get_label-labels :
    (s s' : Store) (group id : String)
    → s'.labels ≡ s.labels
    → get_label s' group id ≡ get_label s group id
unfolding get_label
get_label-labels s s' group id e = ap (find? _) e

-- The item and the label of an edge are live.
abbrev pub Ends : Store → String → String → String → Type 0
Ends s group item label =
    (found (get_item s group item) ≡ ok tt) × (found (get_label s group label) ≡ ok tt)

pub Ends-rows :
    (s s' : Store) (group item label : String)
    → s'.items ≡ s.items
    → s'.labels ≡ s.labels
    → Ends s group item label
    → Ends s' group item label
Ends-rows s s' group item label items labels (h, k) = (
  ap found (get_item-items s s' group item items) ∙ h,
  ap found (get_label-labels s s' group label labels) ∙ k,
)

attach_item_label-Ends :
    (s : Store) (group : String) (p : AttachLabelParams) (r : ItemLabelRow) (s' : Store)
    → attach_item_label s group p ≡ ok (r, s')
    → Ends s group p.item_id p.label_id
unfolding attach_item_label
attach_item_label-Ends s group p r s' h =
    let (_, item, rest) = >>=-eq-ok (found (get_item s group p.item_id)) _ h in
    let (_, label, last) = >>=-eq-ok (found (get_label s group p.label_id)) _ rest in (item, label)

pub attach_item_label-edge :
    (s : Store) (group : String) (p : AttachLabelParams)
    → Ends s group p.item_id p.label_id
    → attach_item_label s group p
      ≡ attach_edge s group p (get_item_label s group p.item_id p.label_id)
unfolding attach_item_label
attach_item_label-edge s group p (h, k) = rw (h, k) refl

-- After an attachment, a second one of the same label to the same item, with any id and time, gives the
-- same row, and writes nothing.
pub attach_item_label-again :
    (s : Store) (group : String) (p : AttachLabelParams) (r : ItemLabelRow) (s' : Store)
    (id : String) (now : ℕ)
    → attach_item_label s group p ≡ ok (r, s')
    → attach_item_label s' group (record p { id = id; now = now }) ≡ ok (r, s')
unfolding attach_edge
attach_item_label-again s group p r s' id now h =
    let done = attach_item_label-Attached s group p r s' h in
    let ends =
      Ends-rows s s' group p.item_id p.label_id done.items done.labels
        (attach_item_label-Ends s group p r s' h) in
    attach_item_label-edge s' group (record p { id = id; now = now }) ends ∙ rw done.read refl
