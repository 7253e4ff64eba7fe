-- ===== src/Items/Removal.antt =====
-- What `itemRepository.Delete` of server/internal/storage/items.go leaves of an item.
use household_objects_srv.Prelude.{
  ℕ, String, str_eq, eq_iff, ◌≡◌, refl, sym, Bool, true, false, ◌&&◌, ◌||◌, inl, inr, arith,
  Bool-cases, Option-cases, none, List, [], ◌∷◌, ok, >>=-eq-ok, ok-injective, ◌==◌, select, length,
  find?, update_where,
}
use mathlib.Core.Path.{subst}
use household_objects_srv.Push.Rows.{PartRow}
use household_objects_srv.Push.Types.{GroupRow, ItemRow, ItemLabelRow, Store}
use household_objects_srv.Push.Storage.{alloc_change_seq, group_is}
use household_objects_srv.Push.Items.{item_is, get_item}
use household_objects_srv.Labels.Edges.{buried_edge}
use household_objects_srv.Parts.{Table, buried_part}
use household_objects_srv.Parts.Alone.{live_part}
use household_objects_srv.Parts.Warranty.{warranty_table}
use household_objects_srv.Parts.Sale.{sale_table}
use household_objects_srv.Parts.Purchase.{purchase_table}
use household_objects_srv.Parts.Identification.{identification_table}
use household_objects_srv.Parts.CustomField.{custom_field_table}
use household_objects_srv.Items.{buried_item, live_edge_of, cascade, delete}

-- No row of the item is live any more, and the live rows of all other items are as they were.
pub record Cleared {A : Type 0} (live : String → String → A → Bool) (group item : String)
    (rows rows' : List A) : Type 0 where
  pub none_left : select (live group item) rows' ≡ []
  pub others :
      (g i : String)
      → (str_eq g group && str_eq i item) ≡ false
      → select (live g i) rows' ≡ select (live g i) rows

module _ {A : Type 0} (live : String → String → A → Bool) (f : A → A)
    (dead : (g i : String) (r : A) → live g i (f r) ≡ false) (group item : String)
    (apart : (g i : String) (r : A)
      → (str_eq g group && str_eq i item) ≡ false
      → live group item r ≡ true
      → live g i r ≡ false) where
  cleared : (rows : List A) → select (live group item) (update_where (live group item) f rows) ≡ []
  cleared [] = refl
  cleared (r ∷ rows) = elim (Bool-cases (live group item r)) [
    | inl e ↦ rw (e, dead group item r) (cleared rows)
    | inr e ↦ rw (e, e) (cleared rows)
  ]

  kept :
      (g i : String) (rows : List A)
      → (str_eq g group && str_eq i item) ≡ false
      → select (live g i) (update_where (live group item) f rows) ≡ select (live g i) rows
  kept g i [] other = refl
  kept g i (r ∷ rows) other = elim (Bool-cases (live group item r)) [
    | inl e ↦ rw (e, dead g i r, apart g i r other e) (kept g i rows other)
    | inr e ↦ rw (e, kept g i rows other) refl
  ]

  Cleared-update_where :
      (rows : List A) → Cleared live group item rows (update_where (live group item) f rows)
  Cleared-update_where rows = record {
    none_left = cleared rows;
    others = λ g i other. kept g i rows other;
  }

live_part-apart :
    {V : Type 0} (group item g i : String) (r : PartRow V)
    → (str_eq g group && str_eq i item) ≡ false
    → live_part group item r ≡ true
    → live_part g i r ≡ false
live_part-apart group item g i r other mine = ground (
  arith,
  other,
  mine,
  eq_iff r.group_id group,
  eq_iff r.item_id item,
  eq_iff r.group_id g,
  eq_iff r.item_id i,
  eq_iff g group,
  eq_iff i item,
)

live_edge_of-apart :
    (group item g i : String) (r : ItemLabelRow)
    → (str_eq g group && str_eq i item) ≡ false
    → live_edge_of group item r ≡ true
    → live_edge_of g i r ≡ false
live_edge_of-apart group item g i r other mine = ground (
  arith,
  other,
  mine,
  eq_iff r.group_id group,
  eq_iff r.item_id item,
  eq_iff r.group_id g,
  eq_iff r.item_id i,
  eq_iff g group,
  eq_iff i item,
)

parts-Cleared :
    {P V : Type 0} (t : Table P V) (group item : String) (now seq : ℕ) (rows : List (PartRow V))
    → Cleared live_part group item rows
        (update_where (live_part group item) (buried_part t now seq) rows)
parts-Cleared t group item now seq rows =
    Cleared-update_where live_part (buried_part t now seq) (λ g i r. ground arith) group item
      (live_part-apart group item) rows

-- What is left of an item: neither it nor anything on it is live, and all other items keep what they
-- have.
pub record Removed (group item : String) (s s' : Store) : Type 0 where
  pub gone : get_item s' group item ≡ none
  pub warranties : Cleared live_part group item s.warranties s'.warranties
  pub sales : Cleared live_part group item s.sales s'.sales
  pub purchases : Cleared live_part group item s.purchases s'.purchases
  pub identifications : Cleared live_part group item s.identifications s'.identifications
  pub custom_fields : Cleared live_part group item s.custom_fields s'.custom_fields
  pub item_labels : Cleared live_edge_of group item s.item_labels s'.item_labels

buried_gone :
    (group item : String) (now seq : ℕ) (rows : List ItemRow)
    → find? (item_is group item) (update_where (item_is group item) (buried_item now seq) rows)
      ≡ none
buried_gone group item now seq [] = refl
buried_gone group item now seq (r ∷ rows) = elim (Bool-cases (item_is group item r)) [
  | inl e ↦ rw e (ground (arith, buried_gone group item now seq rows))
  | inr e ↦ rw (e, e) (buried_gone group item now seq rows)
]

cascade-Removed :
    (group item : String) (now seq : ℕ) (s s₁ : Store) (groups : List GroupRow)
    → s₁ ≡ record s { groups = groups }
    → Removed group item s (
        cascade group item now seq
          (record s₁ { items = update_where (item_is group item) (buried_item now seq) s₁.items }))
unfolding cascade get_item
cascade-Removed group item now seq s s₁ groups same =
    subst
      (λ (x : Store). Removed group item s (
        cascade group item now seq
          (record x { items = update_where (item_is group item) (buried_item now seq) x.items })))
      (sym same)
      (record {
        gone = buried_gone group item now seq s.items;
        warranties = parts-Cleared warranty_table group item now seq s.warranties;
        sales = parts-Cleared sale_table group item now seq s.sales;
        purchases = parts-Cleared purchase_table group item now seq s.purchases;
        identifications = parts-Cleared identification_table group item now seq s.identifications;
        custom_fields = parts-Cleared custom_field_table group item now seq s.custom_fields;
        item_labels =
            Cleared-update_where live_edge_of (buried_edge now seq) (λ g i r. ground arith) group
              item (live_edge_of-apart group item) s.item_labels;
      })

alloc_change_seq-groups :
    (s : Store) (group : String) (seq : ℕ) (s₁ : Store)
    → alloc_change_seq s group ≡ ok (seq, s₁)
    → s₁ ≡ record s { groups = s₁.groups }
unfolding alloc_change_seq
alloc_change_seq-groups s group seq s₁ h = elim (Option-cases (find? (group_is group) s.groups)) [
  | inl e ↦ absurd (ground (arith, rw (e, alloc_change_seq) at h))
  | inr (g, e) ↦
      subst (λ (x : Store). x ≡ record s { groups = x.groups })
        (ok-injective (rw (e, alloc_change_seq) at h)).1 refl
]

-- After a deletion without error the item is not found, nothing that hangs on it is live, and the live
-- rows of all other items are as they were.
pub delete-Removed :
    (s : Store) (group item : String) (now : ℕ) (s' : Store)
    → delete s group item now ≡ ok s'
    → Removed group item s s'
unfolding delete
delete-Removed s group item now s' h = elim (Bool-cases (str_eq item "" || now == 0)) [
  | inl e ↦ absurd (ground (arith, rw (e, delete) at h))
  | inr e ↦
      let ((seq, s₁), allocated, rest) =
        >>=-eq-ok (alloc_change_seq s group) _ (rw (e, delete) at h) in
      elim (Bool-cases (length (select (item_is group item) s₁.items) == 0)) [
        | inl z ↦ absurd (ground (arith, rw z at rest))
        | inr z ↦ elim (Bool-cases (length (select (item_is group item) s₁.items) == 1)) [
          | inl o ↦
              let same : cascade group item now seq (record s₁ {
                items = update_where (item_is group item) (buried_item now seq) s₁.items;
              })
                  ≡ s' =
                ground (arith, rw (z, o) at rest) in
              subst (Removed group item s) same (
                cascade-Removed group item now seq s s₁ s₁.groups
                  (alloc_change_seq-groups s group seq s₁ allocated))
          | inr o ↦ absurd (ground (arith, rw (z, o) at rest))
        ]
      ]
]
