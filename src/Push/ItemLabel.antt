-- ===== src/Push/ItemLabel.antt =====
-- `pushItemLabel`, `pushItemLabelDelete` and `pushAttachment` of
-- server/internal/storage/push_commit.go.
use household_objects_srv.Prelude.{
  ℕ, ◌+◌, String, str_eq, ◌≡◌, refl, true, false, inl, inr, arith, Bool-cases, Option-cases, Option,
  none, some, List, [], ◌∷◌, if◌then◌else◌, pos_part, Result, ok, err, ◌>>=◌, ◌>>◌, >>=-eq-ok,
  ok-injective, ◌==◌, find?,
}
use household_objects_srv.Push.Types.{
  ItemLabelRow, Store, PushMutation, PushOutcome, Outside, PushError, creation_only,
  attachment_rejected,
}
use household_objects_srv.Push.Storage.{is_some, alloc_change_seq}
use household_objects_srv.Push.Items.{get_item}
use household_objects_srv.Push.Merge.{
  entity_field, require_known_fields, require_field, decode_string, or_zero,
}
use household_objects_srv.Push.Item.{conflict_outcome}
use household_objects_srv.Push.Apply.Ledger.{KeepsLog}
use household_objects_srv.Push.Entity.{KeepsLogs, KeepsLogs-trans, alloc_change_seq-KeepsLogs}
use household_objects_srv.Labels.{get_label}
use household_objects_srv.Labels.Edges.{
  AttachLabelParams, found, get_item_label, insert_edge, revive_or_insert, reread_edge, attach_edge,
  attach_item_label, detach_item_label,
}

abbrev item_label_fields : List String
item_label_fields = "item_id" ∷ "label_id" ∷ []

-- The ids of the item and the label in a mutation.
unfoldable pub decode_edge : Outside → PushMutation → Result PushError (String × String)
decode_edge out m = do
  require_known_fields m.fields item_label_fields
  require_field m.fields "item_id"
  require_field m.fields "label_id"
  item ← decode_string out m.fields "item_id"
  label ← decode_string out m.fields "label_id"
  ok (or_zero "" item, or_zero "" label)

abbrev pub applied_outcome : String → ℕ → PushOutcome
applied_outcome id version = record {
  skipped = false;
  applied = true;
  entity_type = "";
  entity_id = id;
  version = version;
  conflict_fields = [];
  field_snapshots = [];
}

unfoldable pub push_edge :
    Store → String → String → AttachLabelParams → Result PushError (PushOutcome × Store)
push_edge s group id p =
    if is_some (find? (λ (r : ItemLabelRow). str_eq r.id id) s.item_labels)
    then ok (conflict_outcome (entity_field ∷ []) [], s)
    else if is_some (get_item s group p.item_id)
    then (if is_some (get_label s group p.label_id)
        then (do
          (row, s') ← attach_item_label s group p
          ok (applied_outcome row.id row.version, s'))
        else ok (conflict_outcome ("label_id" ∷ []) [], s))
    else ok (conflict_outcome ("item_id" ∷ []) [], s)

unfoldable pub push_item_label :
    Outside → Store → String → PushMutation → Result PushError (PushOutcome × Store)
push_item_label out s group m =
    if pos_part m.base_version == 0
    then (do
      (item, label) ← decode_edge out m
      push_edge s group m.entity_id
          (record { id = m.entity_id; item_id = item; label_id = label; now = pos_part m.now }))
    else err (creation_only "item_label")

unfoldable pub push_item_label_delete :
    Outside → Store → String → PushMutation → Result PushError (PushOutcome × Store)
push_item_label_delete out s group m = do
  (item, label) ← decode_edge out m
  elim (get_item_label s group item label) [
    | none ↦ ok (conflict_outcome (entity_field ∷ []) [], s)
    | some current ↦ (do
      s' ← detach_item_label s group item label (pos_part m.now)
      ok (applied_outcome current.id (current.version + 1), s'))
  ]

unfoldable pub push_attachment :
    Outside → Store → String → PushMutation → Result PushError (PushOutcome × Store)
push_attachment out s group m = err (attachment_rejected m.entity_id)

revive_or_insert-KeepsLogs :
    (s : Store) (group : String) (p : AttachLabelParams) (seq : ℕ) (s' : Store)
    → revive_or_insert s group p seq ≡ ok s'
    → KeepsLogs s s'
unfolding revive_or_insert insert_edge
revive_or_insert-KeepsLogs s group p seq s' h = ground arith

reread_edge-KeepsLogs :
    (o : Option ItemLabelRow) (s : Store) (r : ItemLabelRow) (s' : Store)
    → reread_edge o s ≡ ok (r, s')
    → KeepsLogs s s'
unfolding reread_edge
reread_edge-KeepsLogs o s r s' h = ground arith

attach_edge-KeepsLogs :
    (s : Store) (group : String) (p : AttachLabelParams) (o : Option ItemLabelRow)
    (r : ItemLabelRow) (s' : Store)
    → attach_edge s group p o ≡ ok (r, s')
    → KeepsLogs s s'
unfolding attach_edge
attach_edge-KeepsLogs s group p (some x) r s' h = rw (← (ok-injective h).1) (refl, refl)
attach_edge-KeepsLogs s group p none r s' h =
    let ((seq, s₁), allocated, rest) = >>=-eq-ok (alloc_change_seq s group) _ h in
    let (s₂, written, last) = >>=-eq-ok (revive_or_insert s₁ group p seq) _ rest in
    KeepsLogs-trans s s₁ s' (alloc_change_seq-KeepsLogs s group seq s₁ allocated) (
      KeepsLogs-trans s₁ s₂ s' (revive_or_insert-KeepsLogs s₁ group p seq s₂ written)
        (reread_edge-KeepsLogs _ s₂ r s' last))

attach_item_label-KeepsLogs :
    (s : Store) (group : String) (p : AttachLabelParams) (r : ItemLabelRow) (s' : Store)
    → attach_item_label s group p ≡ ok (r, s')
    → KeepsLogs s s'
unfolding attach_item_label
attach_item_label-KeepsLogs s group p r s' h =
    let (_, item, rest) = >>=-eq-ok (found (get_item s group p.item_id)) _ h in
    let (_, label, last) = >>=-eq-ok (found (get_label s group p.label_id)) _ rest in
    attach_edge-KeepsLogs s group p _ r s' last

detach_item_label-KeepsLogs :
    (s : Store) (group item label : String) (now : ℕ) (s' : Store)
    → detach_item_label s group item label now ≡ ok s'
    → KeepsLogs s s'
unfolding detach_item_label
detach_item_label-KeepsLogs s group item label now s' h =
    let ((seq, s₁), allocated, rest) = >>=-eq-ok (alloc_change_seq s group) _ h in
    let kept = alloc_change_seq-KeepsLogs s group seq s₁ allocated in
    ground (arith, rest, kept.0, kept.1)

push_edge-KeepsLogs :
    (s : Store) (group id : String) (p : AttachLabelParams) (o : PushOutcome) (s' : Store)
    → push_edge s group id p ≡ ok (o, s')
    → KeepsLogs s s'
unfolding push_edge
push_edge-KeepsLogs s group id p o s' h =
    elim (Bool-cases (is_some (find? (λ (r : ItemLabelRow). str_eq r.id id) s.item_labels))) [
      | inl e ↦ rw (← (ok-injective (rw (e, push_edge) at h)).1) (refl, refl)
      | inr e ↦ elim (Bool-cases (is_some (get_item s group p.item_id))) [
        | inr no_item ↦ rw (← (ok-injective (rw (e, no_item, push_edge) at h)).1) (refl, refl)
        | inl item ↦ elim (Bool-cases (is_some (get_label s group p.label_id))) [
          | inr no_label ↦
              rw (← (ok-injective (rw (e, item, no_label, push_edge) at h)).1) (refl, refl)
          | inl label ↦
              let ((row, s₁), attached, last) =
                >>=-eq-ok (attach_item_label s group p) _ (rw (e, item, label, push_edge) at h) in
              rw (← (ok-injective last).1) (attach_item_label-KeepsLogs s group p row s₁ attached)
        ]
      ]
    ]

pub push_item_label-KeepsLog : (out : Outside) → KeepsLog (push_item_label out)
unfolding push_item_label
push_item_label-KeepsLog out s group m o s' h = elim (Bool-cases (pos_part m.base_version == 0)) [
  | inl e ↦
      let ((item, label), decoded, rest) =
        >>=-eq-ok (decode_edge out m) _ (rw (e, push_item_label) at h) in
      push_edge-KeepsLogs s group m.entity_id _ o s' rest
  | inr e ↦ absurd (ground (arith, rw (e, push_item_label) at h))
]

pub push_item_label_delete-KeepsLog : (out : Outside) → KeepsLog (push_item_label_delete out)
unfolding push_item_label_delete
push_item_label_delete-KeepsLog out s group m o s' h =
    let ((item, label), decoded, rest) = >>=-eq-ok (decode_edge out m) _ h in
    elim (Option-cases (get_item_label s group item label)) [
      | inl e ↦ rw (← (ok-injective (rw e at rest)).1) (refl, refl)
      | inr (current, e) ↦
          let (s₁, detached, last) =
            >>=-eq-ok (detach_item_label s group item label (pos_part m.now)) _ (rw e at rest) in
          rw (← (ok-injective last).1)
            (detach_item_label-KeepsLogs s group item label _ s₁ detached)
    ]

pub push_attachment-KeepsLog : (out : Outside) → KeepsLog (push_attachment out)
unfolding push_attachment
push_attachment-KeepsLog out s group m o s' h = cc
