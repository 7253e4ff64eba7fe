-- ===== src/Push/Item/Keeps.antt =====
-- The ledger, the conflict log and the sequence numbers during `pushItem` of
-- server/internal/storage/push_commit.go.
use household_objects_srv.Prelude.{
  ℕ, ◌≤◌, zero, suc, String, pos_part, ◌≡◌, refl, ◌∙◌, some, List, [], ◌∷◌, inl, inr, arith,
  Bool-cases, Option-cases, Result-cases, ok, >>=-eq-ok, ok-injective, ◌==◌, find?, str_eq,
}
use household_objects_srv.Push.Types.{ItemRow, Store, PushMutation, PushOutcome, Outside}
use household_objects_srv.Push.Storage.{is_some}
use household_objects_srv.Push.Items.{CreateItemParams, taken, created, get_item, create_item}
use household_objects_srv.Push.Items.Sequence.{counter, Sequenced, create_item-Advances}
use household_objects_srv.Push.Items.Effects.{create_item-Keeps}
use household_objects_srv.Push.Merge.{
  field_names, require_known_fields, decode_string, decode_int64, merge_policy,
}
use household_objects_srv.Push.Item.{
  item_fields, create_attempts, push_new_item, push_fields, push_existing_item, push_item,
}
use household_objects_srv.Push.Item.Merged.{write_merged-cases}

abbrev pub Safe : String → Store → Store → Type 0
Safe group s s' =
    (s'.mutations ≡ s.mutations)
    × (s'.conflicts ≡ s.conflicts)
    × (Sequenced s group → (counter s group ≤ counter s' group) × Sequenced s' group)

create_attempts-Safe :
    (out : Outside) (s : Store) (group : String) (p : CreateItemParams) (left attempt : ℕ)
    (o : PushOutcome) (s' : Store)
    → create_attempts out s group p left attempt ≡ ok (o, s')
    → Safe group s s'
unfolding create_attempts
create_attempts-Safe out s group p zero attempt o s' h =
    let (same, same') = ok-injective h in rw (← same') (refl, refl, λ q. (omega arith, q))
create_attempts-Safe out s group p (suc left) attempt o s' h =
    elim (Option-cases (out.short_code attempt)) [
      | inl e ↦ absurd (ground (arith, rw (e, create_attempts) at h))
      | inr (code, e) ↦ elim (Result-cases (create_item s group (record p { short_code = code }))) [
        | inl ((taken, s₁), made) ↦
            let (m, c, v) = create_item-Keeps s group _ taken s₁ made in
            let (m', c', more) =
              create_attempts-Safe out s₁ group p left (suc attempt) o s'
                (rw (e, made, create_attempts) at h) in
            (
              m' ∙ m,
              c' ∙ c,
              λ q.
                  (let (up, q') = create_item-Advances s group _ taken s₁ q made in
                    let (up', q'') = more q' in (omega arith, q'')),
            )
        | inl ((created row, s₁), made) ↦
            let (m, c, v) = create_item-Keeps s group _ (created row) s₁ made in
            let (same, same') = ok-injective (rw (e, made, create_attempts) at h) in
            rw (← same') (
              m,
              c,
              λ q.
                  (let (up, q') = create_item-Advances s group _ (created row) s₁ q made in
                    (omega arith, q')),
            )
        | inr (x, failed) ↦ absurd (ground (arith, rw (e, failed, create_attempts) at h))
      ]
    ]

push_new_item-Safe :
    (out : Outside) (s : Store) (group : String) (m : PushMutation) (o : PushOutcome) (s' : Store)
    → push_new_item out s group m ≡ ok (o, s')
    → Safe group s s'
unfolding push_new_item
push_new_item-Safe out s group m o s' h =
    elim (Bool-cases (is_some (find? (λ r. str_eq r.id m.entity_id) s.items))) [
      | inl e ↦
          let (same, same') = ok-injective (rw (e, push_new_item) at h) in
          rw (← same') (refl, refl, λ q. (omega arith, q))
      | inr e ↦
          let rest = rw (e, push_new_item) at h in
          let (name, h₀, rest₀) = >>=-eq-ok (decode_string out m.fields "name") _ rest in
          let (description, h₁, rest₁) =
            >>=-eq-ok (decode_string out m.fields "description") _ rest₀ in
          let (location_id, h₂, rest₂) =
            >>=-eq-ok (decode_string out m.fields "location_id") _ rest₁ in
          let (quantity, h₃, rest₃) = >>=-eq-ok (decode_int64 out m.fields "quantity") _ rest₂ in
          create_attempts-Safe out s group _ _ _ o s' rest₃
    ]

push_fields-Safe :
    (out : Outside) (s : Store) (group : String) (m : PushMutation) (current : ItemRow)
    (conflict apply : List String) (o : PushOutcome) (s' : Store)
    → get_item s group m.entity_id ≡ some current
    → push_fields out s group m current conflict apply ≡ ok (o, s')
    → Safe group s s'
unfolding push_fields
push_fields-Safe out s group m current conflict [] o s' found h =
    let (same, same') = ok-injective h in rw (← same') (refl, refl, λ q. (omega arith, q))
push_fields-Safe out s group m current conflict (x ∷ xs) o s' found h =
    elim (write_merged-cases out s group m current _ o s' found h) [
      | inl (unapplied, same) ↦ rw same (refl, refl, λ q. (omega arith, q))
      | inr (applied, merged) ↦ (
        merged.keeps.0,
        merged.keeps.1,
        λ q. (let (up, q') = merged.advances q in (omega arith, q')),
      )
    ]

push_existing_item-Safe :
    (out : Outside) (s : Store) (group : String) (m : PushMutation) (current : ItemRow)
    (o : PushOutcome) (s' : Store)
    → get_item s group m.entity_id ≡ some current
    → push_existing_item out s group m current ≡ ok (o, s')
    → Safe group s s'
unfolding push_existing_item
push_existing_item-Safe out s group m current o s' found h =
    elim (Bool-cases (current.version == pos_part m.base_version)) [
      | inl e ↦
          elim (write_merged-cases out s group m current _ o s' found
            (rw (e, push_existing_item) at h)) [
              | inl (unapplied, same) ↦ rw same (refl, refl, λ q. (omega arith, q))
              | inr (applied, merged) ↦ (
                merged.keeps.0,
                merged.keeps.1,
                λ q. (let (up, q') = merged.advances q in (omega arith, q')),
              )
            ]
      | inr e ↦
          let policy =
            merge_policy s group m.entity_type m.entity_id (pos_part m.base_version)
              (field_names out m.fields) in
          push_fields-Safe out s group m current policy.0 policy.1 o s' found
            (rw (e, push_existing_item) at h)
    ]

pub push_item-Safe :
    (out : Outside) (s : Store) (group : String) (m : PushMutation) (o : PushOutcome) (s' : Store)
    → push_item out s group m ≡ ok (o, s')
    → Safe group s s'
unfolding push_item
push_item-Safe out s group m o s' h =
    let (_, known, rest) = >>=-eq-ok (require_known_fields m.fields item_fields) _ h in
    elim (Bool-cases (pos_part m.base_version == 0)) [
      | inl e ↦ push_new_item-Safe out s group m o s' (rw e at rest)
      | inr e ↦ elim (Option-cases (get_item s group m.entity_id)) [
        | inl gone ↦
            let (same, same') = ok-injective (rw (e, gone) at rest) in
            rw (← same') (refl, refl, λ q. (omega arith, q))
        | inr (current, found) ↦
            push_existing_item-Safe out s group m current o s' found (rw (e, found) at rest)
      ]
    ]

-- When no item of the household has a sequence number above the household's change counter, the same
-- holds after a push of an item that returns no error, and the counter has not gone down.
pub push_item-Sequenced :
    (out : Outside) (s : Store) (group : String) (m : PushMutation) (o : PushOutcome) (s' : Store)
    → Sequenced s group
    → push_item out s group m ≡ ok (o, s')
    → (counter s group ≤ counter s' group) × Sequenced s' group
push_item-Sequenced out s group m o s' sequenced h =
    let (mutations, conflicts, keeps) = push_item-Safe out s group m o s' h in keeps sequenced
