-- ===== src/Push/Entity.antt =====
-- What the handlers of server/internal/storage/push_commit.go have in common: the version check with
-- the merge policy, and what follows a creation or an update.
use mathlib.Core.Path.{subst}
use household_objects_srv.Prelude.{
  ℕ, String, ◌≡◌, refl, true, false, Option, none, some, List, [], ◌∷◌, ◌++◌, if◌then◌else◌,
  pos_part, Result, ok, err, ◌==◌, arith, sym, ◌∙◌, ok-injective,
}
use household_objects_srv.Push.Types.{
  FieldVersionRow, Store, PushMutation, PushOutcome, Outside, PushError,
}
use household_objects_srv.Push.Storage.{record_field_versions, alloc_change_seq}
use household_objects_srv.Push.Merge.{contains, field_names, merge_policy, snapshot_values}
use household_objects_srv.Push.Item.{Plan, conflict_outcome, classify_entity_error}

abbrev pub KeepsLogs : Store → Store → Type 0
KeepsLogs s s' = (s'.mutations ≡ s.mutations) × (s'.conflicts ≡ s.conflicts)

-- The version check ends a push with its conflicts, or leaves fields to merge.
pub data Decision : Type 0 where
  refuse : PushOutcome → Decision
  merge : Plan → Decision

unfoldable pub plan_fields : (String → Option String) → List String → List String → Decision
plan_fields values conflict [] =
    refuse (conflict_outcome conflict (snapshot_values conflict values))
plan_fields values conflict (x ∷ xs) = merge (record {
  allow = contains (x ∷ xs);
  conflict = conflict;
  snapshots = snapshot_values conflict values;
})

abbrev pub unsaid : {A : Type 0} → A → String
unsaid row = ""

-- The version check of a handler, for a row of this version with these values.
unfoldable pub plan_update :
    Outside → Store → String → PushMutation → ℕ → (String → Option String) → Decision
plan_update out s group m version values =
    if version == pos_part m.base_version
    then merge (record { allow = λ name. true; conflict = []; snapshots = [] })
    else (let (conflict, apply) =
          merge_policy s group m.entity_type m.entity_id (pos_part m.base_version)
            (field_names out m.fields) in
        plan_fields values conflict apply)

-- A classified error is an outcome, with the conflicts that are known already after its own.
unfoldable pub conflict_or :
    PushError → List String → Store → Option PushOutcome → Result PushError (PushOutcome × Store)
conflict_or e more s none = err e
conflict_or e more s (some outcome) =
    ok (record outcome { conflict_fields = outcome.conflict_fields ++ more }, s)

-- What follows a creation. An error that is classified comes before the first write.
unfoldable pub finish_created :
    {A : Type 0}
    → (A → String)
    → (A → ℕ)
    → Store
    → Result PushError (A × Store)
    → Result PushError (PushOutcome × Store)
unfolding conflict_or
finish_created id_of version_of s (err e) = conflict_or e [] s (classify_entity_error e)
finish_created id_of version_of s (ok (row, s')) = ok (
  record {
    skipped = false;
    applied = true;
    entity_type = "";
    entity_id = id_of row;
    version = version_of row;
    conflict_fields = [];
    field_snapshots = [];
  },
  s',
)

-- What follows an update: the versions of the changed fields are recorded under the entity's name.
-- The outcome says the id that the first argument gives.
unfoldable pub finish_updated :
    {A : Type 0}
    → (A → String)
    → (A → String)
    → (A → ℕ)
    → (A → List String)
    → String
    → Store
    → PushMutation
    → String
    → Plan
    → Result PushError (A × Store)
    → Result PushError (PushOutcome × Store)
unfolding conflict_or
finish_updated said id_of version_of changed name s m group plan (err e) =
    conflict_or e plan.conflict s (classify_entity_error e)
finish_updated said id_of version_of changed name s m group plan (ok (row, s')) = ok (
  record {
    skipped = false;
    applied = true;
    entity_type = "";
    entity_id = said row;
    version = version_of row;
    conflict_fields = plan.conflict;
    field_snapshots = plan.snapshots;
  },
  record s' {
    field_versions =
        record_field_versions group name (id_of row) (version_of row) (pos_part m.now) (changed row)
          s'.field_versions;
  },
)

-- A push has written nothing, or one of its rows.
pub data Wrote {A : Type 0} (s : Store) (r : Result PushError (A × Store)) (s' : Store)
    : Type 0 where
  nothing : s' ≡ s → Wrote s r s'
  row :
      (a : A) (s₁ : Store) (fields : List FieldVersionRow)
      → r ≡ ok (a, s₁)
      → s' ≡ record s₁ { field_versions = fields }
      → Wrote s r s'

pub conflict_or-same :
    (e : PushError) (more : List String) (s : Store) (c : Option PushOutcome) (o : PushOutcome)
    (s' : Store)
    → conflict_or e more s c ≡ ok (o, s')
    → s' ≡ s
unfolding conflict_or
conflict_or-same e more s none o s' h = cc
conflict_or-same e more s (some outcome) o s' h = sym (ok-injective h).1

pub finish_created-Wrote :
    {A : Type 0} (id_of : A → String) (version_of : A → ℕ) (s : Store)
    (r : Result PushError (A × Store)) (o : PushOutcome) (s' : Store)
    → finish_created id_of version_of s r ≡ ok (o, s')
    → Wrote s r s'
unfolding finish_created
finish_created-Wrote id_of version_of s (err e) o s' h =
    nothing (conflict_or-same e [] s (classify_entity_error e) o s' h)
finish_created-Wrote id_of version_of s (ok (a, s₁)) o s' h =
    row a s₁ s₁.field_versions refl (sym (ok-injective h).1)

pub finish_updated-Wrote :
    {A : Type 0} (said id_of : A → String) (version_of : A → ℕ) (changed : A → List String)
    (name : String) (s : Store) (m : PushMutation) (group : String) (plan : Plan)
    (r : Result PushError (A × Store)) (o : PushOutcome) (s' : Store)
    → finish_updated said id_of version_of changed name s m group plan r ≡ ok (o, s')
    → Wrote s r s'
unfolding finish_updated
finish_updated-Wrote said id_of version_of changed name s m group plan (err e) o s' h =
    nothing (conflict_or-same e plan.conflict s (classify_entity_error e) o s' h)
finish_updated-Wrote said id_of version_of changed name s m group plan (ok (a, s₁)) o s' h =
    row a s₁ _ refl (sym (ok-injective h).1)

-- What a push of an entity with a creation and an update has done to the store.
pub data EntityPush {C U A : Type 0} (create : C → Result PushError (A × Store))
    (update : U → Result PushError (A × Store)) (s s' : Store) : Type 0 where
  kept : s' ≡ s → EntityPush create update s s'
  made :
      (p : C) (a : A) (s₁ : Store) (fields : List FieldVersionRow)
      → create p ≡ ok (a, s₁)
      → s' ≡ record s₁ { field_versions = fields }
      → EntityPush create update s s'
  changed :
      (p : U) (a : A) (s₁ : Store) (fields : List FieldVersionRow)
      → update p ≡ ok (a, s₁)
      → s' ≡ record s₁ { field_versions = fields }
      → EntityPush create update s s'

module _ {C U A : Type 0} (create : C → Result PushError (A × Store))
    (update : U → Result PushError (A × Store)) (s s' : Store) where
  pub Wrote-made : (p : C) → Wrote s (create p) s' → EntityPush create update s s'
  Wrote-made p (nothing same) = kept same
  Wrote-made p (row a s₁ fields e same) = made p a s₁ fields e same

  pub Wrote-changed : (p : U) → Wrote s (update p) s' → EntityPush create update s s'
  Wrote-changed p (nothing same) = kept same
  Wrote-changed p (row a s₁ fields e same) = changed p a s₁ fields e same

  -- What the creation and the update keep, and the field versions do not matter to.
  pub EntityPush-keeps :
      (P : Store → Type 0)
      → P s
      → ((p : C) (a : A) (s₁ : Store) → create p ≡ ok (a, s₁) → P s₁)
      → ((p : U) (a : A) (s₁ : Store) → update p ≡ ok (a, s₁) → P s₁)
      → ((s₁ : Store) (fields : List FieldVersionRow)
          → P s₁
          → P (record s₁ { field_versions = fields }))
      → EntityPush create update s s'
      → P s'
  EntityPush-keeps P before creates updates versions (kept same) = subst P (sym same) before
  EntityPush-keeps P before creates updates versions (made p a s₁ fields e same) =
      subst P (sym same) (versions s₁ fields (creates p a s₁ e))
  EntityPush-keeps P before creates updates versions (changed p a s₁ fields e same) =
      subst P (sym same) (versions s₁ fields (updates p a s₁ e))

pub alloc_change_seq-KeepsLogs :
    (s : Store) (group : String) (seq : ℕ) (s' : Store)
    → alloc_change_seq s group ≡ ok (seq, s')
    → KeepsLogs s s'
unfolding alloc_change_seq
alloc_change_seq-KeepsLogs s group seq s' h = ground arith

pub KeepsLogs-trans : (s s₁ s₂ : Store) → KeepsLogs s s₁ → KeepsLogs s₁ s₂ → KeepsLogs s s₂
KeepsLogs-trans s s₁ s₂ (m, c) (m', c') = (m' ∙ m, c' ∙ c)
