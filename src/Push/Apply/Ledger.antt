-- ===== src/Push/Apply/Ledger.antt =====
-- The mutation ledger and the conflict log, as `ApplyMutation` of
-- server/internal/storage/push_commit.go reads and writes them.
use mathlib.Core.Path.{subst, subst₂}
use mathlib.Core.List.{append-nil}
use household_objects_srv.Prelude.{
  String, ◌≡◌, sym, ap, ◌∙◌, ◌⊎◌, inl, inr, none, some, List, [], ◌∷◌, ◌++◌, arith, true,
  Option-cases, Bool-cases, str_eq, eq_iff, ok, >>=-eq-ok,
}
use household_objects_srv.Push.Types.{LedgerRow, Store, PushMutation, PushOutcome, Outside}
use household_objects_srv.Push.Storage.{lookup_ledger}
use household_objects_srv.Push.Apply.{
  Handler, Handlers, validate, choose_handler, normalized, named_outcome, record_outcome,
  skipped_outcome, apply_new, apply_in_tx, apply_mutation,
}
use household_objects_srv.Push.Apply.Logged.{
  Recorded, Logged, record_outcome-Logged, Logged-Recorded,
}

-- A handler that leaves the ledger and the conflict log to `ApplyMutation`.
abbrev pub KeepsLog : Handler → Type 0
KeepsLog handler =
    (s : Store) (group : String) (m : PushMutation) (o : PushOutcome) (s' : Store)
    → handler s group m ≡ ok (o, s')
    → (s'.mutations ≡ s.mutations) × (s'.conflicts ≡ s.conflicts)

pub record HandlersKeepLog (handlers : Handlers) : Type 0 where
  pub dispatched :
      (name : String) (handler : Handler) → handlers.dispatch name ≡ some handler → KeepsLog handler
  pub deleted : KeepsLog handlers.delete_item_label

-- The handler that a mutation asks for: the edge deletion when it deletes an item's label, and the
-- one of its entity type when it is an upsert, which an empty operation is too.
pub data Selected (handlers : Handlers) (m : PushMutation) (handler : Handler) : Type 0 where
  deletes :
      m.op ≡ "delete"
      → m.entity_type ≡ "item_label"
      → handlers.delete_item_label ≡ handler
      → Selected handlers m handler
  upserts :
      (m.op ≡ "") ⊎ (m.op ≡ "upsert")
      → handlers.dispatch m.entity_type ≡ some handler
      → Selected handlers m handler

str_eq-eq : (a b : String) → str_eq a b ≡ true → a ≡ b
str_eq-eq a b h = ground (arith, eq_iff a b)

normalized-delete : (op : String) → str_eq (normalized op) "delete" ≡ true → op ≡ "delete"
normalized-delete op h = elim (Bool-cases (str_eq op "")) [
  | inl e ↦ absurd (ground (arith, rw e at h))
  | inr e ↦ str_eq-eq op "delete" (rw e at h)
]

normalized-upsert :
    (op : String) → str_eq (normalized op) "upsert" ≡ true → (op ≡ "") ⊎ (op ≡ "upsert")
normalized-upsert op h = elim (Bool-cases (str_eq op "")) [
  | inl e ↦ inl (str_eq-eq op "" e)
  | inr e ↦ inr (str_eq-eq op "upsert" (rw e at h))
]

choose_handler-Selected :
    (handlers : Handlers) (m : PushMutation) (handler : Handler)
    → choose_handler handlers m ≡ ok handler
    → Selected handlers m handler
unfolding choose_handler
choose_handler-Selected handlers m handler h =
    elim (Bool-cases (str_eq (normalized m.op) "delete")) [
      | inl op ↦ elim (Bool-cases (str_eq m.entity_type "item_label")) [
        | inl edge ↦
            deletes (normalized-delete m.op op) (str_eq-eq m.entity_type "item_label" edge)
              (ground (arith, rw (op, edge) at h))
        | inr other ↦ absurd (ground (arith, rw (op, other) at h))
      ]
      | inr not_delete ↦ elim (Bool-cases (str_eq (normalized m.op) "upsert")) [
        | inl op ↦ upserts (normalized-upsert m.op op) (ground (arith, rw (not_delete, op) at h))
        | inr unknown ↦ absurd (ground (arith, rw (not_delete, unknown) at h))
      ]
    ]

Selected-KeepsLog :
    (handlers : Handlers) (m : PushMutation) (handler : Handler)
    → HandlersKeepLog handlers
    → Selected handlers m handler
    → KeepsLog handler
Selected-KeepsLog handlers m handler keep (deletes op edge e) = subst KeepsLog e keep.deleted
Selected-KeepsLog handlers m handler keep (upserts op e) = keep.dispatched m.entity_type handler e

-- A mutation that the household has recorded is skipped: its handler does not run, and nothing is
-- written.
pub apply_mutation-Recorded :
    (out : Outside) (handlers : Handlers) (s : Store) (group : String) (m : PushMutation)
    → validate m ≡ ok tt
    → Recorded s group m.mutation_id
    → apply_mutation out handlers s group m ≡ ok (skipped_outcome m, s)
unfolding apply_mutation apply_in_tx
apply_mutation-Recorded out handlers s group m valid (row, old) = rw (valid, old, apply_in_tx)

-- What `ApplyMutation` can have done when it returns no error.
pub data Applied (handlers : Handlers) (group : String) (m : PushMutation) (s : Store)
    (o : PushOutcome) (s' : Store) : Type 0 where
  skips :
      Recorded s group m.mutation_id
      → o ≡ skipped_outcome m
      → s' ≡ s
      → Applied handlers group m s o s'
  runs :
      (handler : Handler) (result : PushOutcome) (s₁ : Store)
      → lookup_ledger s group m.mutation_id ≡ none
      → Selected handlers m handler
      → handler s group m ≡ ok (result, s₁)
      → o ≡ named_outcome m result
      → Logged group m o s₁ s'
      → (s₁.mutations ≡ s.mutations) × (s₁.conflicts ≡ s.conflicts)
      → Applied handlers group m s o s'

apply_new-Applied :
    (out : Outside) (handlers : Handlers) (s : Store) (group : String) (m : PushMutation)
    (o : PushOutcome) (s' : Store)
    → HandlersKeepLog handlers
    → lookup_ledger s group m.mutation_id ≡ none
    → apply_new out handlers s group m ≡ ok (o, s')
    → Applied handlers group m s o s'
unfolding apply_new
apply_new-Applied out handlers s group m o s' keep new h =
    let (handler, choice, rest) = >>=-eq-ok (choose_handler handlers m) _ h in
    let ((result, s₁), ran, more) = >>=-eq-ok (handler s group m) _ rest in
    let (s₂, log, last) =
      >>=-eq-ok (record_outcome out group m (named_outcome m result) s₁) _ more in
    let same_outcome : named_outcome m result ≡ o = ground arith in
    let same_store : s₂ ≡ s' = ground arith in
    let logged = record_outcome-Logged out group m (named_outcome m result) s₁ s₂ log in
    let selected = choose_handler-Selected handlers m handler choice in
    runs handler result s₁ new selected ran (sym same_outcome)
      (subst₂ (λ o s. Logged group m o s₁ s) same_outcome same_store logged)
      (Selected-KeepsLog handlers m handler keep selected s group m result s₁ ran)

-- Where the handlers leave the ledger and the conflict log alone, a call of `ApplyMutation` that
-- returns no error has done one of two things. The ledger held the mutation: then the outcome says
-- skipped, and the store is as it was. Or the ledger did not hold it: then the mutation's handler ran
-- on the store without an error, which is the edge deletion for an operation "delete" on an
-- item_label, and the one that the table gives for the entity type for an empty operation or
-- "upsert"; and the outcome is the handler's, under the mutation's entity. Afterwards the ledger has
-- one more row, with the mutation and with whether it was applied, and the
-- conflict log has one more row for each field of the outcome's conflicts, in order, each linked to
-- the ledger row.
pub apply_mutation-Applied :
    (out : Outside) (handlers : Handlers) (s : Store) (group : String) (m : PushMutation)
    (o : PushOutcome) (s' : Store)
    → HandlersKeepLog handlers
    → apply_mutation out handlers s group m ≡ ok (o, s')
    → Applied handlers group m s o s'
unfolding apply_mutation apply_in_tx
apply_mutation-Applied out handlers s group m o s' keep h =
    let (_, valid, rest) = >>=-eq-ok (validate m) _ h in
    elim (Option-cases (lookup_ledger s group m.mutation_id)) [
      | inl new ↦
          apply_new-Applied out handlers s group m o s' keep new (rw (new, apply_in_tx) at rest)
      | inr (row, old) ↦
          let skip = rw (old, apply_in_tx) at rest in skips (row, old) (ground arith) (ground arith)
    ]

-- The ledger only grows.
pub Applied-grows :
    (handlers : Handlers) (group : String) (m : PushMutation) (s : Store) (o : PushOutcome)
    (s' : Store)
    → Applied handlers group m s o s'
    → (rows : List LedgerRow) × (s'.mutations ≡ s.mutations ++ rows)
Applied-grows handlers group m s o s' (skips old e same) =
    ([], rw same (sym (append-nil s.mutations)))
Applied-grows handlers group m s o s'
      (runs handler result s₁ new selected ran e logged (kept, kept')) =
    (logged.row ∷ [], logged.mutations ∙ ap (λ (l : List LedgerRow). l ++ logged.row ∷ []) kept)

-- A mutation that was applied is recorded.
pub Applied-Recorded :
    (handlers : Handlers) (group : String) (m : PushMutation) (s : Store) (o : PushOutcome)
    (s' : Store)
    → Applied handlers group m s o s'
    → Recorded s' group m.mutation_id
Applied-Recorded handlers group m s o s' (skips old e same) =
    subst (λ s. Recorded s group m.mutation_id) (sym same) old
Applied-Recorded handlers group m s o s' (runs handler result s₁ new selected ran e logged kept) =
    Logged-Recorded group m o s₁ s' logged

pub apply_mutation-valid :
    (out : Outside) (handlers : Handlers) (s : Store) (group : String) (m : PushMutation)
    (o : PushOutcome) (s' : Store)
    → apply_mutation out handlers s group m ≡ ok (o, s')
    → validate m ≡ ok tt
unfolding apply_mutation
apply_mutation-valid out handlers s group m o s' h =
    let (done, valid, rest) = >>=-eq-ok (validate m) _ h in valid
