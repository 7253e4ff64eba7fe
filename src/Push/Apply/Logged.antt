-- ===== src/Push/Apply/Logged.antt =====
-- The rows that an application adds to the mutation ledger and to the conflict log, in
-- server/internal/storage/push_commit.go.
use mathlib.Core.List.{append-nil, append_assoc}
use household_objects_srv.Prelude.{
  ℕ, suc, String, eq_iff, ◌≡◌, refl, sym, ap, ◌∙◌, inl, inr, none, some, List, [], ◌∷◌, ◌++◌, map,
  arith, if◌then◌else◌, Option-cases, ok, >>=-eq-ok, find?, find?-append_hit, find?-append_miss,
  All,
}
use household_objects_srv.Push.Types.{
  LedgerOutcome, LedgerRow, ConflictRow, Store, PushMutation, PushOutcome, Outside,
}
use household_objects_srv.Push.Storage.{
  null_string, ledger_is, lookup_ledger, insert_ledger, insert_conflict,
}
use household_objects_srv.Push.Apply.{
  record_conflicts, record_outcome, minted, conflict_row, ledger_row,
}

-- A household has recorded a mutation.
abbrev pub Recorded : Store → String → String → Type 0
Recorded s group mutation_id = (row : LedgerRow) × (lookup_ledger s group mutation_id ≡ some row)

insert_ledger-mutations :
    (s s' : Store) (row : LedgerRow)
    → insert_ledger s row ≡ ok s'
    → (s'.mutations ≡ s.mutations ++ row ∷ [])
      × (s'.conflicts ≡ s.conflicts)
      × (lookup_ledger s row.group_id row.mutation_id ≡ none)
unfolding insert_ledger
insert_ledger-mutations s s' row h = ground arith

insert_conflict-mutations :
    (s s' : Store) (row : ConflictRow)
    → insert_conflict s row ≡ ok s'
    → (s'.mutations ≡ s.mutations) × (s'.conflicts ≡ s.conflicts ++ row ∷ [])
unfolding insert_conflict
insert_conflict-mutations s s' row h = ground arith

-- What a mutation that was run leaves in the ledger and in the conflict log: one ledger row that
-- says whether it was applied, and for each conflict of its outcome, in order, one row of the log
-- that refers to the ledger row.
pub record Logged (group : String) (m : PushMutation) (outcome : PushOutcome) (s s' : Store)
    : Type 0 where
  pub row : LedgerRow
  pub rows : List ConflictRow
  pub mutations : s'.mutations ≡ s.mutations ++ row ∷ []
  pub row_group : row.group_id ≡ group
  pub row_mutation : row.mutation_id ≡ m.mutation_id
  pub row_outcome :
      row.outcome ≡ (if outcome.applied then LedgerOutcome.applied else LedgerOutcome.conflict)
  pub conflicts : s'.conflicts ≡ s.conflicts ++ rows
  pub fields : map (λ (r : ConflictRow). r.field_name) rows ≡ outcome.conflict_fields
  pub links :
      All (λ (r : ConflictRow). (r.group_id ≡ group) × (r.mutation_id ≡ null_string row.id)) rows

record ConflictsLogged (group ledger_id : String) (names : List String) (s s' : Store)
    : Type 0 where
  rows : List ConflictRow
  mutations : s'.mutations ≡ s.mutations
  conflicts : s'.conflicts ≡ s.conflicts ++ rows
  fields : map (λ (r : ConflictRow). r.field_name) rows ≡ names
  links :
      All (λ (r : ConflictRow). (r.group_id ≡ group) × (r.mutation_id ≡ null_string ledger_id)) rows

record_conflicts-ConflictsLogged :
    (out : Outside) (group : String) (m : PushMutation) (o : PushOutcome) (ledger_id : String)
    (n : ℕ) (names : List String) (s s' : Store)
    → record_conflicts out group m o ledger_id n names s ≡ ok s'
    → ConflictsLogged group ledger_id names s s'
unfolding record_conflicts
record_conflicts-ConflictsLogged out group m o ledger_id n [] s s' h =
    let same : s ≡ s' = cc in
    rw (← same) (record {
      rows = [];
      mutations = refl;
      conflicts = sym (append-nil _);
      fields = refl;
      links = tt;
    })
record_conflicts-ConflictsLogged out group m o ledger_id n (name ∷ names) s s' h =
    let (id, mint, rest) = >>=-eq-ok (minted (out.uuid n)) _ h in
    let (s₁, insert, more) =
      >>=-eq-ok (insert_conflict s (conflict_row group m o ledger_id id name)) _ rest in
    let (same, one) = insert_conflict-mutations s s₁ _ insert in
    let logged =
      record_conflicts-ConflictsLogged out group m o ledger_id (suc n) names s₁ s' more in
    record {
      rows = conflict_row group m o ledger_id id name ∷ logged.rows;
      mutations = logged.mutations ∙ same;
      conflicts = logged.conflicts ∙ rw one (append_assoc s.conflicts _ logged.rows);
      fields = ap (λ (l : List String). name ∷ l) logged.fields;
      links = ((refl, refl), logged.links);
    }

pub record_outcome-Logged :
    (out : Outside) (group : String) (m : PushMutation) (o : PushOutcome) (s s' : Store)
    → record_outcome out group m o s ≡ ok s'
    → Logged group m o s s'
unfolding record_outcome
record_outcome-Logged out group m o s s' h =
    let (id, mint, rest) = >>=-eq-ok (minted (out.uuid 0)) _ h in
    let (s₁, insert, more) = >>=-eq-ok (insert_ledger s (ledger_row group m o id)) _ rest in
    let (one, same, new) = insert_ledger-mutations s s₁ _ insert in
    let logged = record_conflicts-ConflictsLogged out group m o id 1 o.conflict_fields s₁ s' more in
    record {
      row = ledger_row group m o id;
      rows = logged.rows;
      mutations = logged.mutations ∙ one;
      row_group = refl;
      row_mutation = refl;
      row_outcome = refl;
      conflicts = logged.conflicts ∙ ap (λ (l : List ConflictRow). l ++ logged.rows) same;
      fields = logged.fields;
      links = logged.links;
    }

-- A logged row is found under its household and mutation.
pub Logged-Recorded :
    (group : String) (m : PushMutation) (o : PushOutcome) (s s' : Store)
    → Logged group m o s s'
    → Recorded s' group m.mutation_id
unfolding lookup_ledger
Logged-Recorded group m o s s' logged =
    elim (Option-cases (find? (ledger_is group m.mutation_id) s.mutations)) [
      | inl new ↦ (
        logged.row,
        rw logged.mutations (
            find?-append_miss _ s.mutations _ new
            ∙ ground (
              arith,
              logged.row_group,
              logged.row_mutation,
              eq_iff logged.row.group_id group,
              eq_iff logged.row.mutation_id m.mutation_id,
            )),
      )
      | inr (row, old) ↦ (row, rw logged.mutations (find?-append_hit _ s.mutations _ row old))
    ]

-- What is recorded stays recorded when a ledger grows.
pub Recorded-grows :
    (group id : String) (s s' : Store) (rows : List LedgerRow)
    → s'.mutations ≡ s.mutations ++ rows
    → Recorded s group id
    → Recorded s' group id
unfolding lookup_ledger
Recorded-grows group id s s' rows e (row, old) =
    (row, rw e (find?-append_hit _ s.mutations rows row old))
