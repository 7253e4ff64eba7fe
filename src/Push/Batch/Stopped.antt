-- ===== src/Push/Batch/Stopped.antt =====
-- Where `Push` of server/internal/sync/push.go stops in a batch, and what the ledger holds then.
use mathlib.Core.List.{append-nil, append_assoc}
use household_objects_srv.Prelude.{
  ℕ, suc, ◌+◌, ◌≤◌, String, ℤ, ◌≡◌, refl, sym, ap, ◌∙◌, true, Option, none, some, List, [], ◌∷◌,
  ◌++◌, arith, inl, inr, Result, Result-cases, ok, err, length, take, All,
}
use household_objects_srv.Push.Types.{LedgerRow, Store, PushMutation, Outside}
use household_objects_srv.Push.Apply.{Handlers, validate, positive, apply_mutation}
use household_objects_srv.Push.Apply.Ledger.{
  HandlersKeepLog, Applied-grows, Applied-Recorded, apply_mutation-Applied, apply_mutation-valid,
}
use household_objects_srv.Push.Apply.Logged.{Recorded, Recorded-grows}
use household_objects_srv.Push.Batch.{
  PushResult, BatchError, mutation_error, other_error, watermark_error, watermark, add_outcome,
  batch_error, finish_push, push_from,
}

-- A mutation that the ledger holds, and that is well formed at any time.
abbrev pub Done : Store → String → PushMutation → Type 0
Done s group m =
    ((now : ℤ) → positive now ≡ true → validate (record m { now = now }) ≡ ok tt)
    × Recorded s group m.mutation_id

abbrev pub failed_at : BatchError → Option ℕ
failed_at (mutation_error i id e) = some i
failed_at (other_error i id e) = some i
failed_at (watermark_error e) = none

validate-time :
    (m : PushMutation) (now : ℤ)
    → validate m ≡ ok tt
    → positive now ≡ true
    → validate (record m { now = now }) ≡ ok tt
unfolding validate
validate-time m now valid later = ground arith

-- Where a push stopped: `n` mutations were done.
pub record Stopped (group : String) (i : ℕ) (ms : List PushMutation)
    (r : Result BatchError PushResult) (s s' : Store) : Type 0 where
  pub n : ℕ
  pub bound : n ≤ length ms
  pub rows : List LedgerRow
  pub grown : s'.mutations ≡ s.mutations ++ rows
  pub done : All (Done s' group) (take n ms)
  pub all :
      (result : PushResult)
      → r ≡ ok result
      → (take n ms ≡ ms) × (watermark s' group ≡ ok result.new_watermark)
  pub fails : (e : BatchError) (j : ℕ) → r ≡ err e → failed_at e ≡ some j → j ≡ i + n

finish_push-Stopped :
    (group : String) (i : ℕ) (result : PushResult) (s : Store) (r : Result BatchError PushResult)
    (s' : Store)
    → finish_push s group result ≡ (r, s')
    → Stopped group i [] r s s'
unfolding finish_push
finish_push-Stopped group i result s r s' h = elim (Result-cases (watermark s group)) [
  | inl (w, e) ↦
      let h' = rw (e, finish_push) at h in
      let same : s ≡ s' = ap (λ p. p.1) h' in
      let outcome : ok (record result { new_watermark = w }) ≡ r = ap (λ p. p.0) h' in
      rw (← same) (record {
        n = 0;
        bound = omega arith;
        rows = [];
        grown = sym (append-nil _);
        done = tt;
        all = λ final is_ok. (refl, e ∙ ground (arith, outcome, is_ok));
        fails = λ e j is_err at. absurd (ground (arith, outcome, is_err));
      })
  | inr (x, e) ↦
      let h' = rw (e, finish_push) at h in
      let same : s ≡ s' = ap (λ p. p.1) h' in
      let outcome : err (watermark_error x) ≡ r = ap (λ p. p.0) h' in
      rw (← same) (record {
        n = 0;
        bound = omega arith;
        rows = [];
        grown = sym (append-nil _);
        done = tt;
        all = λ final is_ok. absurd (ground (arith, outcome, is_ok));
        fails = λ e j is_err at. absurd (ground (arith, outcome, is_err, at));
      })
]

Done-grows :
    (group : String) (s s' : Store) (rows : List LedgerRow) (m : PushMutation)
    → s'.mutations ≡ s.mutations ++ rows
    → Done s group m
    → Done s' group m
Done-grows group s s' rows m e (valid, old) =
    (valid, Recorded-grows group m.mutation_id s s' rows e old)

-- The mutation at the index and those after it.
pub push_from-Stopped :
    (outs : ℕ → Outside) (handlers : Handlers) (group : String) (now : ℤ) (i : ℕ)
    (ms : List PushMutation) (result : PushResult) (s : Store) (r : Result BatchError PushResult)
    (s' : Store)
    → HandlersKeepLog handlers
    → push_from outs handlers group now i ms result s ≡ (r, s')
    → Stopped group i ms r s s'
unfolding push_from
push_from-Stopped outs handlers group now i [] result s r s' keep h =
    finish_push-Stopped group i result s r s' h
push_from-Stopped outs handlers group now i (m ∷ ms) result s r s' keep h =
    elim (Result-cases (apply_mutation (outs i) handlers s group (record m { now = now }))) [
      | inl ((o, s₁), ran) ↦
          let applied =
            apply_mutation-Applied (outs i) handlers s group (record m { now = now }) o s₁ keep
              ran in
          let (rows, grown) = Applied-grows handlers group _ s o s₁ applied in
          let valid =
            apply_mutation-valid (outs i) handlers s group (record m { now = now }) o s₁ ran in
          let stopped =
            push_from-Stopped outs handlers group now (suc i) ms (add_outcome m o result) s₁ r s'
              keep (rw (ran, push_from) at h) in
          record {
            n = suc stopped.n;
            bound = (let x = stopped.bound in omega arith);
            rows = rows ++ stopped.rows;
            grown = stopped.grown ∙ rw grown (append_assoc s.mutations rows stopped.rows);
            done = (
              Done-grows group s₁ s' stopped.rows m stopped.grown (
                λ later. validate-time (record m { now = now }) later valid,
                Applied-Recorded handlers group _ s o s₁ applied,
              ),
              stopped.done,
            );
            all = λ final is_ok. (
              ap (λ (l : List PushMutation). m ∷ l) (stopped.all final is_ok).0,
              (stopped.all final is_ok).1,
            );
            fails = λ e j is_err at. (let x = stopped.fails e j is_err at in omega arith);
          }
      | inr (e, failed) ↦
          let h' = rw (failed, push_from) at h in
          let same : s ≡ s' = ap (λ p. p.1) h' in
          let outcome : err (batch_error i m e) ≡ r = ap (λ p. p.0) h' in
          rw (← same) (record {
            n = 0;
            bound = omega arith;
            rows = [];
            grown = sym (append-nil _);
            done = tt;
            all = λ final is_ok. absurd (ground (arith, outcome, is_ok));
            fails = λ x j is_err at. ground (arith, outcome, is_err, at);
          })
    ]
