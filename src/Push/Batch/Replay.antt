-- ===== src/Push/Batch/Replay.antt =====
-- Pushing a batch again: `Push` of server/internal/sync/push.go on a household that has recorded
-- all of the batch, or the part of it before an error.
use mathlib.Core.Path.{subst, ap₂}
use mathlib.Core.List.{append-nil, append_assoc}
use household_objects_srv.Prelude.{
  ℕ, zero, suc, ◌+◌, ◌≤◌, String, ℤ, ◌≡◌, refl, sym, ap, ◌∙◌, true, some, List, [], ◌∷◌, ◌++◌, map,
  arith, ok, err, length, take, drop, All,
}
use household_objects_srv.Push.Types.{Store, PushMutation, PushOutcome, Outside}
use household_objects_srv.Push.Apply.{Handlers, positive, apply_mutation}
use household_objects_srv.Push.Apply.Ledger.{HandlersKeepLog, apply_mutation-Recorded}
use household_objects_srv.Push.Batch.{
  PushResult, BatchError, watermark, empty_result, add_outcome, finish_push, push_from, push,
}
use household_objects_srv.Push.Batch.Stopped.{Done, failed_at, push_from-Stopped}

abbrev pub ids : List PushMutation → List String
ids ms = map (λ (m : PushMutation). m.mutation_id) ms

push_from-ok :
    (outs : ℕ → Outside) (handlers : Handlers) (group : String) (now : ℤ) (i : ℕ) (m : PushMutation)
    (ms : List PushMutation) (result : PushResult) (s : Store) (o : PushOutcome) (s' : Store)
    → apply_mutation (outs i) handlers s group (record m { now = now }) ≡ ok (o, s')
    → push_from outs handlers group now i (m ∷ ms) result s
      ≡ push_from outs handlers group now (suc i) ms (add_outcome m o result) s'
unfolding push_from
push_from-ok outs handlers group now i m ms result s o s' ran = rw (ran, push_from) refl

finish_push-ok :
    (s : Store) (group : String) (result : PushResult) (w : ℕ)
    → watermark s group ≡ ok w
    → finish_push s group result ≡ (ok (record result { new_watermark = w }), s)
unfolding finish_push
finish_push-ok s group result w h = rw (h, finish_push) refl

push_from-skips :
    (outs : ℕ → Outside) (handlers : Handlers) (group : String) (now : ℤ) (i : ℕ)
    (ms rest : List PushMutation) (result : PushResult) (s : Store)
    → positive now ≡ true
    → All (Done s group) ms
    → push_from outs handlers group now i (ms ++ rest) result s
      ≡ push_from outs handlers group now
          (i + length ms)
          rest
          (record result { skipped = result.skipped ++ ids ms })
          s
unfolding add_outcome
push_from-skips outs handlers group now i [] rest result s later done =
    ap₂
      (λ (l : List String) (n : ℕ).
        push_from outs handlers group now n rest (record result { skipped = l }) s)
      (sym (append-nil result.skipped)) (omega arith)
push_from-skips outs handlers group now i (m ∷ ms) rest result s later ((valid, old), done) =
    let skip =
      apply_mutation-Recorded (outs i) handlers s group (record m { now = now }) (valid now later)
        old in
    let more =
      push_from-skips outs handlers group now (suc i) ms rest
        (record result { skipped = result.skipped ++ m.mutation_id ∷ [] }) s later done in
    push_from-ok outs handlers group now i m (ms ++ rest) result s _ s skip
    ∙ more
    ∙ ap₂
        (λ (l : List String) (n : ℕ).
          push_from outs handlers group now n rest (record result { skipped = l }) s)
        (append_assoc result.skipped (m.mutation_id ∷ []) (ids ms)) (omega arith)

length-take : (n : ℕ) (ms : List PushMutation) → n ≤ length ms → length (take n ms) ≡ n
length-take zero ms h = refl
length-take (suc n) [] h = absurd (omega arith)
length-take (suc n) (m ∷ ms) h = ap suc (length-take n ms (omega arith))

take-drop : (n : ℕ) (ms : List PushMutation) → take n ms ++ drop n ms ≡ ms
take-drop zero ms = refl
take-drop (suc n) [] = refl
take-drop (suc n) (m ∷ ms) = ap (λ (l : List PushMutation). m ∷ l) (take-drop n ms)

-- A batch that has been pushed without an error may be pushed again at any later attempt, whatever
-- the handlers would do then: every mutation of it is skipped, none is applied or in conflict, the
-- watermark is the one of the first push, and nothing is written.
pub push_again :
    (outs outs' : ℕ → Outside) (handlers handlers' : Handlers) (group : String) (now now' : ℤ)
    (ms : List PushMutation) (s : Store) (result : PushResult) (s' : Store)
    → HandlersKeepLog handlers
    → positive now' ≡ true
    → push outs handlers group now ms s ≡ (ok result, s')
    → push outs' handlers' group now' ms s' ≡ (
      ok (record {
        applied = [];
        skipped = ids ms;
        conflicts = [];
        new_watermark = result.new_watermark;
      }),
      s',
    )
unfolding push push_from finish_push
push_again outs outs' handlers handlers' group now now' ms s result s' keep later h =
    let stopped =
      push_from-Stopped outs handlers group now 0 ms empty_result s (ok result) s' keep h in
    let (whole, mark) = stopped.all result refl in
    let done = subst (All (Done s' group)) whole stopped.done in
    let skips = push_from-skips outs' handlers' group now' 0 ms [] empty_result s' later done in
    let joined : ms ++ [] ≡ ms = append-nil ms in
    ap (λ (l : List PushMutation). push_from outs' handlers' group now' 0 l empty_result s')
      (sym joined)
    ∙ skips
    ∙ finish_push-ok s' group (record empty_result { skipped = ids ms }) result.new_watermark mark

-- A batch that failed at the mutation with index `j` may be pushed again: what stands before that
-- mutation is skipped and writes nothing, so that the push goes on with that mutation, on the store
-- that the first push left.
pub push_resumes :
    (outs outs' : ℕ → Outside) (handlers handlers' : Handlers) (group : String) (now now' : ℤ)
    (ms : List PushMutation) (s : Store) (e : BatchError) (j : ℕ) (s' : Store)
    → HandlersKeepLog handlers
    → positive now' ≡ true
    → push outs handlers group now ms s ≡ (err e, s')
    → failed_at e ≡ some j
    → push outs' handlers' group now' ms s'
      ≡ push_from outs' handlers' group now' j
          (drop j ms)
          (record empty_result { skipped = ids (take j ms) })
          s'
unfolding push
push_resumes outs outs' handlers handlers' group now now' ms s e j s' keep later h at =
    let stopped = push_from-Stopped outs handlers group now 0 ms empty_result s (err e) s' keep h in
    let index : stopped.n ≡ j = (let x = stopped.fails e j refl at in omega arith) in
    let done = subst (λ n. All (Done s' group) (take n ms)) index stopped.done in
    let skips =
      push_from-skips outs' handlers' group now' 0 (take j ms) (drop j ms) empty_result s' later
        done in
    let length_taken = length-take j ms (subst (λ n. n ≤ length ms) index stopped.bound) in
    ap (λ (l : List PushMutation). push_from outs' handlers' group now' 0 l empty_result s')
      (sym (take-drop j ms))
    ∙ skips
    ∙ ap
        (λ n.
          push_from outs' handlers' group now' n (drop j ms)
            (record empty_result { skipped = ids (take j ms) }) s')
        (omega arith)
