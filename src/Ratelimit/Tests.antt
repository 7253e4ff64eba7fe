-- ===== src/Ratelimit/Tests.antt =====
-- A limiter that blocks from the second failure on: its theorems at concrete calls, and a run.
use household_objects_srv.Prelude.{◌+◌, ◌≡◌, refl, true, false, [], ◌∷◌, pos, arith}
use household_objects_srv.Ratelimit.{
  Config, Limiter, new, allow, backoff, double_delay, record_failure, record_success, penalised,
}
use household_objects_srv.Ratelimit.Delay.{doubled, smaller, backoff-doubles}
use household_objects_srv.Ratelimit.Entries.{
  allow_at, failure_at, success, Bounded, run, run-Bounded,
}
use household_objects_srv.Ratelimit.Blocks.{
  failures_of, answer, record_failure-blocks, record_success-forgets,
}

abbrev config : Config
config = record {
  max_entries = pos 2;
  free_attempts = pos 1;
  base_delay = pos 10;
  max_delay = pos 30;
}

-- Two failures of "a" at times 100 and 105.
abbrev limiter : Limiter
limiter = record {
  max_entries = 2;
  free_attempts = 1;
  base = 10;
  max = 30;
  entries = record { key = "a"; failures = 2; blocked_until = 115 } ∷ [];
}

two_failures : record_failure (record_failure (new config) "a" 100) "a" 105 ≡ limiter
unfolding record_failure penalised backoff double_delay new
two_failures = refl

backoff-doubles_example : backoff 10 30 1 ≡ smaller 30 (doubled 1 10)
backoff-doubles_example = backoff-doubles 10 30 1 (omega arith) (omega arith) (omega arith)

run-Bounded_example : Bounded (
    run
      (new config)
      (failure_at "a" 1 ∷ failure_at "b" 2 ∷ failure_at "c" 3 ∷ allow_at "b" 4 ∷ success "c" ∷ []))
run-Bounded_example =
    run-Bounded config
      (failure_at "a" 1 ∷ failure_at "b" 2 ∷ failure_at "c" 3 ∷ allow_at "b" 4 ∷ success "c" ∷ [])

-- The third failure, at time 120, blocks for twice the base delay.
record_failure-blocks_example :
    (allow (record_failure limiter "a" 120) "a" 125).0 ≡ answer (120 + backoff 10 30 1) 125
record_failure-blocks_example =
    record_failure-blocks limiter "a" 120 125 (omega arith) (omega arith)

third_failure : (allow (record_failure limiter "a" 120) "a" 125).0 ≡ (false, 15)
unfolding allow record_failure penalised backoff double_delay
third_failure = refl

record_success-forgets_example :
    ((allow (record_success limiter "a") "a" 106).0 ≡ (true, 0))
    × (failures_of (record_success limiter "a") "a" ≡ 0)
record_success-forgets_example = record_success-forgets limiter "a" 106
