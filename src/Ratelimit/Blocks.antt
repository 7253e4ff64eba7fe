-- ===== src/Ratelimit/Blocks.antt =====
-- What a caller of the limiter of server/internal/ratelimit/limiter.go sees.
use household_objects_srv.Prelude.{
  ℕ, ◌+◌, ◌-◌, ◌≤◌, ◌<◌, String, eq_iff, ◌≡◌, refl, ap, ◌∙◌, Bool, true, false, Option, none, some,
  List, [], ◌∷◌, if◌then◌else◌, leb, ltb, Bool-cases, Option-cases, inl, inr, arith,
}
use household_objects_srv.Ratelimit.{
  Entry, Limiter, has_key, find_entry, remove, allow, backoff, counted, failure_ceiling, penalised,
  fresh_entry, record_failure, record_success,
}
use household_objects_srv.Ratelimit.Entries.{find_entry-key, penalised-key}

-- The failures that the limiter has counted for a key.
abbrev failures_in : Option Entry → ℕ
failures_in none = 0
failures_in (some e) = e.failures

abbrev pub failures_of : Limiter → String → ℕ
failures_of l key = failures_in (find_entry key l.entries)

abbrev pub answer : ℕ → ℕ → Bool × ℕ
answer until now = if ltb now until then (false, until - now) else (true, 0)

allow-front :
    (l : Limiter) (key : String) (now : ℕ) (e : Entry)
    → find_entry key l.entries ≡ some e
    → (allow l key now).0 ≡ answer e.blocked_until now
unfolding allow
allow-front l key now e h = elim (Bool-cases (ltb now e.blocked_until)) [
  | inl t ↦ rw (h, t, allow) refl
  | inr t ↦ rw (h, t, allow) refl
]

penalised-blocked :
    (l : Limiter) (e : Entry) (now : ℕ)
    → l.free_attempts < counted e.failures
    → (penalised l e now).blocked_until
      ≡ now + backoff l.base l.max (counted e.failures - l.free_attempts - 1)
unfolding penalised
penalised-blocked l e now h =
    (let beyond : leb (counted e.failures) l.free_attempts ≡ false = ground arith in
      rw (beyond, penalised) refl)

has_key-eq : (key : String) (e : Entry) → e.key ≡ key → has_key key e ≡ true
has_key-eq key e h = (eq_iff e.key key).1 h

find_entry-remove : (key : String) (es : List Entry) → find_entry key (remove key es) ≡ none
find_entry-remove key [] = refl
find_entry-remove key (e ∷ es) = elim (Bool-cases (has_key key e)) [
  | inl h ↦ rw h (find_entry-remove key es)
  | inr h ↦ rw (h, h) (find_entry-remove key es)
]

record_failure-find :
    (l : Limiter) (key : String) (now : ℕ)
    → (e : Entry) × (find_entry key (record_failure l key now).entries ≡ some (penalised l e now))
      × (e.failures ≡ failures_of l key)
unfolding record_failure
record_failure-find l key now = elim (Option-cases (find_entry key l.entries)) [
  | inl h ↦
      let same =
        has_key-eq key (penalised l (fresh_entry key) now)
          (penalised-key l (fresh_entry key) now) in
      (fresh_entry key, rw (h, record_failure, same) refl, rw h refl)
  | inr (e, h) ↦
      let same =
        has_key-eq key (penalised l e now)
          (penalised-key l e now ∙ find_entry-key key l.entries e h) in
      (e, rw (h, record_failure, same) refl, rw h refl)
]

record_failure-kept :
    (l : Limiter) (key : String) (now : ℕ)
    → ((record_failure l key now).base ≡ l.base) × ((record_failure l key now).max ≡ l.max)
unfolding record_failure
record_failure-kept l key now = ground arith

-- When a key has at least `free_attempts` counted failures, but not yet 2^30, one more failure blocks
-- it: until the delay of its new count has passed since the failure, `Allow` refuses and says how long
-- that will take; from then on it allows.
pub record_failure-blocks :
    (l : Limiter) (key : String) (now later : ℕ)
    → l.free_attempts ≤ failures_of l key
    → failures_of l key < failure_ceiling
    → (allow (record_failure l key now) key later).0
      ≡ answer (now + backoff l.base l.max (failures_of l key - l.free_attempts)) later
record_failure-blocks l key now later h k =
    let (e, found, count) = record_failure-find l key now in
    let shift : counted e.failures - l.free_attempts - 1 ≡ failures_of l key - l.free_attempts =
      ground arith in
    allow-front (record_failure l key now) key later (penalised l e now) found
    ∙ ap (λ until. answer until later)
        (penalised-blocked l e now (ground arith) ∙ ap (λ n. now + backoff l.base l.max n) shift)

-- After a success, `Allow` lets the key pass at once, and none of its failures is counted.
pub record_success-forgets :
    (l : Limiter) (key : String) (later : ℕ)
    → ((allow (record_success l key) key later).0 ≡ (true, 0))
      × (failures_of (record_success l key) key ≡ 0)
unfolding allow record_success
record_success-forgets l key later = elim (Option-cases (find_entry key l.entries)) [
  | inl h ↦ (rw (h, record_success, allow, h) refl, rw (h, record_success, h) refl)
  | inr (e, h) ↦
      let gone = find_entry-remove key l.entries in
      (rw (h, record_success, allow, gone) refl, rw (h, record_success, gone) refl)
]
