-- ===== src/Ratelimit/Entries.antt =====
-- The entries of the limiter of server/internal/ratelimit/limiter.go over any sequence
-- of calls.
use mathlib.Core.Path.{subst}
use household_objects_srv.Prelude.{
  ℕ, zero, suc, ◌≤◌, ◌<◌, String, eq_iff, ◌≡◌, refl, sym, ap, ◌∙◌, false, not, none, some, List, [],
  ◌∷◌, leb, ltb, Bool-cases, Option-cases, inl, inr, arith, length, length-select-le, All,
  find?-true, pos, negsuc, ℤ,
}
use household_objects_srv.Ratelimit.{
  Config, Entry, Limiter, new, or_default, has_key, find_entry, remove, allow, penalised, drop_last,
  make_room, fresh_entry, record_failure, record_success,
}

abbrev pub Absent : String → List Entry → Type 0
Absent key entries = All (λ (e : Entry). has_key key e ≡ false) entries

abbrev pub Distinct : List Entry → Type 0
Distinct [] = Unit
Distinct (e ∷ es) = Absent e.key es × Distinct es

-- The map has a place for every entry, and one entry for every key.
abbrev pub Bounded : Limiter → Type 0
Bounded l = (0 < l.max_entries) × (length l.entries ≤ l.max_entries) × Distinct l.entries

remove-Absent : (key : String) (es : List Entry) → Absent key (remove key es)
remove-Absent key [] = tt
remove-Absent key (e ∷ es) = elim (Bool-cases (has_key key e)) [
  | inl h ↦ rw h (remove-Absent key es)
  | inr h ↦ rw h (h, remove-Absent key es)
]

All-remove :
    (P : Entry → Type 0) (key : String) (es : List Entry) → All P es → All P (remove key es)
All-remove P key [] h = tt
All-remove P key (e ∷ es) (h, hs) = elim (Bool-cases (has_key key e)) [
  | inl t ↦ rw t (All-remove P key es hs)
  | inr t ↦ rw t (h, All-remove P key es hs)
]

Distinct-remove : (key : String) (es : List Entry) → Distinct es → Distinct (remove key es)
Distinct-remove key [] h = tt
Distinct-remove key (e ∷ es) (h, hs) = elim (Bool-cases (has_key key e)) [
  | inl t ↦ rw t (Distinct-remove key es hs)
  | inr t ↦ rw t (All-remove _ key es h, Distinct-remove key es hs)
]

-- An entry that is found leaves a place when it is removed.
length-remove :
    (key : String) (es : List Entry) (e : Entry)
    → find_entry key es ≡ some e
    → length (remove key es) < length es
length-remove key [] e h = cc
length-remove key (f ∷ es) e h = elim (Bool-cases (has_key key f)) [
  | inl t ↦ rw t (let x = length-select-le (λ e. not (has_key key e)) es in omega arith)
  | inr t ↦ rw t (let x = length-remove key es e (rw t at h) in omega arith)
]

find_entry-none : (key : String) (es : List Entry) → find_entry key es ≡ none → Absent key es
find_entry-none key [] h = tt
find_entry-none key (e ∷ es) h = elim (Bool-cases (has_key key e)) [
  | inl t ↦ absurd (ground (arith, rw t at h))
  | inr t ↦ (t, find_entry-none key es (rw t at h))
]

pub find_entry-key :
    (key : String) (es : List Entry) (e : Entry) → find_entry key es ≡ some e → e.key ≡ key
find_entry-key key es e h = (eq_iff e.key key).0 (find?-true (has_key key) es e h)

All-drop_last : (P : Entry → Type 0) (es : List Entry) → All P es → All P (drop_last es)
All-drop_last P [] h = tt
All-drop_last P (e ∷ []) h = tt
All-drop_last P (e ∷ f ∷ es) (h, hs) = (h, All-drop_last P (f ∷ es) hs)

Distinct-drop_last : (es : List Entry) → Distinct es → Distinct (drop_last es)
Distinct-drop_last [] h = tt
Distinct-drop_last (e ∷ []) h = tt
Distinct-drop_last (e ∷ f ∷ es) (h, hs) =
    (All-drop_last _ (f ∷ es) h, Distinct-drop_last (f ∷ es) hs)

length-drop_last : (es : List Entry) → 0 < length es → suc (length (drop_last es)) ≡ length es
length-drop_last [] h = absurd (omega arith)
length-drop_last (e ∷ []) h = refl
length-drop_last (e ∷ f ∷ es) h = ap suc (length-drop_last (f ∷ es) (omega arith))

make_room-fits :
    (n : ℕ) (key : String) (es : List Entry)
    → 0 < n
    → length es ≤ n
    → Absent key es
    → Distinct es
    → (length (make_room n es) < n) × Absent key (make_room n es) × Distinct (make_room n es)
make_room-fits n key es h k absent distinct = elim (Bool-cases (leb n (length es))) [
  | inl t ↦ rw t (
    (let full : n ≤ length es = ground arith in
        let x = length-drop_last es (omega arith) in omega arith),
    All-drop_last _ es absent,
    Distinct-drop_last es distinct,
  )
  | inr t ↦ rw t (ground arith, absent, distinct)
]

-- An entry put in front of those of other keys.
in_front :
    (key : String) (e : Entry) (es : List Entry)
    → e.key ≡ key
    → Absent key es
    → Distinct es
    → Distinct (e ∷ es)
in_front key e es h absent distinct = (subst (λ k. Absent k es) (sym h) absent, distinct)

pub penalised-key : (l : Limiter) (e : Entry) (now : ℕ) → (penalised l e now).key ≡ e.key
unfolding penalised
penalised-key l e now = ground arith

allow-Bounded : (l : Limiter) (key : String) (now : ℕ) → Bounded l → Bounded (allow l key now).1
unfolding allow
allow-Bounded l key now (room, fits, distinct) = elim (Option-cases (find_entry key l.entries)) [
  | inl h ↦ rw (h, allow) (room, fits, distinct)
  | inr (e, h) ↦
      let shorter = length-remove key l.entries e h in
      let kept =
        in_front key e (remove key l.entries) (find_entry-key key l.entries e h)
          (remove-Absent key l.entries) (Distinct-remove key l.entries distinct) in
      elim (Bool-cases (ltb now e.blocked_until)) [
        | inl t ↦ rw (h, t, allow) (room, omega arith, kept)
        | inr t ↦ rw (h, t, allow) (room, omega arith, kept)
      ]
]

record_failure-Bounded :
    (l : Limiter) (key : String) (now : ℕ) → Bounded l → Bounded (record_failure l key now)
unfolding record_failure
record_failure-Bounded l key now (room, fits, distinct) =
    elim (Option-cases (find_entry key l.entries)) [
      | inl h ↦
          let (fits', absent, distinct') =
            make_room-fits l.max_entries key l.entries room fits (find_entry-none key l.entries h)
              distinct in
          rw (h, record_failure)
            (
              room,
              omega arith,
              in_front key (penalised l (fresh_entry key) now) _
                  (penalised-key l (fresh_entry key) now) absent distinct',
            )
      | inr (e, h) ↦
          let shorter = length-remove key l.entries e h in
          rw (h, record_failure)
            (
              room,
              omega arith,
              in_front key (penalised l e now) _
                  (penalised-key l e now ∙ find_entry-key key l.entries e h)
                  (remove-Absent key l.entries) (Distinct-remove key l.entries distinct),
            )
    ]

record_success-Bounded : (l : Limiter) (key : String) → Bounded l → Bounded (record_success l key)
unfolding record_success
record_success-Bounded l key (room, fits, distinct) =
    elim (Option-cases (find_entry key l.entries)) [
      | inl h ↦ rw (h, record_success) (room, fits, distinct)
      | inr (e, h) ↦
          let shorter = length-remove key l.entries e h in
          rw (h, record_success) (room, omega arith, Distinct-remove key l.entries distinct)
    ]

-- What a caller may do with the limiter.
pub data Operation : Type 0 where
  allow_at failure_at : String → ℕ → Operation
  success : String → Operation

unfoldable pub step : Limiter → Operation → Limiter
step l (allow_at key now) = (allow l key now).1
step l (failure_at key now) = record_failure l key now
step l (success key) = record_success l key

unfoldable pub run : Limiter → List Operation → Limiter
unfolding step
run l [] = l
run l (op ∷ ops) = run (step l op) ops

step-Bounded : (l : Limiter) (op : Operation) → Bounded l → Bounded (step l op)
unfolding step
step-Bounded l (allow_at key now) h = allow-Bounded l key now h
step-Bounded l (failure_at key now) h = record_failure-Bounded l key now h
step-Bounded l (success key) h = record_success-Bounded l key h

positive : (n : ℤ) → 0 < or_default 4096 n
positive (negsuc n) = omega arith
positive (pos zero) = omega arith
positive (pos (suc n)) = omega arith

new-Bounded : (cfg : Config) → Bounded (new cfg)
unfolding new
new-Bounded cfg = (positive cfg.max_entries, omega arith, tt)

run-keeps : (ops : List Operation) (l : Limiter) → Bounded l → Bounded (run l ops)
unfolding run
run-keeps [] l h = h
run-keeps (op ∷ ops) l h = run-keeps ops (step l op) (step-Bounded l op h)

-- Whatever the configuration, and after any sequence of calls with any keys and times, the limiter
-- has room for at least one entry, holds no more entries than it has room for, and holds no two
-- entries with the same key.
pub run-Bounded : (cfg : Config) (ops : List Operation) → Bounded (run (new cfg) ops)
run-Bounded cfg ops = run-keeps ops (new cfg) (new-Bounded cfg)
