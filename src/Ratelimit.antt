-- ===== src/Ratelimit.antt =====
-- The limiter of failed attempts, server/internal/ratelimit/limiter.go: at most `max_entries` keys,
-- the least recently used one making room for a new one. Times and durations are nanoseconds. The
-- map and the list of the source hold the same entries, so here the list alone, its front first, is
-- the state; the mutex makes each operation one step.
pub mod Delay
pub mod Entries
pub mod Blocks
pub mod Tests
use household_objects_srv.Prelude.{
  ℕ, zero, suc, ◌+◌, ◌-◌, ◌*◌, ◌%◌, ◌^◌, String, str_eq, ℤ, pos, negsuc, Bool, true, false, ◌&&◌,
  ◌||◌, not, Option, none, some, List, [], ◌∷◌, if◌then◌else◌, ltb, leb, ◌==◌, length, select,
  find?,
}

pub record Config : Type 0 where
  pub max_entries : ℤ
  pub free_attempts : ℤ
  pub base_delay : ℤ
  pub max_delay : ℤ

pub record Entry : Type 0 where
  pub key : String
  pub failures : ℕ
  pub blocked_until : ℕ

pub record Limiter : Type 0 where
  pub max_entries : ℕ
  pub free_attempts : ℕ
  pub base : ℕ
  pub max : ℕ
  pub entries : List Entry

abbrev or_default : ℕ → ℤ → ℕ
or_default d (negsuc n) = d
or_default d (pos zero) = d
or_default d (pos (suc n)) = suc n

-- `New`
unfoldable pub new : Config → Limiter
new cfg = record {
  max_entries = or_default 4096 cfg.max_entries;
  free_attempts = or_default 5 cfg.free_attempts;
  base = or_default 1000000000 cfg.base_delay;
  max = or_default 30000000000 cfg.max_delay;
  entries = [];
}

abbrev pub has_key : String → Entry → Bool
has_key key e = str_eq e.key key

abbrev pub find_entry : String → List Entry → Option Entry
find_entry key entries = find? (has_key key) entries

-- `delete` from the map and `Remove` from the list
abbrev pub remove : String → List Entry → List Entry
remove key entries = select (λ e. not (has_key key e)) entries

-- `Allow`: the answer, and the limiter with the entry in front.
unfoldable pub allow : Limiter → String → ℕ → (Bool × ℕ) × Limiter
allow l key now = elim (find_entry key l.entries) [
  | none ↦ ((true, 0), l)
  | some e ↦
      let l' = record l { entries = e ∷ remove key l.entries } in
      if ltb now e.blocked_until then ((false, e.blocked_until - now), l') else ((true, 0), l')
]

-- A Duration is its 64 bits; it is negative from 2^63 on.
abbrev pub negative : ℕ → Bool
negative delay = leb (2 ^ 63) delay

-- The loop that doubles the delay.
unfoldable pub double_delay : ℕ → ℕ → ℕ → ℕ
double_delay max zero delay = delay
double_delay max (suc shift) delay =
    let rest = double_delay max shift (delay * 2 % 2 ^ 64) in
    if negative delay || ltb delay max then rest else delay

abbrev capped : ℕ → ℕ → ℕ
capped max delay = if negative delay || (ltb max delay || (delay == 0)) then max else delay

-- The delay after `shift + 1` failures too many.
unfoldable pub backoff : ℕ → ℕ → ℕ → ℕ
backoff base max shift = capped max (double_delay max shift base)

abbrev pub failure_ceiling : ℕ
failure_ceiling = 2 ^ 30

abbrev pub counted : ℕ → ℕ
counted failures = if ltb failures failure_ceiling then suc failures else failures

-- An entry with one more failure.
unfoldable pub penalised : Limiter → Entry → ℕ → Entry
penalised l e now =
    if leb (counted e.failures) l.free_attempts
    then record e { failures = counted e.failures }
    else record e {
      failures = counted e.failures;
      blocked_until = now + backoff l.base l.max (counted e.failures - l.free_attempts - 1);
    }

-- What `Back` and `Remove` leave.
abbrev pub drop_last : List Entry → List Entry
drop_last [] = []
drop_last (e ∷ []) = []
drop_last (e ∷ f ∷ es) = e ∷ drop_last (f ∷ es)

-- The room that `insertLocked` makes.
abbrev pub make_room : ℕ → List Entry → List Entry
make_room max_entries entries =
    if leb max_entries (length entries) then drop_last entries else entries

abbrev pub fresh_entry : String → Entry
fresh_entry key = record { key = key; failures = 0; blocked_until = 0 }

-- `RecordFailure`
unfoldable pub record_failure : Limiter → String → ℕ → Limiter
record_failure l key now = elim (find_entry key l.entries) [
  | none ↦ record l {
    entries = penalised l (fresh_entry key) now ∷ make_room l.max_entries l.entries;
  }
  | some e ↦ record l { entries = penalised l e now ∷ remove key l.entries }
]

-- `RecordSuccess`
unfoldable pub record_success : Limiter → String → Limiter
record_success l key = elim (find_entry key l.entries) [
  | none ↦ l
  | some e ↦ record l { entries = remove key l.entries }
]
