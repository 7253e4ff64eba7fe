-- ===== src/Ratelimit/Delay.antt =====
-- The delay of server/internal/ratelimit/limiter.go, against doubling without a bound.
use household_objects_srv.Prelude.{
  ℕ, zero, suc, ◌*◌, ◌%◌, ◌^◌, ◌≤◌, ◌<◌, ◌≡◌, false, if◌then◌else◌, ltb, Bool-cases, inl, inr,
  arith,
}
use household_objects_srv.Ratelimit.{negative, double_delay, capped, backoff}

-- A delay doubled so many times, without a bound.
unfoldable pub doubled : ℕ → ℕ → ℕ
doubled zero delay = delay
doubled (suc n) delay = doubled n (delay * 2)

le-doubled : (n delay : ℕ) → delay ≤ doubled n delay
unfolding doubled
le-doubled zero delay = omega arith
le-doubled (suc n) delay = omega (arith, le-doubled n (delay * 2))

abbrev pub smaller : ℕ → ℕ → ℕ
smaller a b = if ltb a b then a else b

capped-double_delay :
    (max shift delay : ℕ)
    → max ≤ 2 ^ 62
    → 0 < delay
    → delay < 2 ^ 63
    → capped max (double_delay max shift delay) ≡ smaller max (doubled shift delay)
unfolding double_delay doubled
capped-double_delay max zero delay h k l = ground arith
capped-double_delay max (suc shift) delay h k l = elim (Bool-cases (ltb delay max)) [
  | inl e ↦
      let below : delay < max = ground arith in
      let wraps : (delay * 2 % 2 ^ 64) ≡ delay * 2 = omega arith in
      let sign : negative delay ≡ false = ground arith in
      rw (sign, e, wraps) (capped-double_delay max shift (delay * 2) h (omega arith) (omega arith))
  | inr e ↦
      let sign : negative delay ≡ false = ground arith in
      let grows = le-doubled shift (delay * 2) in rw (sign, e) (ground arith)
]

-- With a positive base delay that a Duration can hold, and a maximum of at most 2^62 nanoseconds, the
-- delay is the base doubled `shift` times, or the maximum if that is less; no doubling wraps.
pub backoff-doubles :
    (base max shift : ℕ)
    → 0 < base
    → base < 2 ^ 63
    → max ≤ 2 ^ 62
    → backoff base max shift ≡ smaller max (doubled shift base)
unfolding backoff
backoff-doubles base max shift h k l = capped-double_delay max shift base l h k
