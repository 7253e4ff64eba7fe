-- ===== src/Prelude/Int.antt =====
-- Signed integers over the native numbers, for the `int64` arguments that a caller may make negative.
use Prim.Native.Nat.{ℕ, ◌+◌, ◌-◌, ◌%◌, ◌<◌}
use mathlib.Core.Path.{◌≡◌}
use mathlib.Core.Logic.{◌↔◌}
use mathlib.Core.Bool.{Bool, true, false}
use native.Mathlib.Omega.{arith}
use household_objects_srv.Prelude.Tests.{◌==◌, ltb, if◌then◌else◌}

-- `negsuc n` is -(n + 1).
pub data ℤ : Type 0 where
  pos : ℕ → ℤ
  negsuc : ℕ → ℤ

abbrev pub pos_part : ℤ → ℕ
pos_part (pos n) = n
pos_part (negsuc n) = 0

abbrev pub ℤ_eq : ℤ → ℤ → Bool
ℤ_eq (pos a) (pos b) = a == b
ℤ_eq (negsuc a) (negsuc b) = a == b
ℤ_eq _ _ = false

pub ℤ_eq_iff : (a b : ℤ) → (ℤ_eq a b ≡ true) ↔ (a ≡ b)
ℤ_eq_iff (pos a) (pos b) = ground arith
ℤ_eq_iff (pos a) (negsuc b) = ground arith
ℤ_eq_iff (negsuc a) (pos b) = ground arith
ℤ_eq_iff (negsuc a) (negsuc b) = ground arith

-- 2^64 and 2^63.
abbrev pub words : ℕ
words = 18446744073709551616

abbrev pub half_words : ℕ
half_words = 9223372036854775808

-- The bits of an `int64`, as the number that they are without a sign.
abbrev pub word : ℤ → ℕ
word (pos n) = n % words
word (negsuc n) = words - 1 - n % words

-- The `int64` with these bits.
abbrev pub signed : ℕ → ℤ
signed w = if ltb w half_words then pos w else negsuc (words - 1 - w)

-- Addition on `int64`, which wraps.
abbrev pub add64 : ℤ → ℤ → ℤ
add64 a b = signed ((word a + word b) % words)

word-signed : (w : ℕ) → w < words → word (signed w) ≡ w
word-signed w h = ground arith

pub word-add64 : (a b : ℤ) → word (add64 a b) ≡ (word a + word b) % words
word-add64 a b = word-signed ((word a + word b) % words) (omega arith)

pub word-mod : (a : ℤ) → word a % words ≡ word a
word-mod (pos n) = omega arith
word-mod (negsuc n) = omega arith
