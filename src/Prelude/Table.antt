-- ===== src/Prelude/Table.antt =====
-- Rows of a table as a list: the first row that passes a test, and an UPDATE of those that pass.
use mathlib.Core.Path.{◌≡◌, refl}
use mathlib.Core.Bool.{Bool, true, false}
use mathlib.Core.Option.{Option, none, some}
use mathlib.Core.List.{List, [], ◌∷◌, ◌++◌}
use native.Mathlib.Omega.{arith}
use household_objects_srv.Prelude.Tests.{if◌then◌else◌}

module _ {ℓ} {A : Type ℓ} where
  abbrev pub find? : (A → Bool) → List A → Option A
  find? p [] = none
  find? p (x ∷ xs) = if p x then some x else find? p xs

  abbrev pub update_where : (A → Bool) → (A → A) → List A → List A
  update_where p f [] = []
  update_where p f (x ∷ xs) = (if p x then f x else x) ∷ update_where p f xs

  pub find?-append_hit :
      (p : A → Bool) (xs ys : List A) (a : A) → find? p xs ≡ some a → find? p (xs ++ ys) ≡ some a
  find?-append_hit p [] ys a h = cc
  find?-append_hit p (x ∷ xs) ys a h = ground (arith, find?-append_hit p xs ys a)

  pub find?-append_miss :
      (p : A → Bool) (xs ys : List A) → find? p xs ≡ none → find? p (xs ++ ys) ≡ find? p ys
  find?-append_miss p [] ys h = refl
  find?-append_miss p (x ∷ xs) ys h = ground (arith, find?-append_miss p xs ys)

  pub find?-true : (p : A → Bool) (xs : List A) (a : A) → find? p xs ≡ some a → p a ≡ true
  find?-true p [] a h = cc
  find?-true p (x ∷ xs) a h = ground (arith, find?-true p xs a)

  -- The row that is found is updated in its place, if no other row comes to pass the test.
  pub find?-update_where :
      (p q : A → Bool) (f : A → A) (xs : List A) (a : A)
      → ((x : A) → q x ≡ true → p x ≡ true)
      → find? p xs ≡ some a
      → q a ≡ true
      → p (f a) ≡ true
      → find? p (update_where q f xs) ≡ some (f a)
  find?-update_where p q f [] a sub h k l = cc
  find?-update_where p q f (x ∷ xs) a sub h k l =
      ground (arith, find?-update_where p q f xs a sub, sub x)

  -- A test that neither side of the update passes finds what it found before.
  pub find?-update_where_other :
      (p q : A → Bool) (f : A → A) (xs : List A)
      → ((x : A) → q x ≡ true → (p x ≡ false) × (p (f x) ≡ false))
      → find? p (update_where q f xs) ≡ find? p xs
  find?-update_where_other p q f [] h = refl
  find?-update_where_other p q f (x ∷ xs) h =
      ground (arith, find?-update_where_other p q f xs h, h x)
