-- ===== src/Prelude/Counted.antt =====
-- How many rows of a table pass a test, before and after an INSERT or an UPDATE.
use Prim.Native.Nat.{◌+◌, ◌≤◌}
use mathlib.Core.Path.{◌≡◌, refl, sym, subst}
use mathlib.Core.Logic.{inl, inr}
use mathlib.Core.Bool.{Bool, true, false}
use mathlib.Core.Option.{none, some}
use mathlib.Core.List.{List, [], ◌∷◌, ◌++◌}
use native.Mathlib.Omega.{arith}
use household_objects_srv.Prelude.Tests.{if◌then◌else◌, Bool-cases}
use household_objects_srv.Prelude.Lists.{length, All}
use household_objects_srv.Prelude.Select.{select}
use household_objects_srv.Prelude.Table.{find?, update_where}

module _ {ℓ} {A : Type ℓ} where
  pub none-length-select :
      (p : A → Bool) (rows : List A) → find? p rows ≡ none → length (select p rows) ≡ 0
  none-length-select p [] h = refl
  none-length-select p (r ∷ rows) h = elim (Bool-cases (p r)) [
    | inl e ↦ absurd (ground (arith, rw e at h))
    | inr e ↦ rw e (none-length-select p rows (rw e at h))
  ]

  pub some-length-select :
      (p : A → Bool) (rows : List A) (r : A) → find? p rows ≡ some r → 1 ≤ length (select p rows)
  some-length-select p [] r h = absurd (ground (arith, h))
  some-length-select p (x ∷ rows) r h = elim (Bool-cases (p x)) [
    | inl e ↦ rw e (omega arith)
    | inr e ↦ rw e (some-length-select p rows r (rw e at h))
  ]

  pub length-select-append :
      (p : A → Bool) (rows : List A) (new : A)
      → length (select p (rows ++ new ∷ [])) ≡ length (select p rows) + (if p new then 1 else 0)
  length-select-append p [] new = ground arith
  length-select-append p (r ∷ rows) new = ground (arith, length-select-append p rows new)

  -- An UPDATE after which no other row passes the test leaves no more rows that pass it.
  pub length-select-update_where :
      (p q : A → Bool) (f : A → A) (rows : List A)
      → ((r : A) → p (f r) ≡ true → p r ≡ true)
      → length (select p (update_where q f rows)) ≤ length (select p rows)
  length-select-update_where p q f [] h = omega arith
  length-select-update_where p q f (r ∷ rows) h =
      ground (arith, length-select-update_where p q f rows h, h r)

  pub length-select_same :
      (p q : A → Bool) (f : A → A) (rows : List A)
      → ((r : A) → p (f r) ≡ p r)
      → length (select p (update_where q f rows)) ≡ length (select p rows)
  length-select_same p q f [] h = refl
  length-select_same p q f (r ∷ rows) h = ground (arith, length-select_same p q f rows h, h r)

  pub length-select_sub :
      (p q : A → Bool) (rows : List A)
      → ((r : A) → p r ≡ true → q r ≡ true)
      → length (select p rows) ≤ length (select q rows)
  length-select_sub p q [] h = omega arith
  length-select_sub p q (r ∷ rows) h = ground (arith, length-select_sub p q rows h, h r)

  pub found-length-select :
      (p q : A → Bool) (rows : List A) (r : A)
      → find? p rows ≡ some r
      → q r ≡ true
      → 1 ≤ length (select q rows)
  found-length-select p q [] r h k = absurd (ground (arith, h))
  found-length-select p q (x ∷ rows) r h k = elim (Bool-cases (q x)) [
    | inl e ↦ rw e (omega arith)
    | inr e ↦ elim (Bool-cases (p x)) [
      | inl f ↦ absurd (ground (arith, rw f at h, e, k))
      | inr f ↦ rw e (found-length-select p q rows r (rw f at h) k)
    ]
  ]

  some-injective : (a b : A) → some a ≡ some b → a ≡ b
  some-injective a b h = cc

  pub found-All {κ} :
      (P : A → Type κ) (p : A → Bool) (rows : List A) (r : A)
      → find? p rows ≡ some r
      → All P rows
      → P r
  found-All P p [] r h all = absurd (ground (arith, h))
  found-All P p (x ∷ rows) r h (here, all) = elim (Bool-cases (p x)) [
    | inl f ↦ subst P (some-injective x r (rw f at h)) here
    | inr f ↦ found-All P p rows r (rw f at h) all
  ]

  -- A row that passes the wider test alone is one more row of it.
  pub found-length-select_sub :
      (p o q : A → Bool) (rows : List A) (r : A)
      → ((x : A) → o x ≡ true → q x ≡ true)
      → find? p rows ≡ some r
      → q r ≡ true
      → o r ≡ false
      → length (select o rows) + 1 ≤ length (select q rows)
  found-length-select_sub p o q [] r sub h k l = absurd (ground (arith, h))
  found-length-select_sub p o q (x ∷ rows) r sub h k l = elim (Bool-cases (p x)) [
    | inl f ↦
        let same = some-injective x r (rw f at h) in
        let k' = subst (λ a. q a ≡ true) (sym same) k in
        let l' = subst (λ a. o a ≡ false) (sym same) l in
        let rest = length-select_sub o q rows sub in rw (k', l') (omega arith)
    | inr f ↦ ground (arith, found-length-select_sub p o q rows r sub (rw f at h) k l, sub x)
  ]
