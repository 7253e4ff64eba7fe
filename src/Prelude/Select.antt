-- ===== src/Prelude/Select.antt =====
-- The rows that pass a Boolean test, and how permutations carry over to them.
use Prim.Native.Nat.{suc, ◌≤◌}
use mathlib.Core.Path.{◌≡◌, refl, ap, ◌∙◌}
use mathlib.Core.Logic.{∥∥₁_elim, ∥∥₁_map, inl, inr}
use mathlib.Core.Bool.{Bool, true, false, ◌&&◌, ◌||◌}
use mathlib.Core.List.{List, [], ◌∷◌, ◌++◌, map, Perm, Permᴰ, perm_middle}
use mathlib.Core.List.Perm
use mathlib.Core.List.Permᴰ as PermD
use native.Mathlib.Omega.{arith}
use native.Mathlib.Nat.{ℕ_set}
use household_objects_srv.Prelude.Tests.{if◌then◌else◌, Bool-cases}
use household_objects_srv.Prelude.Lists.{length, All, gather, eq-nil_of_length}

abbrev pub select {ℓ} : {A : Type ℓ} → (A → Bool) → List A → List A
select p [] = []
select p (x ∷ xs) = if p x then x ∷ select p xs else select p xs

module _ {ℓ} {A : Type ℓ} where
  pub select-append :
      (p : A → Bool) (xs ys : List A) → select p (xs ++ ys) ≡ select p xs ++ select p ys
  select-append p [] ys = refl
  select-append p (x ∷ xs) ys = ground (arith, select-append p xs ys)

  pub select-select :
      (p q : A → Bool) (xs : List A) → select p (select q xs) ≡ select (λ x. q x && p x) xs
  select-select p q [] = refl
  select-select p q (x ∷ xs) = ground (arith, select-select p q xs)

  pub select-ext :
      (p q : A → Bool) (xs : List A) → All (λ x. p x ≡ q x) xs → select p xs ≡ select q xs
  select-ext p q [] h = refl
  select-ext p q (x ∷ xs) h = ground (arith, h.0, select-ext p q xs h.1)

  pub select-All : (p : A → Bool) (xs : List A) → All (λ x. p x ≡ true) xs → select p xs ≡ xs
  select-All p [] h = refl
  select-All p (x ∷ xs) h = ground (arith, h.0, select-All p xs h.1)

  pub select_none : (p : A → Bool) (xs : List A) → All (λ x. p x ≡ false) xs → select p xs ≡ []
  select_none p [] h = refl
  select_none p (x ∷ xs) h = ground (arith, h.0, select_none p xs h.1)

  pub length-select-le : (p : A → Bool) (xs : List A) → length (select p xs) ≤ length xs
  length-select-le p [] = omega arith
  length-select-le p (x ∷ xs) = ground (arith, length-select-le p xs)

pub select-map {ℓ κ} :
    {A : Type ℓ} {B : Type κ} (p : B → Bool) (f : A → B) (xs : List A)
    → select p (map f xs) ≡ map f (select (λ x. p (f x)) xs)
select-map p f [] = refl
select-map p f (x ∷ xs) = ground (arith, select-map p f xs)

module _ {ℓ} {A : Type ℓ} where
  ∷_if :
      {x y : A} {l m : List A} (b : Bool) {c : Bool}
      → b ≡ c
      → x ≡ y
      → Permᴰ l m
      → Permᴰ (if b then x ∷ l else l) (if c then y ∷ m else m)
  ∷_if true e f t = rw (← e) (Permᴰ.cons f t)
  ∷_if false e f t = rw (← e) t

  swap_if :
      (x y : A) (b c : Bool) (l : List A)
      → Permᴰ
          (if b then x ∷ (if c then y ∷ l else l) else (if c then y ∷ l else l))
          (if c then y ∷ (if b then x ∷ l else l) else (if b then x ∷ l else l))
  swap_if x y true true l = Permᴰ.swap refl refl
  swap_if x y true false l = PermD.refl _
  swap_if x y false c l = PermD.refl _

  Permᴰ-select : (p : A → Bool) {xs ys : List A} → Permᴰ xs ys → Permᴰ (select p xs) (select p ys)
  Permᴰ-select p Permᴰ.nil = Permᴰ.nil
  Permᴰ-select p (Permᴰ.cons {a = x} e t) = ∷_if (p x) (ap p e) e (Permᴰ-select p t)
  Permᴰ-select p (Permᴰ.swap {a = x} {b = y} {l = l} e f) =
      rw (← e, ← f) (swap_if x y (p x) (p y) (select p l))
  Permᴰ-select p (Permᴰ.trans t u) = Permᴰ.trans (Permᴰ-select p t) (Permᴰ-select p u)

  pub Perm-select : (p : A → Bool) {xs ys : List A} → Perm xs ys → Perm (select p xs) (select p ys)
  Perm-select p t = ∥∥₁_map t (Permᴰ-select p)

  Permᴰ-length : {xs ys : List A} → Permᴰ xs ys → length xs ≡ length ys
  Permᴰ-length Permᴰ.nil = refl
  Permᴰ-length (Permᴰ.cons e t) = ap suc (Permᴰ-length t)
  Permᴰ-length (Permᴰ.swap {l = l} e f) = refl
  Permᴰ-length (Permᴰ.trans t u) = Permᴰ-length t ∙ Permᴰ-length u

  pub Perm-length : {xs ys : List A} → Perm xs ys → length xs ≡ length ys
  Perm-length t = ∥∥₁_elim t (ℕ_set _ _) Permᴰ-length

  -- What no row of one list passes, no row of a permutation passes.
  pub Perm-select_none :
      (p : A → Bool) {xs ys : List A} → Perm xs ys → select p xs ≡ [] → select p ys ≡ []
  Perm-select_none p {xs} {ys} t h =
      eq-nil_of_length (select p ys) (omega (arith, Perm-length (Perm-select p t), ap length h))

  pub select_comm : (p q : A → Bool) (xs : List A) → select p (select q xs) ≡ select q (select p xs)
  select_comm p q [] = refl
  select_comm p q (x ∷ xs) = ground (arith, select_comm p q xs)

  pub All-select_none : (p : A → Bool) (xs : List A) → select p xs ≡ [] → All (λ x. p x ≡ false) xs
  All-select_none p [] h = tt
  All-select_none p (x ∷ xs) h = elim (Bool-cases (p x)) [
    | inl e ↦ cc (rw e at h)
    | inr e ↦ (e, All-select_none p xs (rw e at h))
  ]

  split_if :
      (x : A) (l m n : List A) (b c d : Bool)
      → (d ≡ (b || c)) × ((b && c) ≡ false)
      → Perm l (m ++ n)
      → Perm (if d then x ∷ l else l) ((if b then x ∷ m else m) ++ (if c then x ∷ n else n))
  split_if x l m n true true d h t = cc (h.1)
  split_if x l m n true false d h t = rw h.0 (Perm.cons _ t)
  split_if x l m n false true d h t =
      rw h.0 (Perm.trans (Perm.cons x t) (Perm.symm (perm_middle m n)))
  split_if x l m n false false d h t = rw h.0 t

  pub All-select : (p : A → Bool) (xs : List A) → All (λ x. p x ≡ true) (select p xs)
  All-select p [] = tt
  All-select p (x ∷ xs) = elim (Bool-cases (p x)) [
    | inl e ↦ rw e (e, All-select p xs)
    | inr e ↦ rw e (All-select p xs)
  ]

  -- A test that is the disjoint union of two splits the rows in two.
  pub Perm-select_split :
      (p q r : A → Bool) (xs : List A)
      → All (λ x. (r x ≡ (p x || q x)) × ((p x && q x) ≡ false)) xs
      → Perm (select r xs) (select p xs ++ select q xs)
  Perm-select_split p q r [] h = Perm.refl []
  Perm-select_split p q r (x ∷ xs) h =
      split_if x _ _ _ (p x) (q x) (r x) h.0 (Perm-select_split p q r xs h.1)

pub Perm-gather {ℓ κ} :
    {A : Type ℓ} {B : Type κ} (f g : A → List B) (xs : List A)
    → ((x : A) → Perm (f x) (g x))
    → Perm (gather f xs) (gather g xs)
Perm-gather f g [] h = Perm.refl []
Perm-gather f g (x ∷ xs) h = Perm.append (h x) (Perm-gather f g xs h)

pub select-gather {ℓ κ} :
    {A : Type ℓ} {B : Type κ} (p : B → Bool) (f : A → List B) (xs : List A)
    → select p (gather f xs) ≡ gather (λ x. select p (f x)) xs
select-gather p f [] = refl
select-gather p f (x ∷ xs) = rw (select-append, select-gather p f xs)
