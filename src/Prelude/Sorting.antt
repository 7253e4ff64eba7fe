-- ===== src/Prelude/Sorting.antt =====
-- Lists in ascending order of a numeric key, and the prefix that a `LIMIT` keeps of one.
use Prim.Native.Nat.{ℕ, zero, suc, ◌+◌, ◌≤◌, ◌<◌}
use mathlib.Core.Path.{◌≡◌, refl, ap}
use mathlib.Core.Logic.{inl, inr}
use mathlib.Core.Bool.{true, false}
use mathlib.Core.List.{List, [], ◌∷◌, Perm}
use mathlib.Core.List.Perm
use native.Mathlib.Omega.{arith}
use household_objects_srv.Prelude.Tests.{leb, ltb, leb→le, if◌then◌else◌, Bool-cases}
use household_objects_srv.Prelude.Lists.{length, take, All}
use household_objects_srv.Prelude.Select.{select}

module _ {ℓ} {A : Type ℓ} (key : A → ℕ) where
  -- The keys ascend, and none is below `b`.
  abbrev pub SortedFrom : ℕ → List A → Type 0
  SortedFrom b [] = Unit
  SortedFrom b (x ∷ xs) = (b ≤ key x) × SortedFrom (key x) xs

  abbrev pub IsSorted : List A → Type 0
  IsSorted xs = SortedFrom 0 xs

  pub SortedFrom-weaken : (a b : ℕ) (xs : List A) → a ≤ b → SortedFrom b xs → SortedFrom a xs
  SortedFrom-weaken a b [] h s = tt
  SortedFrom-weaken a b (x ∷ xs) h s = (omega arith, s.1)

  pub SortedFrom-All : (b : ℕ) (xs : List A) → SortedFrom b xs → All (λ x. b ≤ key x) xs
  SortedFrom-All b [] s = tt
  SortedFrom-All b (x ∷ xs) s = (s.0, SortedFrom-All b xs (SortedFrom-weaken b (key x) xs s.0 s.1))

  pub SortedFrom-raise :
      (a b : ℕ) (xs : List A) → SortedFrom a xs → All (λ x. b ≤ key x) xs → SortedFrom b xs
  SortedFrom-raise a b [] s h = tt
  SortedFrom-raise a b (x ∷ xs) s h = (h.0, s.1)

  pub SortedFrom-take : (b n : ℕ) (xs : List A) → SortedFrom b xs → SortedFrom b (take n xs)
  SortedFrom-take b zero xs s = tt
  SortedFrom-take b (suc n) [] s = tt
  SortedFrom-take b (suc n) (x ∷ xs) s = (s.0, SortedFrom-take (key x) n xs s.1)

  pub select_below :
      (b m : ℕ) (xs : List A) → m < b → SortedFrom b xs → select (λ x. leb (key x) m) xs ≡ []
  select_below b m [] h s = refl
  select_below b m (x ∷ xs) h s =
      ground (arith, select_below b m xs, SortedFrom-weaken b (key x) xs s.0 s.1)

  -- A prefix of `n` rows with fewer than `n` keys up to `m` holds every row with a key up to `m`.
  pub select-take :
      (b m n : ℕ) (xs : List A)
      → SortedFrom b xs
      → length (select (λ x. leb (key x) m) (take n xs)) < n
      → select (λ x. leb (key x) m) (take n xs) ≡ select (λ x. leb (key x) m) xs
  select-take b m zero xs s h = absurd (omega arith)
  select-take b m (suc n) [] s h = refl
  select-take b m (suc n) (x ∷ xs) s h = elim (Bool-cases (leb (key x) m)) [
    | inl e ↦ rw e (ap (λ (l : List A). x ∷ l) (select-take (key x) m n xs s.1 (suffices e h)))
    | inr e ↦ rw e (past e)
  ]
    where
      suffices :
          leb (key x) m ≡ true
          → length (select (λ y. leb (key y) m) (take (suc n) (x ∷ xs))) < suc n
          → length (select (λ y. leb (key y) m) (take n xs)) < n
      suffices e k = let k' = rw e at k in omega arith

      past :
          leb (key x) m ≡ false
          → select (λ y. leb (key y) m) (take n xs) ≡ select (λ y. leb (key y) m) xs
      past e = ground (
        arith,
        select_below (key x) m (take n xs),
        select_below (key x) m xs,
        SortedFrom-take (key x) n xs s.1,
      )

  -- The keys up to `m` are those up to `l` and those beyond it.
  pub length-select_split :
      (l m : ℕ) (xs : List A)
      → l ≤ m
      → length (select (λ x. leb (key x) m) xs)
        ≡ length (select (λ x. leb (key x) l) xs)
          + length (select (λ x. leb (key x) m) (select (λ x. ltb l (key x)) xs))
  length-select_split l m [] h = omega arith
  length-select_split l m (x ∷ xs) h = ground (arith, length-select_split l m xs h)

  pub select-select_beyond :
      (l m : ℕ) (xs : List A)
      → l ≤ m
      → select (λ x. ltb m (key x)) (select (λ x. ltb l (key x)) xs)
        ≡ select (λ x. ltb m (key x)) xs
  select-select_beyond l m [] h = refl
  select-select_beyond l m (x ∷ xs) h = ground (arith, select-select_beyond l m xs h)

  -- A sort: what Go's `sort.Slice` and an `ORDER BY` are used for. Rows with equal keys may come in any order.
  pub record Sorter : Type ℓ where
    pub sort : List A → List A
    pub perm : (xs : List A) → Perm (sort xs) xs
    pub sorted : (xs : List A) → IsSorted (sort xs)

  insert : A → List A → List A
  insert x [] = x ∷ []
  insert x (y ∷ ys) = if leb (key x) (key y) then x ∷ y ∷ ys else y ∷ insert x ys

  pub insertion_sort : List A → List A
  unfolding insert
  insertion_sort [] = []
  insertion_sort (x ∷ xs) = insert x (insertion_sort xs)

  insert-perm : (x : A) (ys : List A) → Perm (insert x ys) (x ∷ ys)
  unfolding insert
  insert-perm x [] = Perm.refl _
  insert-perm x (y ∷ ys) = elim (Bool-cases (leb (key x) (key y))) [
    | inl e ↦ rw e (Perm.refl _)
    | inr e ↦ rw e (Perm.trans (Perm.cons y (insert-perm x ys)) (Perm.swap x y ys))
  ]

  insert-SortedFrom :
      (b : ℕ) (x : A) (ys : List A) → b ≤ key x → SortedFrom b ys → SortedFrom b (insert x ys)
  unfolding insert
  insert-SortedFrom b x [] h s = (h, tt)
  insert-SortedFrom b x (y ∷ ys) h s = elim (Bool-cases (leb (key x) (key y))) [
    | inl e ↦ rw e (h, (leb→le _ _ e, s.1))
    | inr e ↦ rw e (s.0, insert-SortedFrom (key y) x ys (ground arith) s.1)
  ]

  pub insertion_sort-perm : (xs : List A) → Perm (insertion_sort xs) xs
  unfolding insertion_sort
  insertion_sort-perm [] = Perm.refl []
  insertion_sort-perm (x ∷ xs) =
      Perm.trans (insert-perm x (insertion_sort xs)) (Perm.cons x (insertion_sort-perm xs))

  pub insertion_sort-IsSorted : (xs : List A) → IsSorted (insertion_sort xs)
  unfolding insertion_sort
  insertion_sort-IsSorted [] = tt
  insertion_sort-IsSorted (x ∷ xs) =
      insert-SortedFrom 0 x (insertion_sort xs) (omega arith) (insertion_sort-IsSorted xs)

  -- A concrete sort, at which the tests run.
  unfoldable pub insertion : Sorter
  unfolding insertion_sort
  insertion = record {
    sort = insertion_sort;
    perm = insertion_sort-perm;
    sorted = insertion_sort-IsSorted;
  }
