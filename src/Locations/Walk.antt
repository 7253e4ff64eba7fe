-- ===== src/Locations/Walk.antt =====
-- The number of steps of the walk in `locationMoveCreatesCycle` of server/internal/storage/locations.go,
-- against the number of edges.
use mathlib.Core.Path.{subst}
use household_objects_srv.Prelude.{
  ℕ, zero, suc, ◌+◌, ◌≤◌, ◌<◌, String, str_eq, eq_iff, ◌≡◌, refl, ap, Bool, true, false, not,
  Option, some, List, [], ◌∷◌, inl, inr, arith, Bool-cases, Option-cases, ok, length, length-map,
  map, select, All,
}
use household_objects_srv.Push.Types.{LocationRow}
use household_objects_srv.Push.Merge.{contains}
use household_objects_srv.Locations.{parent_of, walk}
use household_objects_srv.Locations.Rooted.{Level, Level-unique, walk-Level}

abbrev without : String → List String → List String
without x ys = select (λ y. not (str_eq y x)) ys

abbrev Apart : List String → Type 0
Apart [] = Unit
Apart (x ∷ xs) = (contains xs x ≡ false) × Apart xs

length-without-le : (x : String) (ys : List String) → length (without x ys) ≤ length ys
length-without-le x [] = omega arith
length-without-le x (y ∷ ys) = ground (arith, length-without-le x ys)

length-without :
    (x : String) (ys : List String) → contains ys x ≡ true → length (without x ys) < length ys
length-without x [] h = cc
length-without x (y ∷ ys) h = ground (arith, length-without x ys, length-without-le x ys)

contains-without :
    (x z : String) (ys : List String)
    → str_eq z x ≡ false
    → contains ys z ≡ true
    → contains (without x ys) z ≡ true
contains-without x z [] h k = cc
contains-without x z (y ∷ ys) h k =
    ground (arith, contains-without x z ys h, eq_iff y z, eq_iff y x, eq_iff z x)

All-without :
    (x : String) (xs ys : List String)
    → contains xs x ≡ false
    → All (λ (z : String). contains ys z ≡ true) xs
    → All (λ (z : String). contains (without x ys) z ≡ true) xs
All-without x [] ys h k = tt
All-without x (z ∷ xs) ys h (k, ks) =
    (contains-without x z ys (ground arith) k, All-without x xs ys (ground arith) ks)

-- As many different names as there are places.
pigeonhole :
    (xs ys : List String)
    → Apart xs
    → All (λ (z : String). contains ys z ≡ true) xs
    → length xs ≤ length ys
pigeonhole [] ys h k = omega arith
pigeonhole (x ∷ xs) ys (h, hs) (k, ks) =
    let shorter = length-without x ys k in
    let rest = pigeonhole xs (without x ys) hs (All-without x xs ys h ks) in omega arith

-- The locations on the way to the root that have a parent.
trail : (parent : String → Option String) (n : ℕ) (id : String) → Level parent n id → List String
trail parent zero id root = []
trail parent (suc n) id (next, e, level) = id ∷ trail parent n next level

length-trail :
    (parent : String → Option String) (n : ℕ) (id : String) (level : Level parent n id)
    → length (trail parent n id level) ≡ n
unfolding trail
length-trail parent zero id root = refl
length-trail parent (suc n) id (next, e, level) = ap suc (length-trail parent n next level)

trail-Level :
    (parent : String → Option String) (n : ℕ) (id : String) (level : Level parent n id) (x : String)
    → contains (trail parent n id level) x ≡ true
    → (m : ℕ) × (m ≤ n) × Level parent m x
unfolding trail
trail-Level parent zero id root x h = cc
trail-Level parent (suc n) id (next, e, level) x h = elim (Bool-cases (str_eq id x)) [
  | inl t ↦ (suc n, omega arith, subst (Level parent (suc n)) ((eq_iff id x).0 t) (next, e, level))
  | inr t ↦
      let (m, le, found) = trail-Level parent n next level x (rw t at h) in (m, omega arith, found)
]

trail-Apart :
    (parent : String → Option String) (n : ℕ) (id : String) (level : Level parent n id)
    → Apart (trail parent n id level)
unfolding trail
trail-Apart parent zero id root = tt
trail-Apart parent (suc n) id (next, e, level) = (
  elim (Bool-cases (contains (trail parent n next level) id)) [
    | inl h ↦
        let (m, le, again) = trail-Level parent n next level id h in
        let same = Level-unique parent m (suc n) id again (next, e, level) in absurd (omega arith)
    | inr h ↦ h
  ],
  trail-Apart parent n next level,
)

abbrev pub ids_of : List LocationRow → List String
ids_of rows = map (λ (r : LocationRow). r.id) rows

parent_of-contains :
    (rows : List LocationRow) (id next : String)
    → parent_of rows id ≡ some next
    → contains (ids_of rows) id ≡ true
unfolding parent_of
parent_of-contains [] id next h = cc
parent_of-contains (r ∷ rows) id next h = elim (Option-cases (parent_of rows id)) [
  | inl e ↦ ground (arith, rw (e, parent_of) at h)
  | inr (p, e) ↦ ground (arith, parent_of-contains rows id p e)
]

trail-contains :
    (rows : List LocationRow) (n : ℕ) (id : String) (level : Level (parent_of rows) n id)
    → All (λ (z : String). contains (ids_of rows) z ≡ true) (trail (parent_of rows) n id level)
unfolding trail
trail-contains rows zero id root = tt
trail-contains rows (suc n) id (next, e, level) =
    (parent_of-contains rows id next e, trail-contains rows n next level)

-- No root is further away than there are edges, so that the walk of the source comes to an answer.
pub walk-ends :
    (rows : List LocationRow) (moving current : String) (n : ℕ)
    → Level (parent_of rows) n current
    → (b : Bool) × (walk (parent_of rows) moving (length rows + 1) current ≡ ok b)
walk-ends rows moving current n level =
    let way = trail (parent_of rows) n current level in
    let short =
      pigeonhole (trail (parent_of rows) n current level) (ids_of rows)
        (trail-Apart (parent_of rows) n current level) (trail-contains rows n current level) in
    walk-Level (parent_of rows) moving n (length rows + 1) current level (
      omega (
        arith,
        length-trail (parent_of rows) n current level,
        length-map (λ (r : LocationRow). r.id) rows,
      ))
