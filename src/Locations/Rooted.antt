-- ===== src/Locations/Rooted.antt =====
-- Parent pointers that lead to a root, and what a walk along them finds.
use mathlib.Core.Path.{subst}
use household_objects_srv.Prelude.{
  ℕ, zero, suc, ◌<◌, String, str_eq, ◌≡◌, refl, ap, ◌∙◌, Bool, true, false, Option, none, some, inl,
  inr, arith, Bool-cases, Option-cases, ok,
}
use household_objects_srv.Locations.{walk}

-- The parents of a location end at a root.
pub data Rooted (parent : String → Option String) : String → Type 0 where
  at_root : {id : String} → parent id ≡ none → Rooted parent id
  under :
      {id : String} (next : String) → parent id ≡ some next → Rooted parent next → Rooted parent id

-- The same, and none of the locations on the way, itself included, passes the test.
pub data Avoids (parent : String → Option String) (test : String → Bool) : String → Type 0 where
  off_root : {id : String} → test id ≡ false → parent id ≡ none → Avoids parent test id
  off :
      {id : String} (next : String)
      → test id ≡ false
      → parent id ≡ some next
      → Avoids parent test next
      → Avoids parent test id

-- The parents after some locations, those that pass the test, have got a new one.
pub record Moves (parent parent' : String → Option String) (test : String → Bool)
    (target : Option String) : Type 0 where
  pub moved : (id : String) → test id ≡ true → parent' id ≡ target
  pub others : (id : String) → test id ≡ false → parent' id ≡ parent id

abbrev pub AvoidsTarget : (String → Option String) → (String → Bool) → Option String → Type 0
AvoidsTarget parent test none = Unit
AvoidsTarget parent test (some id) = Avoids parent test id

module _ (parent parent' : String → Option String) (test : String → Bool) where
  Avoids-Rooted :
      (id : String)
      → ((id : String) → test id ≡ false → parent' id ≡ parent id)
      → Avoids parent test id
      → Rooted parent' id
  Avoids-Rooted id others (off_root h e) = at_root (others id h ∙ e)
  Avoids-Rooted id others (off next h e rest) =
      under next (others id h ∙ e) (Avoids-Rooted next others rest)

  -- A move to a target whose parents avoid what is moved leaves every location rooted.
  pub Moves-Rooted :
      (target : Option String) (id : String)
      → Moves parent parent' test target
      → AvoidsTarget parent test target
      → Rooted parent id
      → Rooted parent' id
  Moves-Rooted none id moves free (at_root e) = elim (Bool-cases (test id)) [
    | inl h ↦ at_root (moves.moved id h)
    | inr h ↦ at_root (moves.others id h ∙ e)
  ]
  Moves-Rooted none id moves free (under next e rest) = elim (Bool-cases (test id)) [
    | inl h ↦ at_root (moves.moved id h)
    | inr h ↦ under next (moves.others id h ∙ e) (Moves-Rooted none next moves free rest)
  ]
  Moves-Rooted (some t) id moves free (at_root e) = elim (Bool-cases (test id)) [
    | inl h ↦ under t (moves.moved id h) (Avoids-Rooted t moves.others free)
    | inr h ↦ at_root (moves.others id h ∙ e)
  ]
  Moves-Rooted (some t) id moves free (under next e rest) = elim (Bool-cases (test id)) [
    | inl h ↦ under t (moves.moved id h) (Avoids-Rooted t moves.others free)
    | inr h ↦ under next (moves.others id h ∙ e) (Moves-Rooted (some t) next moves free rest)
  ]

-- A walk that ends without meeting the location avoids it.
pub walk-Avoids :
    (parent : String → Option String) (moving : String) (steps : ℕ) (current : String)
    → walk parent moving steps current ≡ ok false
    → Avoids parent (λ id. str_eq id moving) current
unfolding walk
walk-Avoids parent moving zero current h = cc
walk-Avoids parent moving (suc steps) current h = elim (Bool-cases (str_eq current moving)) [
  | inl e ↦ absurd (ground (arith, rw (e, walk) at h))
  | inr e ↦ elim (Option-cases (parent current)) [
    | inl root ↦ off_root e root
    | inr (next, up) ↦ off next e up (walk-Avoids parent moving steps next (rw (e, up, walk) at h))
  ]
]

-- The root is so many steps away.
abbrev pub Level : (String → Option String) → ℕ → String → Type 0
Level parent zero id = parent id ≡ none
Level parent (suc n) id = (next : String) × (parent id ≡ some next) × Level parent n next

pub Rooted-Level :
    (parent : String → Option String) (id : String) → Rooted parent id → (n : ℕ) × Level parent n id
Rooted-Level parent id (at_root e) = (0, e)
Rooted-Level parent id (under next e rest) =
    let (n, level) = Rooted-Level parent next rest in (suc n, (next, e, level))

pub Level-unique :
    (parent : String → Option String) (n m : ℕ) (id : String)
    → Level parent n id
    → Level parent m id
    → n ≡ m
Level-unique parent zero zero id h k = refl
Level-unique parent zero (suc m) id h (next, e, k) = cc
Level-unique parent (suc n) zero id (next, e, h) k = cc
Level-unique parent (suc n) (suc m) id (next, e, h) (next', e', k) =
    let same : next' ≡ next = ground (arith, e, e') in
    ap suc (Level-unique parent n m next h (subst (Level parent m) same k))

-- A walk with more steps than the root is away comes to an answer.
pub walk-Level :
    (parent : String → Option String) (moving : String) (n steps : ℕ) (current : String)
    → Level parent n current
    → n < steps
    → (b : Bool) × (walk parent moving steps current ≡ ok b)
unfolding walk
walk-Level parent moving n zero current level h = absurd (omega arith)
walk-Level parent moving zero (suc steps) current root h =
    elim (Bool-cases (str_eq current moving)) [
      | inl e ↦ (true, rw (e, walk) refl)
      | inr e ↦ (false, rw (e, root, walk) refl)
    ]
walk-Level parent moving (suc n) (suc steps) current (next, up, level) h =
    elim (Bool-cases (str_eq current moving)) [
      | inl e ↦ (true, rw (e, walk) refl)
      | inr e ↦
          let (b, found) = walk-Level parent moving n steps next level (omega arith) in
          (b, rw (e, up, walk) found)
    ]
