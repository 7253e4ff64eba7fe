-- ===== src/Locations/Searched.antt =====
-- The search of `Descendants` in server/internal/storage/locations.go: what it has seen, and what it lists.
use mathlib.Core.Path.{subst}
use household_objects_srv.Prelude.{
  ℕ, zero, suc, String, str_eq, eq_iff, ◌≡◌, refl, sym, ap, ◌∙◌, Bool, true, false, ◌||◌, Option,
  none, some, List, [], ◌∷◌, ◌++◌, inl, inr, arith, if◌then◌else◌, Bool-cases,
}
use household_objects_srv.Push.Types.{LocationRow}
use household_objects_srv.Push.Merge.{contains}
use household_objects_srv.Locations.Descent.{
  is_live, children, descend, list_live, descend_seen, descend_fresh,
}

contains-append :
    (xs ys : List String) (x : String) → contains (xs ++ ys) x ≡ contains xs x || contains ys x
contains-append [] ys x = refl
contains-append (y ∷ xs) ys x = ground (arith, contains-append xs ys x)

list_live-rest :
    (rows : List LocationRow) (current : String) (o : Option (List String)) (out : List String)
    → list_live rows current o ≡ some out
    → (rest : List String) × (o ≡ some rest)
      × (out ≡ (if is_live rows current then current ∷ rest else rest))
unfolding list_live
list_live-rest rows current none out h = cc
list_live-rest rows current (some rest) out h = (rest, refl, ground arith)

-- What is left of a search that has found so much.
abbrev pub Closing : List LocationRow → List String → List String → Type 0
Closing rows visited queue =
    (p x : String)
    → contains visited p ≡ true
    → contains (children rows p) x ≡ true
    → contains visited x || contains queue x ≡ true

pub record Searched (rows : List LocationRow) (visited queue out : List String) : Type 0 where
  pub all : List String
  pub old : (x : String) → contains visited x ≡ true → contains all x ≡ true
  pub queued : (x : String) → contains queue x ≡ true → contains all x ≡ true
  pub closed :
      (p x : String)
      → contains all p ≡ true
      → contains (children rows p) x ≡ true
      → contains all x ≡ true
  pub listed :
      (x : String)
      → contains all x ≡ true
      → is_live rows x ≡ true
      → contains visited x || contains out x ≡ true

listed_here :
    (b : Bool) (current x : String) (visited out : List String)
    → b ≡ true
    → str_eq current x ≡ true
    → contains visited x || contains (if b then current ∷ out else out) x ≡ true
listed_here b current x visited out h e = ground arith

listed_past :
    (b : Bool) (current x : String) (visited out : List String)
    → contains (current ∷ visited) x || contains out x ≡ true
    → str_eq current x ≡ false
    → contains visited x || contains (if b then current ∷ out else out) x ≡ true
listed_past b current x visited out h e = ground arith

module _ (rows : List LocationRow) (visited queue : List String) (current : String) where
  Closing-seen :
      contains visited current ≡ true
      → Closing rows visited (current ∷ queue)
      → Closing rows visited queue
  Closing-seen seen closing p x h k =
      let both = closing p x h k in
      elim (Bool-cases (str_eq current x)) [
        | inl e ↦
            (let again : contains visited x ≡ true =
                (ap (contains visited) (sym ((eq_iff current x).0 e)) ∙ seen) in
              ground (arith, again))
        | inr e ↦ ground (arith, both)
      ]

  Closing-fresh :
      Closing rows visited (current ∷ queue)
      → Closing rows (current ∷ visited) (queue ++ children rows current)
  Closing-fresh closing p x h k = elim (Bool-cases (str_eq current p)) [
    | inl e ↦
        let mine : contains (children rows current) x ≡ true =
          (ap (λ p. contains (children rows p) x) ((eq_iff current p).0 e) ∙ k) in
        ground (arith, mine, contains-append queue (children rows current) x)
    | inr e ↦
        let both = closing p x (ground arith) k in
        ground (arith, both, contains-append queue (children rows current) x)
  ]

  Searched-seen :
      (out : List String)
      → contains visited current ≡ true
      → Searched rows visited queue out
      → Searched rows visited (current ∷ queue) out
  Searched-seen out seen rest = record {
    all = rest.all;
    old = rest.old;
    queued = λ x h. elim (Bool-cases (str_eq current x)) [
      | inl e ↦
          subst (λ x. contains rest.all x ≡ true) ((eq_iff current x).0 e) (rest.old current seen)
      | inr e ↦ rest.queued x (ground arith)
    ];
    closed = rest.closed;
    listed = rest.listed;
  }

  Searched-fresh :
      (out : List String)
      → Searched rows (current ∷ visited) (queue ++ children rows current) out
      → Searched rows visited
          (current ∷ queue)
          (if is_live rows current then current ∷ out else out)
  Searched-fresh out rest = record {
    all = rest.all;
    old = λ x h. rest.old x (ground arith);
    queued = λ x h. elim (Bool-cases (str_eq current x)) [
      | inl e ↦ rest.old x (ground arith)
      | inr e ↦ rest.queued x (ground (arith, contains-append queue (children rows current) x))
    ];
    closed = rest.closed;
    listed = λ x h live. elim (Bool-cases (str_eq current x)) [
      | inl e ↦
          listed_here (is_live rows current) current x visited out
            (ap (is_live rows) ((eq_iff current x).0 e) ∙ live) e
      | inr e ↦ listed_past (is_live rows current) current x visited out (rest.listed x h live) e
    ];
  }

pub descend-Searched :
    (rows : List LocationRow) (fuel : ℕ) (visited queue out : List String)
    → Closing rows visited queue
    → descend rows fuel visited queue ≡ some out
    → Searched rows visited queue out
unfolding descend
descend-Searched rows fuel visited [] out closing h = record {
  all = visited;
  old = λ x k. k;
  queued = λ x k. cc;
  closed = λ p x k l. ground (arith, closing p x k l);
  listed = λ x k live. ground arith;
}
descend-Searched rows zero visited (current ∷ queue) out closing h = cc
descend-Searched rows (suc fuel) visited (current ∷ queue) out closing h =
    elim (Bool-cases (contains visited current)) [
      | inl seen ↦ Searched-seen rows visited queue current out seen (
          descend-Searched rows fuel visited queue out
            (Closing-seen rows visited queue current seen closing)
            (sym (descend_seen rows fuel visited queue current seen) ∙ h))
      | inr fresh ↦
          let (rest, e, listed) =
            list_live-rest rows current _ out
              (sym (descend_fresh rows fuel visited queue current fresh) ∙ h) in
          subst (Searched rows visited (current ∷ queue)) (sym listed) (
            Searched-fresh rows visited queue current rest (
              descend-Searched rows fuel (current ∷ visited) (queue ++ children rows current) rest
                (Closing-fresh rows visited queue current closing) e))
    ]

live_listed :
    (P : String → Type 0) (rows : List LocationRow) (b : Bool) (current x : String)
    (out : List String)
    → is_live rows current ≡ b
    → P current
    → (contains out x ≡ true → P x × (is_live rows x ≡ true))
    → contains (if b then current ∷ out else out) x ≡ true
    → P x × (is_live rows x ≡ true)
live_listed P rows true current x out live here rest h = elim (Bool-cases (str_eq current x)) [
  | inl e ↦
      (let same = (eq_iff current x).0 e in
        (subst P same here, ap (is_live rows) (sym same) ∙ live))
  | inr e ↦ rest (ground arith)
]
live_listed P rows false current x out live here rest h = rest h

-- What holds of the queue, and passes from a location to its children, holds of what is found.
pub descend_sound :
    (P : String → Type 0) (rows : List LocationRow)
    → ((p x : String) → P p → contains (children rows p) x ≡ true → P x)
    → (fuel : ℕ) (visited queue out : List String) → ((x : String) → contains queue x ≡ true → P x)
    → descend rows fuel visited queue ≡ some out
    → (x : String) → contains out x ≡ true
    → P x × (is_live rows x ≡ true)
unfolding descend
descend_sound P rows step fuel visited [] out start h x k = absurd (ground (arith, h))
descend_sound P rows step zero visited (current ∷ queue) out start h x k = cc
descend_sound P rows step (suc fuel) visited (current ∷ queue) out start h x k =
    elim (Bool-cases (contains visited current)) [
      | inl seen ↦
          descend_sound P rows step fuel visited queue out (λ y l. start y (ground arith))
            (sym (descend_seen rows fuel visited queue current seen) ∙ h) x k
      | inr fresh ↦
          let (rest, e, listed) =
            list_live-rest rows current _ out
              (sym (descend_fresh rows fuel visited queue current fresh) ∙ h) in
          let here : P current = start current (ground (arith, (eq_iff current current).1 refl)) in
          live_listed P rows (is_live rows current) current x rest refl here
            (descend_sound P rows step fuel (current ∷ visited) (queue ++ children rows current)
              rest (λ y l. joined current queue y (λ z m. start z (ground arith)) here l) e x)
            (subst (λ out. contains out x ≡ true) listed k)
    ]
  where
    joined :
        (current : String) (queue : List String) (y : String)
        → ((z : String) → contains queue z ≡ true → P z)
        → P current
        → contains (queue ++ children rows current) y ≡ true
        → P y
    joined current queue y queued here h = elim (Bool-cases (contains queue y)) [
      | inl e ↦ queued y e
      | inr e ↦
          step current y here (ground (arith, contains-append queue (children rows current) y))
    ]
