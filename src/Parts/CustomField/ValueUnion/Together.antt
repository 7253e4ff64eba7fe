-- ===== src/Parts/CustomField/ValueUnion/Together.antt =====
-- What `pushCustomFieldValueUnionRule` of server/internal/storage/push_commit.go makes of conflicts and
-- fields to apply.
use mathlib.Core.Path.{subst}
use household_objects_srv.Prelude.{
  String, str_eq, eq_iff, ◌≡◌, refl, sym, ap, ◌∙◌, Bool, true, false, ◌&&◌, ◌||◌, not, inl, inr,
  arith, Bool-cases, List, [], ◌∷◌, ◌++◌, select,
}
use household_objects_srv.Push.Types.{Outside}
use household_objects_srv.Push.Storage.{is_some}
use household_objects_srv.Push.Merge.{contains, raw_field}
use household_objects_srv.Push.Merge.Split.{SortsStrings, Perm-contains}
use household_objects_srv.Parts.CustomField.ValueUnion.{
  value_union, present_value, any_of, distinct, value_union_rule,
}

contains-append :
    (xs ys : List String) (name : String)
    → contains (xs ++ ys) name ≡ (contains xs name || contains ys name)
contains-append [] ys name = refl
contains-append (x ∷ xs) ys name = ground (arith, contains-append xs ys name)

contains-select :
    (p : String → Bool) (xs : List String) (name : String)
    → contains (select p xs) name ≡ (p name && contains xs name)
contains-select p [] name = ground arith
contains-select p (x ∷ xs) name = elim (Bool-cases (str_eq x name)) [
  | inl e ↦
      let same : x ≡ name = ground (arith, eq_iff x name) in
      let agree : p x ≡ p name = ap p same in ground (arith, contains-select p xs name, agree, e)
  | inr e ↦ ground (arith, contains-select p xs name, e)
]

contains-distinct :
    (xs : List String) (name : String) → contains (distinct xs) name ≡ contains xs name
unfolding distinct
contains-distinct [] name = refl
contains-distinct (x ∷ xs) name = elim (Bool-cases (contains (distinct xs) x)) [
  | inl e ↦ elim (Bool-cases (str_eq x name)) [
    | inl f ↦
        let same : x ≡ name = ground (arith, eq_iff x name) in
        rw (e, f) (subst (λ n. contains (distinct xs) n ≡ true) same e)
    | inr f ↦ rw (e, f) (contains-distinct xs name)
  ]
  | inr e ↦ rw e (ap (λ b. str_eq x name || b) (contains-distinct xs name))
]

any_of-false :
    (p : String → Bool) (xs : List String) (name : String)
    → any_of p xs ≡ false
    → contains xs name ≡ true
    → p name ≡ false
any_of-false p [] name none h = absurd (ground (arith, h))
any_of-false p (x ∷ xs) name none h = elim (Bool-cases (p x)) [
  | inl e ↦ absurd (ground (arith, rw e at none))
  | inr e ↦ elim (Bool-cases (str_eq x name)) [
    | inl f ↦ let same : x ≡ name = ground (arith, eq_iff x name) in subst (λ n. p n ≡ false) same e
    | inr f ↦ any_of-false p xs name (rw e at none) (rw f at h)
  ]
]

-- What the rule makes of conflicts and fields to apply.
pub record Together (fields : List (String × String)) (before after : List String × List String)
    : Type 0 where
  pub covers :
      (name : String)
      → (contains after.0 name || contains after.1 name)
        ≡ (contains before.0 name || contains before.1 name)
  pub keeps : (name : String) → contains before.0 name ≡ true → contains after.0 name ≡ true
  pub apart : (name : String) → contains after.0 name ≡ true → contains after.1 name ≡ false
  pub together :
      (name other : String)
      → present_value fields name ≡ true
      → present_value fields other ≡ true
      → contains after.0 name ≡ true
      → contains after.1 other ≡ false
  pub others :
      (name : String)
      → present_value fields name ≡ false
      → contains after.1 name ≡ contains before.1 name

module _ (out : Outside) (fields : List (String × String)) (conflict apply : List String)
    (sorts : SortsStrings out) where
  moved : List String
  moved = out.sort_strings (distinct (conflict ++ select (present_value fields) apply))

  contains-moved :
      (name : String)
      → contains moved name
        ≡ (contains conflict name || (present_value fields name && contains apply name))
  unfolding moved
  contains-moved name =
      sym (
        Perm-contains _ _ name (sorts (distinct (conflict ++ select (present_value fields) apply))))
      ∙ contains-distinct (conflict ++ select (present_value fields) apply) name
      ∙ contains-append conflict (select (present_value fields) apply) name
      ∙ ap (λ b. contains conflict name || b) (contains-select (present_value fields) apply name)

  moved-Together :
      ((name : String) → contains conflict name ≡ true → contains apply name ≡ false)
      → Together fields
          (conflict, apply)
          (moved, select (λ name. not (present_value fields name)) apply)
  moved-Together disjoint = record {
    covers = λ name. ground (
      arith,
      contains-moved name,
      contains-select (λ name. not (present_value fields name)) apply name,
    );
    keeps = λ name h. ground (arith, contains-moved name, h);
    apart = λ name h. ground (
      arith,
      contains-moved name,
      h,
      disjoint name,
      contains-select (λ name. not (present_value fields name)) apply name,
    );
    together = λ name other mine yours h.
        ground
          (arith, yours, contains-select (λ name. not (present_value fields name)) apply other);
    others = λ name other.
        ground (arith, other, contains-select (λ name. not (present_value fields name)) apply name);
  }

  kept-Together :
      any_of (λ name. is_some (raw_field fields name) && contains conflict name) value_union ≡ false
      → ((name : String) → contains conflict name ≡ true → contains apply name ≡ false)
      → Together fields (conflict, apply) (conflict, apply)
  kept-Together calm disjoint = record {
    covers = λ name. refl;
    keeps = λ name h. h;
    apart = disjoint;
    together = λ name other mine yours h. absurd (calm_conflict name mine h);
    others = λ name other. refl;
  }
    where
      calm_conflict :
          (name : String) → present_value fields name ≡ true → contains conflict name ≡ true → ⊥
      calm_conflict name mine h =
          let in_union : contains value_union name ≡ true = ground (arith, mine) in
          let refused =
            any_of-false (λ name. is_some (raw_field fields name) && contains conflict name)
              value_union name calm in_union in
          ground (arith, refused, mine, h)

  -- Where no name is both in conflict and to apply, and strings are sorted, the rule keeps every name
  -- and every conflict, and leaves the names apart. If a part of the value that the mutation sends is in
  -- conflict, no part that it sends applies; all other names apply as before.
  pub value_union_rule-Together :
      ((name : String) → contains conflict name ≡ true → contains apply name ≡ false)
      → Together fields (conflict, apply) (value_union_rule out fields (conflict, apply))
  unfolding value_union_rule moved
  value_union_rule-Together disjoint =
      elim (Bool-cases
        (any_of (λ name. is_some (raw_field fields name) && contains conflict name) value_union)) [
          | inl e ↦ rw (e, value_union_rule) (moved-Together disjoint)
          | inr e ↦ rw (e, value_union_rule) (kept-Together e disjoint)
        ]
