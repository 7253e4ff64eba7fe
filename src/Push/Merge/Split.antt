-- ===== src/Push/Merge/Split.antt =====
-- `pushFieldLevelMergePolicy` of server/internal/storage/push_commit.go: it divides the fields that
-- a mutation sends.
use mathlib.Core.Path.{ap₂}
use mathlib.Core.Logic.{∥∥₁_elim}
use mathlib.Core.Bool.{Bool-set}
use mathlib.Core.List.{Permᴰ}
use household_objects_srv.Prelude.{
  ℕ, String, str_eq, eq_iff, ◌≡◌, refl, sym, ap, ◌∙◌, Bool, true, false, ◌&&◌, ◌||◌, not, List, [],
  ◌∷◌, Perm, arith, if◌then◌else◌, ltb,
}
use household_objects_srv.Push.Types.{FieldVersionRow, Outside}
use household_objects_srv.Push.Storage.{is_some}
use household_objects_srv.Push.Merge.{
  contains, raw_field, keys_of, field_names, field_version, split_fields,
}

-- `sort.Strings` puts its argument in another order.
abbrev pub SortsStrings : Outside → Type 0
SortsStrings out = (xs : List String) → Perm xs (out.sort_strings xs)

or_swap : (a b c : Bool) → (a || (b || c)) ≡ (b || (a || c))
or_swap true true c = refl
or_swap true false c = refl
or_swap false b c = refl

Permᴰ-contains :
    {xs ys : List String} (name : String) → Permᴰ xs ys → contains xs name ≡ contains ys name
Permᴰ-contains name Permᴰ.nil = refl
Permᴰ-contains name (Permᴰ.cons {a = x} e t) =
    ap₂ (λ a b. a || b) (ap (λ x. str_eq x name) e) (Permᴰ-contains name t)
Permᴰ-contains name (Permᴰ.swap {a = x} {b = y} {l = l} e f) =
    rw (← e, ← f) (or_swap (str_eq x name) (str_eq y name) (contains l name))
Permᴰ-contains name (Permᴰ.trans t u) = Permᴰ-contains name t ∙ Permᴰ-contains name u

pub Perm-contains :
    (xs ys : List String) (name : String) → Perm xs ys → contains xs name ≡ contains ys name
Perm-contains xs ys name t = ∥∥₁_elim t (Bool-set _ _) (Permᴰ-contains name)

keys_of-contains :
    (fields : List (String × String)) (name : String)
    → contains (keys_of fields) name ≡ is_some (raw_field fields name)
keys_of-contains [] name = refl
keys_of-contains ((k, v) ∷ fields) name = ground (arith, keys_of-contains fields name)

-- The names that are sent are those of the fields.
pub field_names-contains :
    (out : Outside) (fields : List (String × String)) (name : String)
    → SortsStrings out
    → contains (field_names out fields) name ≡ is_some (raw_field fields name)
field_names-contains out fields name sorts =
    sym (Perm-contains _ _ name (sorts (keys_of fields))) ∙ keys_of-contains fields name

abbrev placed : Bool → String → List String × List String → List String × List String
placed t x (conflict, apply) = if t then (x ∷ conflict, apply) else (conflict, x ∷ apply)

split_step :
    (t u : Bool) (x name : String) (conflict apply names : List String)
    → (str_eq x name ≡ true → t ≡ u)
    → contains conflict name ≡ (contains names name && u)
    → contains apply name ≡ (contains names name && not u)
    → (contains (placed t x (conflict, apply)).0 name ≡ (contains (x ∷ names) name && u))
      × (contains (placed t x (conflict, apply)).1 name ≡ (contains (x ∷ names) name && not u))
split_step true true x name conflict apply names e h k = ground arith
split_step true false x name conflict apply names e h k = ground arith
split_step false true x name conflict apply names e h k = ground arith
split_step false false x name conflict apply names e h k = ground arith

-- A name conflicts when its field has a version above the client's base, and applies otherwise.
pub split_fields-contains :
    (rows : List FieldVersionRow) (base : ℕ) (names : List String) (name : String)
    → (contains (split_fields rows base names).0 name
        ≡ (contains names name && ltb base (field_version rows name)))
      × (contains (split_fields rows base names).1 name
          ≡ (contains names name && not (ltb base (field_version rows name))))
unfolding split_fields
split_fields-contains rows base [] name = (refl, refl)
split_fields-contains rows base (x ∷ names) name =
    let (conflict, apply) = split_fields-contains rows base names name in
    split_step (ltb base (field_version rows x)) (ltb base (field_version rows name)) x name _ _
      names (λ e. ap (λ n. ltb base (field_version rows n)) ((eq_iff x name).0 e)) conflict apply
