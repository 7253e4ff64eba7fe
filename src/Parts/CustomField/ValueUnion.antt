-- ===== src/Parts/CustomField/ValueUnion.antt =====
-- `pushCustomFieldValueUnionRule` of server/internal/storage/push_commit.go.
pub mod Together
use household_objects_srv.Prelude.{
  String, true, false, Bool, ◌&&◌, not, List, [], ◌∷◌, ◌++◌, if◌then◌else◌, select,
}
use household_objects_srv.Push.Types.{Outside}
use household_objects_srv.Push.Storage.{is_some}
use household_objects_srv.Push.Merge.{contains, raw_field}

-- `pushCustomFieldValueUnion`
abbrev pub value_union : List String
value_union = "field_type" ∷ "text_value" ∷ "number_value" ∷ "bool_value" ∷ "date_value" ∷ []

-- The fields of the mutation that belong to the value of a custom field.
abbrev pub present_value : List (String × String) → String → Bool
present_value fields name = contains value_union name && is_some (raw_field fields name)

abbrev any_of : (String → Bool) → List String → Bool
any_of p [] = false
any_of p (x ∷ xs) = if p x then true else any_of p xs

-- The keys of a map that has these names.
unfoldable pub distinct : List String → List String
distinct [] = []
distinct (x ∷ xs) = let rest = distinct xs in if contains rest x then rest else x ∷ rest

-- The names in conflict and those to apply, after the rule.
unfoldable pub value_union_rule :
    Outside → List (String × String) → List String × List String → List String × List String
unfolding distinct
value_union_rule out fields (conflict, apply) =
    if any_of (λ name. is_some (raw_field fields name) && contains conflict name) value_union
    then (
      out.sort_strings (distinct (conflict ++ select (present_value fields) apply)),
      select (λ name. not (present_value fields name)) apply,
    )
    else (conflict, apply)
