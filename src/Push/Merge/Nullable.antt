-- ===== src/Push/Merge/Nullable.antt =====
-- The decoders and merges of server/internal/storage/push_commit.go for Booleans, and for fields
-- that may be null.
use household_objects_srv.Prelude.{
  ℕ, String, str_eq, Bool, Option, none, some, List, if◌then◌else◌, Result, ok, err, ◌>>=◌,
}
use household_objects_srv.Push.Types.{Outside, PushError, invalid_field_value}
use household_objects_srv.Push.Merge.{raw_field, decoded, or_zero}

-- `pushDecodeBool`; `none` is `present == false`.
unfoldable pub decode_bool :
    Outside → List (String × String) → String → Result PushError (Option Bool)
decode_bool out fields name = elim (raw_field fields name) [
  | none ↦ ok none
  | some raw ↦ decoded name (out.json_bool raw)
]

-- A nil pointer is `none` under the `some` of a field that is present.
abbrev decoded_present : {A : Type 0} → String → Option A → Result PushError (Option (Option A))
decoded_present name none = err (invalid_field_value name)
decoded_present name (some v) = ok (some (some v))

-- What the three decoders of nullable fields share.
unfoldable pub decode_nullable :
    {A : Type 0}
    → (String → Option A)
    → List (String × String)
    → String
    → Result PushError (Option (Option A))
decode_nullable read fields name = elim (raw_field fields name) [
  | none ↦ ok none
  | some raw ↦ if str_eq raw "null" then ok (some none) else decoded_present name (read raw)
]

abbrev pub decode_nullable_string :
    Outside → List (String × String) → String → Result PushError (Option (Option String))
decode_nullable_string out fields name = decode_nullable out.json_string fields name

abbrev pub decode_nullable_float64 :
    Outside → List (String × String) → String → Result PushError (Option (Option ℕ))
decode_nullable_float64 out fields name = decode_nullable out.json_float64 fields name

abbrev pub decode_nullable_bool :
    Outside → List (String × String) → String → Result PushError (Option (Option Bool))
decode_nullable_bool out fields name = decode_nullable out.json_bool fields name

-- The decoded value where the field may be written and is present.
unfoldable pub merged : {A : Type 0} → Bool → Result PushError (Option A) → A → Result PushError A
merged allowed decoded current =
    if allowed then (do v ← decoded; ok (or_zero current v)) else ok current

abbrev pub merge_bool :
    Outside → List (String × String) → String → (String → Bool) → Bool → Result PushError Bool
merge_bool out fields name allow current = merged (allow name) (decode_bool out fields name) current

abbrev pub merge_nullable_string :
    Outside
    → List (String × String)
    → String
    → (String → Bool)
    → Option String
    → Result PushError (Option String)
merge_nullable_string out fields name allow current =
    merged (allow name) (decode_nullable_string out fields name) current

abbrev pub merge_nullable_float64 :
    Outside
    → List (String × String)
    → String
    → (String → Bool)
    → Option ℕ
    → Result PushError (Option ℕ)
merge_nullable_float64 out fields name allow current =
    merged (allow name) (decode_nullable_float64 out fields name) current

abbrev pub merge_nullable_bool :
    Outside
    → List (String × String)
    → String
    → (String → Bool)
    → Option Bool
    → Result PushError (Option Bool)
merge_nullable_bool out fields name allow current =
    merged (allow name) (decode_nullable_bool out fields name) current
