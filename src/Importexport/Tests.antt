-- ===== src/Importexport/Tests.antt =====
-- Values with separators in them: the theorems about escaping at concrete bytes, and a run.
use household_objects_srv.Prelude.{◌≡◌, refl, List, [], ◌∷◌, ◌≢◌, map, inl}
use household_objects_srv.Importexport.Escape.{
  Bytes, pipe, backslash, escape_sub_value, escape_column_name, escape_bytes, unescape_sub_value,
  split_escaped, join_escaped,
}
use household_objects_srv.Importexport.Escape.RoundTrip.{unescape-escape, split-join_escaped}

-- `a|b` and a backslash
abbrev values : List Bytes
values = (97 ∷ pipe ∷ 98 ∷ []) ∷ (backslash ∷ []) ∷ [] ∷ []

joined :
    join_escaped values pipe ≡ 97 ∷ backslash ∷ pipe ∷ 98 ∷ pipe ∷ backslash ∷ backslash ∷ pipe ∷ []
unfolding join_escaped escape_sub_value escape_bytes
joined = refl

nonempty : join_escaped values pipe ≢ []
nonempty h = cc (joined, h)

split-join_escaped_example :
    map unescape_sub_value (split_escaped (join_escaped values pipe) pipe) ≡ values
split-join_escaped_example = split-join_escaped pipe values (inl refl) nonempty

unescape-escape_example :
    (unescape_sub_value (escape_sub_value (97 ∷ pipe ∷ [])) ≡ 97 ∷ pipe ∷ [])
    × (unescape_sub_value (escape_column_name (97 ∷ pipe ∷ [])) ≡ 97 ∷ pipe ∷ [])
unescape-escape_example = unescape-escape (97 ∷ pipe ∷ [])
