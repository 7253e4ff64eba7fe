-- ===== src/Importexport/Escape.antt =====
-- server/internal/importexport/escape.go, on the bytes of a string as numbers.
pub mod RoundTrip
use household_objects_srv.Prelude.{
  ℕ, Bool, true, false, ◌||◌, List, [], ◌∷◌, ◌++◌, map, if◌then◌else◌, ◌==◌,
}

abbrev pub Bytes : Type 0
Bytes = List ℕ

abbrev pub backslash : ℕ
backslash = 92

abbrev pub pipe : ℕ
pipe = 124

abbrev pub colon : ℕ
colon = 58

abbrev hash : ℕ
hash = 35

-- `escapedChars` and `headerEscapedChars`
abbrev pub escaped_char : ℕ → Bool
escaped_char c = c == backslash || (c == pipe || c == colon)

abbrev pub header_escaped_char : ℕ → Bool
header_escaped_char c = escaped_char c || c == hash

-- `strings.ContainsAny`, for the bytes that pass the test
abbrev pub contains_any : (ℕ → Bool) → Bytes → Bool
contains_any test [] = false
contains_any test (c ∷ s) = test c || contains_any test s

-- The loop of `EscapeSubValue` and `escapeColumnName`.
unfoldable pub escape_bytes : (ℕ → Bool) → Bytes → Bytes
escape_bytes test [] = []
escape_bytes test (c ∷ s) =
    if test c then backslash ∷ c ∷ escape_bytes test s else c ∷ escape_bytes test s

unfoldable pub escape_sub_value : Bytes → Bytes
escape_sub_value s = if contains_any escaped_char s then escape_bytes escaped_char s else s

pub escape_column_name : Bytes → Bytes
escape_column_name s =
    if contains_any header_escaped_char s then escape_bytes header_escaped_char s else s

-- The loop of `UnescapeSubValue`; the Boolean is `escaped`, and a last backslash stays.
unescape_bytes : Bool → Bytes → Bytes
unescape_bytes true [] = backslash ∷ []
unescape_bytes false [] = []
unescape_bytes true (c ∷ s) = c ∷ unescape_bytes false s
unescape_bytes false (c ∷ s) =
    if c == backslash then unescape_bytes true s else c ∷ unescape_bytes false s

pub unescape_sub_value : Bytes → Bytes
unescape_sub_value s = if contains_any (λ c. c == backslash) s then unescape_bytes false s else s

-- The loop of `SplitEscaped`: `piece` is the text from `start` on.
split_bytes : ℕ → Bool → Bytes → Bytes → List Bytes
split_bytes sep escaped piece [] = piece ∷ []
split_bytes sep true piece (c ∷ s) = split_bytes sep false (piece ++ c ∷ []) s
split_bytes sep false piece (c ∷ s) =
    if c == backslash
    then split_bytes sep true (piece ++ c ∷ []) s
    else if c == sep
    then piece ∷ split_bytes sep false [] s
    else split_bytes sep false (piece ++ c ∷ []) s

pub split_escaped : Bytes → ℕ → List Bytes
split_escaped [] sep = []
split_escaped (c ∷ s) sep = split_bytes sep false [] (c ∷ s)

-- `strings.Join` with a separator of one byte
abbrev pub join : List Bytes → ℕ → Bytes
join [] sep = []
join (v ∷ []) sep = v
join (v ∷ w ∷ vs) sep = v ++ sep ∷ join (w ∷ vs) sep

unfoldable pub join_escaped : List Bytes → ℕ → Bytes
unfolding escape_sub_value
join_escaped values sep = join (map escape_sub_value values) sep
