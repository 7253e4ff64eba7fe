-- ===== src/Importexport/Escape/RoundTrip.antt =====
-- Escaping and joining, then splitting and unescaping
-- (server/internal/importexport/escape.go).
use mathlib.Core.Path.{ap₂}
use mathlib.Core.List.{append-nil, append_assoc}
use household_objects_srv.Prelude.{
  ℕ, ◌≡◌, ◌≢◌, refl, sym, ap, ◌∙◌, Bool, true, false, List, [], ◌∷◌, ◌++◌, map, arith, ◌⊎◌, inl,
  inr, if◌then◌else◌, Bool-cases, ◌==◌,
}
use household_objects_srv.Importexport.Escape.{
  Bytes, backslash, pipe, colon, escaped_char, header_escaped_char, contains_any, escape_bytes,
  escape_sub_value, escape_column_name, unescape_bytes, unescape_sub_value, split_bytes,
  split_escaped, join, join_escaped,
}

-- A test that the backslash passes.
abbrev Escapes : (ℕ → Bool) → Type 0
Escapes test = (c : ℕ) → test c ≡ false → (c == backslash) ≡ false

escape_bytes-none :
    (test : ℕ → Bool) (s : Bytes) → contains_any test s ≡ false → escape_bytes test s ≡ s
unfolding escape_bytes
escape_bytes-none test [] h = refl
escape_bytes-none test (c ∷ s) h = ground (arith, escape_bytes-none test s)

unescape-escape_bytes :
    (test : ℕ → Bool) (s : Bytes) → Escapes test → unescape_bytes false (escape_bytes test s) ≡ s
unfolding escape_bytes unescape_bytes
unescape-escape_bytes test [] escapes = refl
unescape-escape_bytes test (c ∷ s) escapes = elim (Bool-cases (test c)) [
  | inl e ↦ rw e (ap (λ (s : Bytes). c ∷ s) (unescape-escape_bytes test s escapes))
  | inr e ↦ rw (e, escapes c e) (ap (λ (s : Bytes). c ∷ s) (unescape-escape_bytes test s escapes))
]

unescape_bytes-none :
    (s : Bytes) → contains_any (λ c. c == backslash) s ≡ false → unescape_bytes false s ≡ s
unfolding unescape_bytes
unescape_bytes-none [] h = refl
unescape_bytes-none (c ∷ s) h = ground (arith, unescape_bytes-none s)

-- The fast paths give what the loops give.
escape-loop :
    (test : ℕ → Bool) (s : Bytes)
    → (if contains_any test s then escape_bytes test s else s) ≡ escape_bytes test s
escape-loop test s = elim (Bool-cases (contains_any test s)) [
  | inl e ↦ rw e refl
  | inr e ↦ rw e (sym (escape_bytes-none test s e))
]

unescape-loop : (s : Bytes) → unescape_sub_value s ≡ unescape_bytes false s
unfolding unescape_sub_value
unescape-loop s = elim (Bool-cases (contains_any (λ c. c == backslash) s)) [
  | inl e ↦ rw e refl
  | inr e ↦ rw e (sym (unescape_bytes-none s e))
]

-- Unescaping gives back any value that was escaped, as a value or as the name of a column.
pub unescape-escape :
    (s : Bytes)
    → (unescape_sub_value (escape_sub_value s) ≡ s)
      × (unescape_sub_value (escape_column_name s) ≡ s)
unfolding escape_sub_value escape_column_name
unescape-escape s = (
  unescape-loop _
      ∙ ap (unescape_bytes false) (escape-loop escaped_char s)
      ∙ unescape-escape_bytes escaped_char s (λ c h. ground arith),
  unescape-loop _
      ∙ ap (unescape_bytes false) (escape-loop header_escaped_char s)
      ∙ unescape-escape_bytes header_escaped_char s (λ c h. ground arith),
)

-- An escaped value is passed over whole.
split-escape_bytes :
    (sep : ℕ) (piece v rest : Bytes)
    → escaped_char sep ≡ true
    → split_bytes sep false piece (escape_bytes escaped_char v ++ rest)
      ≡ split_bytes sep false (piece ++ escape_bytes escaped_char v) rest
unfolding escape_bytes split_bytes
split-escape_bytes sep piece [] rest h =
    ap (λ (p : Bytes). split_bytes sep false p rest) (sym (append-nil piece))
split-escape_bytes sep piece (c ∷ v) rest h = elim (Bool-cases (escaped_char c)) [
  | inl e ↦
      let piece' = (piece ++ backslash ∷ []) ++ c ∷ [] in
      rw e (
        split-escape_bytes sep piece' v rest h
        ∙ ap (λ (p : Bytes). split_bytes sep false p rest)
            (append_assoc (piece ++ backslash ∷ []) (c ∷ []) _
              ∙ append_assoc piece (backslash ∷ []) _))
  | inr e ↦
      let plain : (c == backslash) ≡ false = ground arith in
      let no_sep : (c == sep) ≡ false = ground arith in
      rw (e, plain, no_sep)
        (split-escape_bytes sep (piece ++ c ∷ []) v rest h
          ∙ ap (λ (p : Bytes). split_bytes sep false p rest) (append_assoc piece (c ∷ []) _))
]

at_sep :
    (sep : ℕ) (piece rest : Bytes)
    → (sep == backslash) ≡ false
    → split_bytes sep false piece (sep ∷ rest) ≡ piece ∷ split_bytes sep false [] rest
unfolding split_bytes
at_sep sep piece rest k = let here : (sep == sep) ≡ true = ground arith in rw (k, here) refl

split-join :
    (sep : ℕ) (v : Bytes) (vs : List Bytes)
    → escaped_char sep ≡ true
    → (sep == backslash) ≡ false
    → split_bytes sep false [] (join (map (escape_bytes escaped_char) (v ∷ vs)) sep)
      ≡ map (escape_bytes escaped_char) (v ∷ vs)
unfolding split_bytes
split-join sep v [] h k =
    ap (split_bytes sep false []) (sym (append-nil (escape_bytes escaped_char v)))
    ∙ split-escape_bytes sep [] v [] h
split-join sep v (w ∷ vs) h k =
    split-escape_bytes sep [] v (sep ∷ join (map (escape_bytes escaped_char) (w ∷ vs)) sep) h
    ∙ at_sep sep (escape_bytes escaped_char v) (join (map (escape_bytes escaped_char) (w ∷ vs)) sep)
        k
    ∙ ap (λ (l : List Bytes). escape_bytes escaped_char v ∷ l) (split-join sep w vs h k)

map-escape : (vs : List Bytes) → map escape_sub_value vs ≡ map (escape_bytes escaped_char) vs
unfolding escape_sub_value
map-escape [] = refl
map-escape (v ∷ vs) =
    ap₂ (λ (v : Bytes) (vs : List Bytes). v ∷ vs) (escape-loop escaped_char v) (map-escape vs)

map-unescape : (vs : List Bytes) → map unescape_sub_value (map (escape_bytes escaped_char) vs) ≡ vs
map-unescape [] = refl
map-unescape (v ∷ vs) =
    ap₂ (λ (v : Bytes) (vs : List Bytes). v ∷ vs)
      (unescape-loop _ ∙ unescape-escape_bytes escaped_char v (λ c h. ground arith))
      (map-unescape vs)

split_escaped-bytes :
    (s : Bytes) (sep : ℕ) → s ≢ [] → split_escaped s sep ≡ split_bytes sep false [] s
unfolding split_escaped
split_escaped-bytes [] sep h = absurd (h refl)
split_escaped-bytes (c ∷ s) sep h = refl

-- With `|` or `:` for a separator, any values whose joined text is not empty are what splitting that
-- text and unescaping its pieces gives back, in order.
pub split-join_escaped :
    (sep : ℕ) (values : List Bytes)
    → (sep ≡ pipe) ⊎ (sep ≡ colon)
    → join_escaped values sep ≢ []
    → map unescape_sub_value (split_escaped (join_escaped values sep) sep) ≡ values
unfolding join_escaped
split-join_escaped sep [] known h = absurd (h refl)
split-join_escaped sep (v ∷ vs) known h =
    let special : escaped_char sep ≡ true = ground arith in
    let other : (sep == backslash) ≡ false = ground arith in
    ap (map unescape_sub_value) (split_escaped-bytes _ sep h)
    ∙ ap (λ (l : List Bytes). map unescape_sub_value (split_bytes sep false [] (join l sep)))
        (map-escape (v ∷ vs))
    ∙ ap (map unescape_sub_value) (split-join sep v vs special other)
    ∙ map-unescape (v ∷ vs)
