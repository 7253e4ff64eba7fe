-- ===== src/Locations/Descent.antt =====
-- `Descendants` of server/internal/storage/locations.go: a search from a location over the edges of
-- its household, breadth first.
use household_objects_srv.Prelude.{
  ℕ, zero, suc, ◌+◌, ◌≤◌, String, str_eq, str_eq-swap, eq_iff, ◌≡◌, refl, sym, ap, ◌∙◌, Bool, true,
  false, not, Option, none, some, List, [], ◌∷◌, ◌++◌, inl, inr, arith, if◌then◌else◌, Bool-cases,
  Result, ok, err, length, length-append, length-select-le, select,
}
use household_objects_srv.Push.Types.{LocationRow, Store, PushError, endless_walk, invalid_params}
use household_objects_srv.Push.Storage.{is_some}
use household_objects_srv.Push.Merge.{contains}
use household_objects_srv.Locations.{edges}
use household_objects_srv.Locations.Removal.{refers}
use household_objects_srv.Locations.Walk.{ids_of}

-- The map `live`: a later row of the query overwrites an earlier one.
unfoldable pub live_entry : List LocationRow → String → Option Bool
live_entry [] id = none
live_entry (r ∷ rows) id = elim (live_entry rows id) [
  | some b ↦ some b
  | none ↦ if str_eq r.id id then some (not (is_some r.deleted_at)) else none
]

abbrev holds : Option Bool → Bool
holds none = false
holds (some b) = b

-- `live[id]`, with false for a missing key.
abbrev pub is_live : List LocationRow → String → Bool
is_live rows id = holds (live_entry rows id)

-- `children[id]`
abbrev pub children : List LocationRow → String → List String
children rows id = ids_of (select (λ (r : LocationRow). refers r.parent_id id) rows)

-- The location goes before what is found after it, if it is live.
unfoldable pub list_live : List LocationRow → String → Option (List String) → Option (List String)
list_live rows current none = none
list_live rows current (some out) = some (if is_live rows current then current ∷ out else out)

-- The loop over the queue, with the locations it has seen.
unfoldable pub descend : List LocationRow → ℕ → List String → List String → Option (List String)
unfolding list_live
descend rows fuel visited [] = some []
descend rows zero visited (current ∷ queue) = none
descend rows (suc fuel) visited (current ∷ queue) =
    let seen = contains visited current in
    let rest =
      descend rows fuel (if seen then visited else current ∷ visited)
        (if seen then queue else queue ++ children rows current) in
    if seen then rest else list_live rows current rest

unfoldable pub found_all : Option (List String) → Result PushError (List String)
found_all none = err endless_walk
found_all (some out) = ok out

-- `Descendants`. The source's loop has no bound of its own.
unfoldable pub descendants : Store → String → String → Result PushError (List String)
unfolding descend
descendants s group id =
    if str_eq id ""
    then err invalid_params
    else found_all (descend (edges s group) (length (edges s group) + 1) [] (id ∷ []))

-- The parent of the row has not been seen.
abbrev is_open : List String → LocationRow → Bool
is_open visited r = elim r.parent_id [ none ↦ false | some p ↦ not (contains visited p) ]

module _ (visited : List String) (current : String) (fresh : contains visited current ≡ false) where
  open_row :
      (n m k : ℕ) (o : Option String)
      → n + k ≡ m
      → (if elim o [ none ↦ false | some p ↦ not (contains (current ∷ visited) p) ]
            then suc n
            else n)
          + (if refers o current then suc k else k)
        ≡ (if elim o [ none ↦ false | some p ↦ not (contains visited p) ] then suc m else m)
  open_row n m k none e = ground arith
  open_row n m k (some p) e = elim (Bool-cases (str_eq p current)) [
    | inl h ↦
        let unseen : contains visited p ≡ false =
          (ap (contains visited) ((eq_iff p current).0 h) ∙ fresh) in
        let same : str_eq current p ≡ true = (eq_iff current p).1 (sym ((eq_iff p current).0 h)) in
        ground (arith, unseen, same)
    | inr h ↦ ground (arith, str_eq-swap p current h)
  ]

  -- A location that is visited closes the edges of its children.
  closes :
      (rows : List LocationRow)
      → length (select (is_open (current ∷ visited)) rows) + length (children rows current)
        ≡ length (select (is_open visited) rows)
  closes [] = refl
  closes (r ∷ rows) = ground (
    arith,
    closes rows,
    open_row (length (select (is_open (current ∷ visited)) rows))
        (length (select (is_open visited) rows)) (length (children rows current)) r.parent_id
        (closes rows),
  )

pub descend_seen :
    (rows : List LocationRow) (fuel : ℕ) (visited queue : List String) (current : String)
    → contains visited current ≡ true
    → descend rows (suc fuel) visited (current ∷ queue) ≡ descend rows fuel visited queue
unfolding descend
descend_seen rows fuel visited queue current h = rw h refl

pub descend_fresh :
    (rows : List LocationRow) (fuel : ℕ) (visited queue : List String) (current : String)
    → contains visited current ≡ false
    → descend rows (suc fuel) visited (current ∷ queue)
      ≡ list_live rows current
          (descend rows fuel (current ∷ visited) (queue ++ children rows current))
unfolding descend
descend_fresh rows fuel visited queue current h = rw h refl

list_live-some :
    (rows : List LocationRow) (current : String) (o : Option (List String)) (out : List String)
    → o ≡ some out
    → (out' : List String) × (list_live rows current o ≡ some out')
unfolding list_live
list_live-some rows current none out e = cc
list_live-some rows current (some x) out e = (if is_live rows current then current ∷ x else x, refl)

-- Every round takes one place of the queue, or closes the edges that it puts there.
descend-ends :
    (rows : List LocationRow) (fuel : ℕ) (visited queue : List String)
    → length queue + length (select (is_open visited) rows) ≤ fuel
    → (out : List String) × (descend rows fuel visited queue ≡ some out)
unfolding descend
descend-ends rows fuel visited [] h = ([], refl)
descend-ends rows zero visited (current ∷ queue) h = absurd (omega arith)
descend-ends rows (suc fuel) visited (current ∷ queue) h =
    elim (Bool-cases (contains visited current)) [
      | inl seen ↦
          let (out, e) = descend-ends rows fuel visited queue (omega arith) in
          (out, descend_seen rows fuel visited queue current seen ∙ e)
      | inr fresh ↦
          let longer = length-append queue (children rows current) in
          let fewer = closes visited current fresh rows in
          let (rest, e) =
            descend-ends rows fuel (current ∷ visited) (queue ++ children rows current)
              (omega arith) in
          let (out, listed) = list_live-some rows current _ rest e in
          (out, descend_fresh rows fuel visited queue current fresh ∙ listed)
    ]

-- The search from one location comes to an end within as many rounds as there are edges, and one more.
pub descend_all-ends :
    (rows : List LocationRow) (id : String)
    → (out : List String) × (descend rows (length rows + 1) [] (id ∷ []) ≡ some out)
descend_all-ends rows id =
    let fewer = length-select-le (is_open []) rows in
    descend-ends rows (length rows + 1) [] (id ∷ []) (omega arith)
