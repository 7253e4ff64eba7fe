-- ===== src/Push/Items/Fresh.antt =====
-- The rows of the table `items` that an update of server/internal/storage/items.go leaves above the
-- change counter that the household had before.
use household_objects_srv.Prelude.{
  ℕ, ◌+◌, String, str_eq, eq_iff, ◌≡◌, refl, sym, ap, ◌∙◌, Bool, true, false, ◌&&◌, List, [], ◌∷◌,
  map, ltb, arith, inl, inr, none, some, Bool-cases, ok, find?, find?-true, select, length, All,
  eq-nil_of_length,
}
use household_objects_srv.Push.Types.{ItemRow, Store}
use household_objects_srv.Push.Storage.{null_string}
use household_objects_srv.Push.Items.{
  UpdateItemParams, get_item, item_is, item_version_is, updated_item, update_item,
}
use household_objects_srv.Push.Items.Effects.{rewritten, matched, update_item-Updated}
use household_objects_srv.Push.Items.Sequence.{counter, Below, Sequenced, alloc_change_seq-counter}

-- A row of the household above a sequence number.
abbrev pub fresh : String → ℕ → ItemRow → Bool
fresh group n r = str_eq r.group_id group && ltb n r.change_seq

abbrev asked : String → UpdateItemParams → ItemRow → Bool
asked group p r = item_version_is group p.item_id p.expected_version r

stale-fresh : (group : String) (n : ℕ) (r : ItemRow) → Below group n r → fresh group n r ≡ false
stale-fresh group n r below = elim (Bool-cases (str_eq r.group_id group)) [
  | inl mine ↦ let bound = below (ground (arith, eq_iff r.group_id group)) in ground arith
  | inr other ↦ ground arith
]

select-rewritten :
    (group : String) (p : UpdateItemParams) (n : ℕ) (rows : List ItemRow)
    → All (Below group n) rows
    → select (fresh group n) (rewritten group p (n + 1) rows)
      ≡ map (updated_item p (n + 1)) (select (asked group p) rows)
select-rewritten group p n [] below = refl
select-rewritten group p n (r ∷ rows) (h, hs) =
    let rest = select-rewritten group p n rows hs in
    elim (Bool-cases (asked group p r)) [
      | inl e ↦
          let new : fresh group n (updated_item p (n + 1) r) ≡ true = ground arith in
          rw (e, new) (ap (λ (l : List ItemRow). updated_item p (n + 1) r ∷ l) rest)
      | inr e ↦ rw (e, stale-fresh group n r h) rest
    ]

-- The one row that an UPDATE asks for is the one that GetItem has found.
select-asked :
    (group : String) (p : UpdateItemParams) (rows : List ItemRow) (r : ItemRow)
    → find? (item_is group p.item_id) rows ≡ some r
    → r.version ≡ p.expected_version
    → matched group p rows ≡ 1
    → select (asked group p) rows ≡ r ∷ []
select-asked group p [] r found expected one = absurd (ground arith)
select-asked group p (x ∷ rows) r found expected one =
    elim (Bool-cases (item_is group p.item_id x)) [
      | inl e ↦
          let same : x ≡ r = ground (arith, rw e at found) in
          let hit : asked group p x ≡ true = ground (arith, ap (λ (r : ItemRow). r.version) same) in
          let none_left : length (select (asked group p) rows) ≡ 0 = omega (arith, rw hit at one) in
          rw (hit, eq-nil_of_length _ none_left, same) refl
      | inr e ↦
          let miss : asked group p x ≡ false = ground arith in
          rw miss (select-asked group p rows r (rw e at found) expected (rw miss at one))
    ]

get_item-found :
    (s : Store) (group id : String) (r : ItemRow)
    → get_item s group id ≡ some r
    → find? (item_is group id) s.items ≡ some r
unfolding get_item
get_item-found s group id r h = h

pub update_item-fresh :
    (s : Store) (group : String) (p : UpdateItemParams) (r : ItemRow) (s' : Store)
    → Sequenced s group
    → update_item s group p ≡ ok (r, s')
    → select (fresh group (counter s group)) s'.items ≡ r ∷ []
update_item-fresh s group p r s' sequenced h =
    let done = update_item-Updated s group p r s' h in
    let (count, next, same) =
      alloc_change_seq-counter s group done.seq done.numbered done.allocated in
    let found = get_item-found s group p.item_id done.current done.found in
    let one = select-asked group p s.items done.current found done.expected done.one in
    let items : s'.items ≡ rewritten group p (counter s group + 1) s.items =
      done.items ∙ ap (λ n. rewritten group p n s.items) next in
    ap (select (fresh group (counter s group))) items
    ∙ select-rewritten group p (counter s group) s.items sequenced
    ∙ ap (map (updated_item p (counter s group + 1))) one
    ∙ ap (λ n. updated_item p n done.current ∷ []) (sym next)
    ∙ ap (λ (x : ItemRow). x ∷ []) (sym done.row)

-- A live row with the values that an update carries, one version after the one that it expects.
pub record Written (p : UpdateItemParams) (r : ItemRow) : Type 0 where
  pub lives : r.deleted_at ≡ none
  pub id : r.id ≡ p.item_id
  pub name : r.name ≡ p.name
  pub description : r.description ≡ p.description
  pub location : r.location_id ≡ null_string p.location_id
  pub quantity : r.quantity ≡ p.quantity
  pub version : r.version ≡ p.expected_version + 1

pub update_item-Written :
    (s : Store) (group : String) (p : UpdateItemParams) (r : ItemRow) (s' : Store)
    → update_item s group p ≡ ok (r, s')
    → Written p r
update_item-Written s group p r s' h =
    let done = update_item-Updated s group p r s' h in
    let found = get_item-found s' group p.item_id r done.read in
    let is_item = find?-true (item_is group p.item_id) s'.items r found in
    record {
      lives = ground arith;
      id = ground (arith, eq_iff r.id p.item_id);
      name = ap (λ (r : ItemRow). r.name) done.row;
      description = ap (λ (r : ItemRow). r.description) done.row;
      location = ap (λ (r : ItemRow). r.location_id) done.row;
      quantity = ap (λ (r : ItemRow). r.quantity) done.row;
      version = ap (λ (r : ItemRow). r.version) done.row ∙ ap (λ n. n + 1) done.expected;
    }
