-- ===== src/Locations/Tests.antt =====
-- A household with a hall and a box in it: the theorems about locations at concrete moves, and runs of
-- the code.
use mathlib.Core.Path.{subst}
use household_objects_srv.Prelude.{
  String, str_eq, ◌≡◌, refl, true, false, Bool-cases, Option, none, some, [], ◌∷◌, inl, inr, arith,
  ok, err,
}
use household_objects_srv.Push.Types.{LocationRow, Store, location_cycle, location_not_empty}
use household_objects_srv.Push.Storage.{alloc_change_seq}
use household_objects_srv.Push.Merge.{contains}
use household_objects_srv.Locations.{
  UpdateLocationParams, DeleteLocationParams, get_location, check_parent, insert_location,
  create_location, edges, parent_of, check_move, write_location, update_location,
  update_location_found, location_move_creates_cycle, refuse_cycle,
}
use household_objects_srv.Locations.Removal.{
  validate_delete, check_empty, check_target, move_contents, bury, delete_location_found,
  delete_location,
}
use household_objects_srv.Locations.Rooted.{at_root, under}
use household_objects_srv.Locations.Walk.{ids_of}
use household_objects_srv.Locations.Tree.{
  Tree, parents, Answers, location_move_creates_cycle-Answers,
}
use household_objects_srv.Locations.Keeps.{update_location-Tree}
use household_objects_srv.Locations.Created.{create_location-Tree}
use household_objects_srv.Locations.Removed.{delete_location-Tree}
use household_objects_srv.Locations.Descent.{live_entry, descend, found_all, descendants}
use household_objects_srv.Locations.Descended.{Finds, descendants-Finds}

abbrev pub place : String → Option String → LocationRow
place id parent = record {
  id = id;
  group_id = "g";
  name = id;
  parent_id = parent;
  created_at = 10;
  updated_at = 10;
  version = 1;
  deleted_at = none;
  change_seq = 1;
}

abbrev pub house : Store
house = record {
  groups = record { id = "g"; change_seq_counter = 1; deleted_at = none } ∷ [];
  locations = place "hall" none ∷ place "box" (some "hall") ∷ [];
  items = [];
  labels = [];
  item_labels = [];
  stock_adjustments = [];
  warranties = [];
  sales = [];
  purchases = [];
  identifications = [];
  custom_fields = [];
  custom_field_defs = [];
  mutations = [];
  field_versions = [];
  conflicts = [];
}

hall-root : parents house "g" "hall" ≡ none
unfolding parent_of
hall-root = refl

hall_known : contains (ids_of (edges house "g")) "hall" ≡ true
hall_known = refl

parents-outside : (id : String) → str_eq "box" id ≡ false → parents house "g" id ≡ none
unfolding parent_of
parents-outside id e = ground arith

parents-box : (id : String) → str_eq "box" id ≡ true → parents house "g" id ≡ some "hall"
unfolding parent_of
parents-box id e = ground arith

pub house-Tree : Tree house "g"
house-Tree = record {
  unique = ((refl, tt), (tt, tt));
  linked = λ id next e. elim (Bool-cases (str_eq "box" id)) [
    | inl h ↦
        (let same : "hall" ≡ next = ground (arith, parents-box id h) in
          subst (λ next. contains (ids_of (edges house "g")) next ≡ true) same hall_known)
    | inr h ↦ absurd (ground (arith, parents-outside id h))
  ];
  rooted = λ id. elim (Bool-cases (str_eq "box" id)) [
    | inl h ↦ under "hall" (parents-box id h) (at_root hall-root)
    | inr h ↦ at_root (parents-outside id h)
  ];
}

location_move_creates_cycle-Answers_example : Answers house "g" "hall" "box"
location_move_creates_cycle-Answers_example =
    location_move_creates_cycle-Answers house "g" "hall" "box" house-Tree

-- The hall cannot be put into the box.
hall_into_box : location_move_creates_cycle house "g" "hall" "box" ≡ ok true
unfolding location_move_creates_cycle parent_of
hall_into_box = refl

abbrev move : UpdateLocationParams
move = record {
  location_id = "box";
  name = "crate";
  parent_id = "";
  expected_version = 1;
  now = 20;
}

abbrev moved_house : Store
moved_house = record house {
  groups = record { id = "g"; change_seq_counter = 2; deleted_at = none } ∷ [];
  locations =
      place "hall" none
      ∷ record (place "box" none) { name = "crate"; updated_at = 20; version = 2; change_seq = 2 }
      ∷ [];
}

moves_out :
    update_location house "g" move
    ≡ ok (
      record (place "box" none) { name = "crate"; updated_at = 20; version = 2; change_seq = 2 },
      moved_house,
    )
unfolding update_location update_location_found check_move get_location alloc_change_seq
    write_location
moves_out = refl

update_location-Tree_example : Tree moved_house "g"
update_location-Tree_example =
    update_location-Tree house "g" move
      (record (place "box" none) { name = "crate"; updated_at = 20; version = 2; change_seq = 2 })
      moved_house house-Tree moves_out

refuses_cycle :
    update_location house "g" (record move { location_id = "hall"; parent_id = "box" })
    ≡ err location_cycle
unfolding update_location update_location_found check_move check_parent refuse_cycle
    location_move_creates_cycle parent_of get_location alloc_change_seq write_location
refuses_cycle = refl

abbrev shelf : LocationRow
shelf = record (place "shelf" (some "box")) { created_at = 20; updated_at = 20; change_seq = 2 }

abbrev larger_house : Store
larger_house = record house {
  groups = record { id = "g"; change_seq_counter = 2; deleted_at = none } ∷ [];
  locations = place "hall" none ∷ place "box" (some "hall") ∷ shelf ∷ [];
}

adds_shelf :
    create_location house "g" (record { id = "shelf"; name = "shelf"; parent_id = "box"; now = 20 })
    ≡ ok (shelf, larger_house)
unfolding create_location check_parent get_location alloc_change_seq insert_location
adds_shelf = refl

create_location-Tree_example : Tree larger_house "g"
create_location-Tree_example =
    create_location-Tree house "g"
      (record { id = "shelf"; name = "shelf"; parent_id = "box"; now = 20 }) shelf larger_house
      house-Tree adds_shelf

-- The hall is cleared away, and the box becomes a root.
abbrev clearing : DeleteLocationParams
clearing = record { location_id = "hall"; reassign = true; reassign_to = ""; now = 20 }

abbrev cleared_house : Store
cleared_house = record house {
  groups = record { id = "g"; change_seq_counter = 2; deleted_at = none } ∷ [];
  locations =
      record (place "hall" none) {
        updated_at = 20;
        version = 2;
        deleted_at = some 20;
        change_seq = 2;
      }
      ∷ record (place "box" none) { updated_at = 20; version = 2; change_seq = 2 }
      ∷ [];
}

clears_hall : delete_location house "g" clearing ≡ ok cleared_house
unfolding delete_location validate_delete delete_location_found check_empty check_target
    get_location alloc_change_seq move_contents bury
clears_hall = refl

delete_location-Tree_example : Tree cleared_house "g"
delete_location-Tree_example =
    delete_location-Tree house "g" clearing cleared_house house-Tree clears_hall

refuses_full :
    delete_location house "g" (record clearing { reassign = false }) ≡ err (location_not_empty 1 0)
unfolding delete_location validate_delete delete_location_found check_empty get_location
    alloc_change_seq
refuses_full = refl

descendants-Finds_example : Finds house "g" "hall"
descendants-Finds_example = descendants-Finds house "g" "hall" house-Tree.unique refl

below_hall : descendants house "g" "hall" ≡ ok ("hall" ∷ "box" ∷ [])
unfolding descendants found_all descend live_entry
below_hall = refl
