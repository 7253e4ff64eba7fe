-- ===== src/Parts/Tests/Removal.antt =====
-- An item with a warranty is deleted.
use household_objects_srv.Prelude.{◌≡◌, refl, none, some, [], ◌∷◌, ok}
use household_objects_srv.Push.Types.{Store}
use household_objects_srv.Push.Storage.{alloc_change_seq}
use household_objects_srv.Items.{cascade, delete}
use household_objects_srv.Items.Removal.{Removed, delete-Removed}
use household_objects_srv.Parts.Tests.{drill, acme_row, covered}

abbrev emptied : Store
emptied = record covered {
  groups = record { id = "g"; change_seq_counter = 3; deleted_at = none } ∷ [];
  items = record drill { deleted_at = some 40; updated_at = 40; version = 2; change_seq = 3 } ∷ [];
  warranties =
      record acme_row { deleted_at = some 40; updated_at = 40; version = 2; change_seq = 3 } ∷ [];
}

deletes : delete covered "g" "i" 40 ≡ ok emptied
unfolding delete cascade alloc_change_seq
deletes = refl

delete-Removed_example : Removed "g" "i" covered emptied
delete-Removed_example = delete-Removed covered "g" "i" 40 emptied deletes
