-- ===== src/Push/Tests/Pulled.antt =====
-- One client updates an item, and another one pulls it: the theorem about both at a concrete
-- household, and the run of the code.
use household_objects_srv.Prelude.{String, none, List, [], ◌∷◌, insertion, Sorter}
use household_objects_srv.Sync.Types.{EntityType, Row, Candidate}
use household_objects_srv.Sync.Repository.{Database}
use household_objects_srv.Push.Types.{ItemRow}
use household_objects_srv.Push.Items.Pulled.{item_row}
use household_objects_srv.Push.Tests.{edited}

abbrev name_of : ItemRow → String
name_of r = r.name

-- The item after the update, and a location that was changed before it.
abbrev tables : EntityType → List (Row String)
tables EntityType.item = item_row name_of edited ∷ []
tables EntityType.location =
    record { group_id = "g"; id = "l"; change_seq = 2; deleted_at = none; columns = "Shed" } ∷ []
tables _ = []

abbrev database : Database String
database = record {
  rows = tables;
  groups =
      record { id = "g"; change_seq_counter = 6; tombstone_low_watermark = 0; deleted_at = none }
      ∷ [];
}

abbrev rows_in_order : Sorter (λ (r : Row String). r.change_seq)
rows_in_order = insertion _

abbrev in_order : Sorter (λ (c : Candidate String). c.change_seq)
in_order = insertion _
