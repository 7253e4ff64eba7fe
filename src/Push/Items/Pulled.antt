-- ===== src/Push/Items/Pulled.antt =====
-- `updateItemTx` of server/internal/storage/items.go and then `Pull` of
-- server/internal/sync/reader.go over the same table: what one client writes, and another one reads.
-- The encoding of an item's columns, which the synchronisation passes on, is the parameter `encode`.
use household_objects_srv.Prelude.{ℕ, ◌≤◌, String, ◌≡◌, ◌≢◌, false, [], ◌∷◌, map, Perm}
use household_objects_srv.Sync.Types.{EntityType, Row, Page}
use household_objects_srv.Sync.Repository.{Database, group_rows}
use household_objects_srv.Sync.Reader.{candidate}
use household_objects_srv.Sync.Reader.Single.{table_after, entry}
use household_objects_srv.Push.Types.{ItemRow, Store}

module _ {D : Type 0} (encode : ItemRow → D) where
  -- A row of the table `items`, as the synchronisation reads it.
  abbrev pub item_row : ItemRow → Row D
  item_row r = record {
    group_id = r.group_id;
    id = r.id;
    change_seq = r.change_seq;
    deleted_at = r.deleted_at;
    columns = encode r;
  }

  -- The database has the items of the store in its table of items, and no row of the household in
  -- another table is above the sequence number.
  pub record Stored (db : Database D) (group : String) (since : ℕ) (s : Store) : Type 0 where
    pub items : db.rows EntityType.item ≡ map item_row s.items
    pub quiet :
        (t : EntityType) → t ≢ EntityType.item → table_after (group_rows db group) since t ≡ []

  -- The page with the item as its only change, and nothing beyond it.
  pub record Delivers (page : Page D) (r : ItemRow) : Type 0 where
    pub changes : Perm page.changes (entry (candidate EntityType.item (item_row r)) ∷ [])
    pub tombstones : page.tombstones ≡ []
    pub has_more : page.has_more ≡ false
    pub reached : r.change_seq ≤ page.next_watermark
