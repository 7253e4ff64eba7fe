-- ===== src/Sync/Reader/Tests.antt =====
-- Two households in one database: the theorems about pulls at concrete rows, and runs of the code.
use household_objects_srv.Prelude.{
  ℕ, ◌≤◌, ◌<◌, ◌-◌, ◌+◌, String, ◌≡◌, ◌≢◌, refl, ◌⊎◌, pos, negsuc, true, false, Option, none, some,
  List, [], ◌∷◌, arith, ok, err, length, select, insertion, Sorter,
}
use household_objects_srv.Sync.Types.{
  EntityType, Row, Candidate, Page, invalid_limit, invalid_since, SyncRepository,
}
use household_objects_srv.Sync.Repository.{
  Database, group_rows, sync_repository, sync_repository-Serves,
}
use household_objects_srv.Sync.Repository.{low_watermark, set_low_watermark, live_group}
use household_objects_srv.Sync.Repository.Watermark.{set_low_watermark-reads}
use household_objects_srv.Sync.Horizon.{pull_or_too_old, pull_or_too_old-splits, no_page}
use household_objects_srv.Sync.Reader.{
  pull, pull_guarded, pull_checked, pull_fetched, pull_groups, fill_page, build_page, fetch_since,
  fetch_since_from, fetch_at_seq, fetch_at_seq_from, probe_has_more, probe_has_more_from, sources,
  source, group_by_change_seq, extend, fetch_limit,
}
use household_objects_srv.Sync.Reader.Drain.{pull_all, CoversAll, pull_all_complete}
use household_objects_srv.Sync.Reader.Window.{Covers, rows_between}
use household_objects_srv.Sync.Reader.Complete.{pull_complete}

abbrev row : String → String → ℕ → Option ℕ → Row ℕ
row group id seq at = record {
  group_id = group;
  id = id;
  change_seq = seq;
  deleted_at = at;
  columns = 0;
}

-- Items 1 to 3 and a location of household "g", changed at 1, 2, 5 and 2; one row of household "h".
abbrev rows : EntityType → List (Row ℕ)
rows EntityType.item =
    row "g" "i1" 5 none ∷ row "h" "x" 1 none ∷ row "g" "i2" 1 (some 70) ∷ row "g" "i3" 2 none ∷ []
rows EntityType.location = row "g" "l1" 2 none ∷ []
rows _ = []

abbrev db : Database ℕ
db = record {
  rows = rows;
  groups =
      record { id = "g"; change_seq_counter = 5; tombstone_low_watermark = 2; deleted_at = none }
      ∷ record { id = "h"; change_seq_counter = 1; tombstone_low_watermark = 0; deleted_at = none }
      ∷ [];
}

-- The same after the watermark of "g" has moved to 4.
abbrev moved : Database ℕ
moved = record {
  rows = rows;
  groups =
      record { id = "g"; change_seq_counter = 5; tombstone_low_watermark = 4; deleted_at = none }
      ∷ record { id = "h"; change_seq_counter = 1; tombstone_low_watermark = 0; deleted_at = none }
      ∷ [];
}

abbrev by_seq : Sorter (λ (r : Row ℕ). r.change_seq)
by_seq = insertion _

abbrev go_sort : Sorter (λ (c : Candidate ℕ). c.change_seq)
go_sort = insertion _

abbrev repo : SyncRepository ℕ
repo = sync_repository by_seq db "g"

pull_complete_example :
    (page : Page ℕ) × (pull go_sort (some repo) (pos 0) (pos 2) ≡ ok page)
    × Covers (group_rows db "g") 0 page
    × ((length page.changes + length page.tombstones ≤ 2)
        ⊎ (rows_between (group_rows db "g") 0 (page.next_watermark - 1) ≡ []))
pull_complete_example =
    pull_complete go_sort (group_rows db "g") repo (sync_repository-Serves by_seq db "g") 0 2
      (omega arith)

-- The pull of household "g" from the start, two rows at most: the tombstone of change 1 alone,
-- since change 2 has two rows.
first_page :
    pull go_sort (some repo) (pos 0) (pos 2)
    ≡ ok (record {
      changes = [];
      tombstones = record { entity_type = EntityType.item; id = "i2"; deleted_at = 70 } ∷ [];
      next_watermark = 1;
      has_more = true;
    })
unfolding pull pull_guarded pull_checked pull_fetched pull_groups fill_page build_page fetch_since
    fetch_since_from fetch_at_seq fetch_at_seq_from probe_has_more probe_has_more_from sources
    source group_by_change_seq extend fetch_limit sync_repository insertion
first_page = refl

-- A change with more rows than the limit is not cut.
oversize_page :
    (page : Page ℕ) × (pull go_sort (some repo) (pos 1) (pos 1) ≡ ok page)
    × (length page.changes ≡ 2)
unfolding pull pull_guarded pull_checked pull_fetched pull_groups fill_page build_page fetch_since
    fetch_since_from fetch_at_seq fetch_at_seq_from probe_has_more probe_has_more_from sources
    source group_by_change_seq extend fetch_limit sync_repository insertion
oversize_page = (_, refl, refl)

refused :
    (pull go_sort (some repo) (pos 0) (pos 0) ≡ err (invalid_limit (pos 0)))
    × (pull go_sort (some repo) (negsuc 0) (pos 2) ≡ err (invalid_since (negsuc 0)))
unfolding pull pull_guarded
refused = (refl, refl)

pull_all_complete_example :
    (pages : List (Page ℕ)) × (pull_all go_sort repo 2 6 0 ≡ some pages)
    × CoversAll (group_rows db "g") 0 pages
pull_all_complete_example =
    pull_all_complete go_sort (group_rows db "g") repo (sync_repository-Serves by_seq db "g") 5 2
      (omega arith) 6 0 (omega arith) (omega arith)

pull_or_too_old-splits_example :
    ((0 < 1) × (1 < 2) × (pull_or_too_old go_sort (some repo) (pos 1) (pos 2) ≡ ok (no_page, true)))
    ⊎ (((◌≡◌ {A = ℕ} 1 0) ⊎ (2 ≤ 1))
        × (page : Page ℕ) × (pull_or_too_old go_sort (some repo) (pos 1) (pos 2) ≡ ok (page, false))
        × Covers (group_rows db "g") 1 page)
unfolding sync_repository
pull_or_too_old-splits_example =
    pull_or_too_old-splits go_sort (group_rows db "g") repo (sync_repository-Serves by_seq db "g") 2
      refl 1 2 (omega arith)

set_low_watermark-reads_example :
    (length (select (live_group "g") db.groups) ≡ 1)
    × (low_watermark moved "g" ≡ ok 4)
    × ((other : String) → other ≢ "g" → low_watermark moved other ≡ low_watermark db other)
    × (moved.rows ≡ db.rows)
unfolding set_low_watermark
set_low_watermark-reads_example = set_low_watermark-reads db moved "g" 4 refl
