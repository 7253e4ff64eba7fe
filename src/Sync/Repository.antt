-- ===== src/Sync/Repository.antt =====
-- server/internal/storage/sync.go: the repository over the tables of the database, with the
-- queries of server/internal/storage/queries. What SQLite itself does is the parameter `sql`,
-- the order that `ORDER BY change_seq ASC` gives: ascending, and rows with equal keys in any order.
pub mod Watermark
use household_objects_srv.Prelude.{
  ℕ, zero, suc, ◌+◌, String, str_eq, ℤ, pos, negsuc, Bool, true, false, Option, none, some, List,
  [], ◌∷◌, ◌≡◌, refl, ◌&&◌, ltb, ◌==◌, if◌then◌else◌, Result, ok, err, ◌>>=◌, select, take, Perm,
  Sorter, IsSorted, select-select, select-ext, All, length, map,
}
use mathlib.Core.List.Perm
use household_objects_srv.Sync.Types.{
  EntityType, Row, StorageError, not_found, negative_watermark, SyncRepository,
}

-- The columns of a row of `groups` that the synchronisation reads.
pub record Group : Type 0 where
  pub id : String
  pub change_seq_counter : ℕ
  pub tombstone_low_watermark : ℕ
  pub deleted_at : Option ℕ

pub record Database (D : Type 0) : Type 0 where
  pub rows : EntityType → List (Row D)
  pub groups : List Group

-- SQLite takes a negative LIMIT as none.
abbrev pub limit_rows : {D : Type 0} → ℤ → List (Row D) → List (Row D)
limit_rows (pos n) rows = take n rows
limit_rows (negsuc n) rows = rows

abbrev pub is_null : Option ℕ → Bool
is_null none = true
is_null (some at) = false

-- The WHERE clause that both watermark statements share.
abbrev pub live_group : String → Group → Bool
live_group group g = str_eq g.id group && is_null g.deleted_at

get_low_watermark_of : List Group → Result StorageError ℕ
get_low_watermark_of [] = err not_found
get_low_watermark_of (g ∷ gs) = ok g.tombstone_low_watermark

write_low_watermark : String → ℕ → Group → Group
write_low_watermark group to g =
    if live_group group g then record g { tombstone_low_watermark = to } else g

module _ {D : Type 0} where
  -- ListItemChangesSince and its ten siblings.
  list_changes_since :
      Sorter (λ (r : Row D). r.change_seq) → Database D → String → EntityType → ℕ → ℤ → List (Row D)
  list_changes_since sql db group t since limit =
      limit_rows limit
        (sql.sort (select (λ r. str_eq r.group_id group && ltb since r.change_seq) (db.rows t)))

  -- ListItemChangesAtSeq and its ten siblings.
  list_changes_at_seq : Database D → String → EntityType → ℕ → List (Row D)
  list_changes_at_seq db group t seq =
      select (λ r. str_eq r.group_id group && (r.change_seq == seq)) (db.rows t)

  pub low_watermark : Database D → String → Result StorageError ℕ
  low_watermark db group = get_low_watermark_of (select (live_group group) db.groups)

  -- Any number of rows but one is an error, and the transaction is rolled back.
  unfoldable pub set_low_watermark : Database D → String → ℤ → Result StorageError (Database D)
  unfolding write_low_watermark
  set_low_watermark db group (negsuc n) = err negative_watermark
  set_low_watermark db group (pos to) =
      if length (select (live_group group) db.groups) == 1
      then ok (record db { groups = map (write_low_watermark group to) db.groups })
      else err not_found

  unfoldable pub sync_repository :
      Sorter (λ (r : Row D). r.change_seq) → Database D → String → SyncRepository D
  unfolding list_changes_since list_changes_at_seq low_watermark get_low_watermark_of
  sync_repository sql db group = record {
    since = λ t since limit. ok (list_changes_since sql db group t since limit);
    at_seq = λ t seq. ok (list_changes_at_seq db group t seq);
    get_low_watermark = low_watermark db group;
  }

-- The rows of one household in one table.
abbrev pub group_rows : {D : Type 0} → Database D → String → EntityType → List (Row D)
group_rows db group t = select (λ r. str_eq r.group_id group) (db.rows t)

-- What a client of the repository relies on: each call answers for the rows of one household.
pub record Serves {D : Type 0} (rows : EntityType → List (Row D)) (repo : SyncRepository D)
    : Type 0 where
  pub sorted_rows : EntityType → ℕ → List (Row D)
  pub sorted_perm :
      (t : EntityType) (since : ℕ)
      → Perm (sorted_rows t since) (select (λ r. ltb since r.change_seq) (rows t))
  pub sorted_order :
      (t : EntityType) (since : ℕ) → IsSorted (λ r. r.change_seq) (sorted_rows t since)
  pub since_eq :
      (t : EntityType) (since : ℕ) (limit : ℤ)
      → repo.since t since limit ≡ ok (limit_rows limit (sorted_rows t since))
  pub at_rows : EntityType → ℕ → List (Row D)
  pub at_perm :
      (t : EntityType) (seq : ℕ) → Perm (at_rows t seq) (select (λ r. r.change_seq == seq) (rows t))
  pub at_eq : (t : EntityType) (seq : ℕ) → repo.at_seq t seq ≡ ok (at_rows t seq)

-- The storage's queries for a household serve its rows: a listing after a sequence number is the
-- first `limit` of exactly the household's rows above that number, in ascending order of it, and a
-- listing at a sequence number has exactly the household's rows with that number.
pub sync_repository-Serves :
    {D : Type 0} (sql : Sorter (λ (r : Row D). r.change_seq)) (db : Database D) (group : String)
    → Serves (group_rows db group) (sync_repository sql db group)
unfolding sync_repository list_changes_since list_changes_at_seq
sync_repository-Serves sql db group = record {
  sorted_rows = λ t since. sql.sort (select (λ r. ltb since r.change_seq) (group_rows db group t));
  sorted_perm = λ t since. sql.perm _;
  sorted_order = λ t since. sql.sorted _;
  since_eq = λ t since limit. rw select-select;
  at_rows = λ t seq. select (λ r. r.change_seq == seq) (group_rows db group t);
  at_perm = λ t seq. Perm.refl _;
  at_eq = λ t seq. rw select-select;
}
