-- ===== src/Sync/Reader.antt =====
-- The pull side of server/internal/sync/reader.go: one page of changes after a watermark.
pub mod Groups
pub mod Window
mod Fetch
mod Fill
pub mod Complete
pub mod Drain
pub mod Single
pub mod Tests
use mathlib.Core.List.{foldl}
use household_objects_srv.Prelude.{
  ℕ, suc, zero, ◌+◌, ◌-◌, ◌^◌, String, ℤ, pos, negsuc, Bool, true, false, Option, none, some, List,
  [], ◌∷◌, ◌++◌, map, ltb, ◌==◌, if◌then◌else◌, Result, ok, err, ◌>>=◌, map_err, length, Sorter,
}
use household_objects_srv.Sync.Types.{
  EntityType, item, warranty_block, sold_to_block, purchased_from_block, item_identification,
  item_custom_field, stock_adjustment, location, label, item_label, attachment, Row, Candidate,
  Change, Tombstone, Page, StorageError, SyncError, no_repository, invalid_limit, invalid_since,
  pull_since, pull_at, probe, SyncRepository,
}

-- The order in which `sources` lists the tables.
abbrev pub entity_types : List EntityType
entity_types =
    item ∷ warranty_block ∷ sold_to_block ∷ purchased_from_block ∷ item_identification
    ∷ item_custom_field ∷ stock_adjustment ∷ location ∷ label ∷ item_label ∷ attachment ∷ []

module _ {D : Type 0} where
  abbrev pub candidate : EntityType → Row D → Candidate D
  candidate t row = record {
    entity_type = t;
    id = row.id;
    change_seq = row.change_seq;
    deleted_at = row.deleted_at;
    content = row;
  }

  -- `itemCandidates` and its ten siblings, which differ in the entity type alone.
  abbrev pub candidates : EntityType → List (Row D) → List (Candidate D)
  candidates t rows = map (candidate t) rows

pub record TableSource (D : Type 0) : Type 0 where
  pub entity_type : EntityType
  pub since : ℕ → ℤ → Result StorageError (List (Candidate D))
  pub at_seq : ℕ → Result StorageError (List (Candidate D))

pub record SeqGroup (D : Type 0) : Type 0 where
  pub seq : ℕ
  pub members : List (Candidate D)

module _ {D : Type 0} where
  source : SyncRepository D → EntityType → TableSource D
  source repo t = record {
    entity_type = t;
    since = λ since limit. repo.since t since limit >>= λ rows. ok (candidates t rows);
    at_seq = λ seq. repo.at_seq t seq >>= λ rows. ok (candidates t rows);
  }

  sources : SyncRepository D → List (TableSource D)
  sources repo = map (source repo) entity_types

  -- The last group takes the candidate if the sequence numbers agree; else a group is begun.
  extend : List (SeqGroup D) → Candidate D → List (SeqGroup D)
  extend [] c = record { seq = c.change_seq; members = c ∷ [] } ∷ []
  extend (g ∷ []) c =
      if g.seq == c.change_seq
      then record g { members = g.members ++ c ∷ [] } ∷ []
      else g ∷ record { seq = c.change_seq; members = c ∷ [] } ∷ []
  extend (g ∷ h ∷ gs) c = g ∷ extend (h ∷ gs) c

  pub group_by_change_seq : List (Candidate D) → List (SeqGroup D)
  group_by_change_seq sorted = foldl extend [] sorted

  fetch_since_from : List (TableSource D) → ℕ → ℤ → Result SyncError (List (Candidate D))
  fetch_since_from [] since limit = ok []
  fetch_since_from (src ∷ srcs) since limit = do
    rows ← map_err (pull_since src.entity_type since) (src.since since limit)
    rest ← fetch_since_from srcs since limit
    ok (rows ++ rest)

  pub fetch_since :
      Sorter (λ (c : Candidate D). c.change_seq)
      → SyncRepository D
      → ℕ
      → ℤ
      → Result SyncError (List (Candidate D))
  fetch_since go repo since limit = do
    found ← fetch_since_from (sources repo) since limit
    ok (go.sort found)

  fetch_at_seq_from : List (TableSource D) → ℕ → Result SyncError (List (Candidate D))
  fetch_at_seq_from [] seq = ok []
  fetch_at_seq_from (src ∷ srcs) seq = do
    rows ← map_err (pull_at src.entity_type seq) (src.at_seq seq)
    rest ← fetch_at_seq_from srcs seq
    ok (rows ++ rest)

  pub fetch_at_seq : SyncRepository D → ℕ → Result SyncError (List (Candidate D))
  fetch_at_seq repo seq = fetch_at_seq_from (sources repo) seq

  -- The first table with a row beyond the watermark ends the probe.
  probe_has_more_from : List (TableSource D) → ℕ → Result SyncError Bool
  probe_has_more_from [] watermark = ok false
  probe_has_more_from (src ∷ srcs) watermark = do
    rows ← map_err (probe src.entity_type watermark) (src.since watermark (pos 1))
    if ltb 0 (length rows) then ok true else probe_has_more_from srcs watermark

  pub probe_has_more : SyncRepository D → ℕ → Result SyncError Bool
  probe_has_more repo watermark = probe_has_more_from (sources repo) watermark

  -- The loop fills both lists in the order of its argument.
  pub build_page : List (Candidate D) → ℕ → Bool → Page D
  build_page [] next_watermark has_more = record {
    changes = [];
    tombstones = [];
    next_watermark = next_watermark;
    has_more = has_more;
  }
  build_page (c ∷ ordered) next_watermark has_more =
      let page = build_page ordered next_watermark has_more in
      elim c.deleted_at [
        | some at ↦ record page {
          tombstones =
              record { entity_type = c.entity_type; id = c.id; deleted_at = at } ∷ page.tombstones;
        }
        | none ↦ record page {
          changes =
              record {
                entity_type = c.entity_type;
                id = c.id;
                group_change_seq = c.change_seq;
                content = c.content;
              }
              ∷ page.changes;
        }
      ]

-- `limit + 1` on int64, for a positive limit: the sum wraps at 2^63 - 1.
pub fetch_limit : ℕ → ℤ
fetch_limit limit =
    if ltb (limit + 1) (2 ^ 63) then pos (limit + 1) else negsuc (2 ^ 64 - (limit + 1) - 1)

module _ {D : Type 0} where
  -- The loop over `groups[1:]`: the state is `included`, `cumulative` and `lastSeq`.
  pub fill_page :
      SyncRepository D
      → ℕ
      → List (Candidate D)
      → ℕ
      → ℕ
      → List (SeqGroup D)
      → Result SyncError (Page D)
  fill_page repo limit included cumulative last_seq [] = do
    has_more ← probe_has_more repo last_seq
    ok (build_page included last_seq has_more)
  fill_page repo limit included cumulative last_seq (g ∷ groups) =
      let rest =
        fill_page repo limit (included ++ g.members) (cumulative + length g.members) g.seq groups in
      if ltb limit (cumulative + length g.members)
      then ok (build_page included last_seq true)
      else rest

  -- What `Pull` does with the groups of a non-empty fetch, from the first group on.
  pub pull_groups :
      SyncRepository D → ℕ → SeqGroup D → List (SeqGroup D) → Result SyncError (Page D)
  pull_groups repo limit g groups = do
    first_group ← fetch_at_seq repo g.seq
    if ltb limit (length first_group)
        then (do has_more ← probe_has_more repo g.seq; ok (build_page first_group g.seq has_more))
        else fill_page repo limit first_group (length first_group) g.seq groups

  -- No group means that no candidate was fetched.
  pull_fetched : SyncRepository D → ℕ → ℕ → List (SeqGroup D) → Result SyncError (Page D)
  pull_fetched repo since limit [] = ok (build_page [] since false)
  pull_fetched repo since limit (g ∷ groups) = pull_groups repo limit g groups

  pull_checked :
      Sorter (λ (c : Candidate D). c.change_seq)
      → SyncRepository D
      → ℕ
      → ℕ
      → Result SyncError (Page D)
  pull_checked go repo since limit = do
    found ← fetch_since go repo since (fetch_limit limit)
    pull_fetched repo since limit (group_by_change_seq found)

  -- The three guards of `Pull`; a nil reader or one without a repository is `none`.
  pull_guarded :
      Sorter (λ (c : Candidate D). c.change_seq)
      → SyncRepository D
      → ℤ
      → ℤ
      → Result SyncError (Page D)
  pull_guarded go repo since (negsuc n) = err (invalid_limit (negsuc n))
  pull_guarded go repo since (pos zero) = err (invalid_limit (pos 0))
  pull_guarded go repo (negsuc n) (pos (suc limit)) = err (invalid_since (negsuc n))
  pull_guarded go repo (pos since) (pos (suc limit)) = pull_checked go repo since (suc limit)

  pub pull :
      Sorter (λ (c : Candidate D). c.change_seq)
      → Option (SyncRepository D)
      → ℤ
      → ℤ
      → Result SyncError (Page D)
  pull go none since limit = err no_repository
  pull go (some repo) since limit = pull_guarded go repo since limit
