-- ===== src/Sync/Reader/Complete.antt =====
-- `Pull` of server/internal/sync/reader.go over a repository that answers for the rows of one
-- household.
use mathlib.Core.List.{filter_map}
use mathlib.Core.List.Perm
use household_objects_srv.Prelude.{
  ℕ, zero, suc, ◌+◌, ◌-◌, ◌≤◌, ◌<◌, ◌≡◌, refl, ap, ◌⊎◌, inl, pos, Bool, false, some, List, [], ◌∷◌,
  arith, ltb, leb, Result, ok, length, select, Perm-length, Sorter, All, All-imp, select_none,
  eq-nil_of_length, All-select, All-select_none, Perm-select, SortedFrom-raise, length-select-le,
}
use household_objects_srv.Sync.Types.{EntityType, Row, Candidate, Page, SyncError, SyncRepository}
use household_objects_srv.Sync.Repository.{Serves}
use household_objects_srv.Sync.Reader.{
  SeqGroup, group_by_change_seq, build_page, pull_fetched, pull_checked, pull_guarded, pull,
}
use household_objects_srv.Sync.Reader.Groups.{
  members_of, Ascending, members_of-group_by_change_seq, group_by_change_seq-Ascending,
}
use household_objects_srv.Sync.Reader.Window.{
  change_of, tombstone_of, all_rows, rows_after, rows_between, select-rows_after, Covers,
}
use household_objects_srv.Sync.Reader.Fetch.{
  fetched, fetch_since-eq, fetched_shorter, fetched_empty,
}
use household_objects_srv.Sync.Reader.Fill.{Filled, Filled-forward, pull_groups-Filled}

module _ {D : Type 0} where
  build_page-changes :
      (cs : List (Candidate D)) (next : ℕ) (more : Bool)
      → (build_page cs next more).changes ≡ filter_map change_of cs
  unfolding build_page filter_map
  build_page-changes [] next more = refl
  build_page-changes (c ∷ cs) next more = ground (arith, build_page-changes cs next more)

  build_page-tombstones :
      (cs : List (Candidate D)) (next : ℕ) (more : Bool)
      → (build_page cs next more).tombstones ≡ filter_map tombstone_of cs
  unfolding build_page filter_map
  build_page-tombstones [] next more = refl
  build_page-tombstones (c ∷ cs) next more = ground (arith, build_page-tombstones cs next more)

  build_page-next_watermark :
      (cs : List (Candidate D)) (next : ℕ) (more : Bool)
      → ((build_page cs next more).next_watermark ≡ next)
        × ((build_page cs next more).has_more ≡ more)
  unfolding build_page
  build_page-next_watermark [] next more = (refl, refl)
  build_page-next_watermark (c ∷ cs) next more =
      ground (arith, build_page-next_watermark cs next more)

  length-changes-tombstones :
      (cs : List (Candidate D)) (next : ℕ) (more : Bool)
      → length (build_page cs next more).changes + length (build_page cs next more).tombstones
        ≡ length cs
  unfolding build_page
  length-changes-tombstones [] next more = refl
  length-changes-tombstones (c ∷ cs) next more =
      ground (arith, length-changes-tombstones cs next more)

  Filled-Covers :
      (rows : EntityType → List (Row D)) (limit since : ℕ) {r : Result SyncError (Page D)}
      (f : Filled rows limit since since r)
      → (0 < length (rows_after rows since) → since < f.next)
      → Covers rows since (build_page f.ordered f.next f.more)
  Filled-Covers rows limit since f progress =
      let (next, more) = build_page-next_watermark f.ordered f.next f.more in
      record {
        changes = rw (next, build_page-changes) (Perm.filter_map change_of f.window);
        tombstones = rw (next, build_page-tombstones) (Perm.filter_map tombstone_of f.window);
        has_more = rw (next, more) f.rest;
        forward = rw next f.forward;
        progress = λ h. rw next (progress h);
      }

module _ {D : Type 0} (go : Sorter (λ (c : Candidate D). c.change_seq))
    (rows : EntityType → List (Row D)) (repo : SyncRepository D) (serves : Serves rows repo) where
  abbrev found : ℕ → ℕ → List (Candidate D)
  found since limit = go.sort (fetched rows repo serves since limit)

  -- The candidates lie beyond `since`, so their groups ascend from it.
  found_beyond : (since limit : ℕ) → All (λ c. since < c.change_seq) (found since limit)
  found_beyond since limit =
      let none =
        select_none (λ c. leb c.change_seq since) (rows_after rows since)
          (All-imp _ _ (rows_after rows since) (λ c h. ground arith)
            (All-select (λ c. ltb since c.change_seq) (all_rows rows))) in
      let empty = eq-nil_of_length (select (λ c. leb c.change_seq since) (found since limit)) (
        omega (
          arith,
          ap length none,
          fetched_shorter rows repo serves (λ c. leb c.change_seq since) since limit,
          Perm-length (
              Perm-select (λ (c : Candidate D). leb c.change_seq since)
                (go.perm (fetched rows repo serves since limit))),
        )) in
      All-imp _ _ (found since limit) (λ c h. ground arith)
        (All-select_none _ (found since limit) empty)

  groups_Ascending : (since limit : ℕ) → Ascending since (group_by_change_seq (found since limit))
  groups_Ascending since limit =
      let beyond = found_beyond since limit in
      group_by_change_seq-Ascending since (found since limit) beyond (
        SortedFrom-raise (λ (c : Candidate D). c.change_seq) 0 since (found since limit)
          (go.sorted _) (All-imp _ _ (found since limit) (λ c h. omega arith) beyond))

  none_found : (since limit : ℕ) → [] ≡ found since limit → length (rows_after rows since) ≡ 0
  none_found since limit e =
      fetched_empty rows repo serves since limit
        (omega (arith, ap length e, Perm-length (go.perm (fetched rows repo serves since limit))))

  pull_fetched-Filled :
      (since limit : ℕ) (gs : List (SeqGroup D))
      → members_of gs ≡ found since limit
      → Ascending since gs
      → (f : Filled rows limit since since (pull_fetched repo since limit gs)) × (0
            < length (rows_after rows since)
          → since < f.next)
  unfolding pull_fetched Filled-forward
  pull_fetched-Filled since limit [] e a =
      let none = none_found since limit e in
      let window : rows_between rows since since ≡ [] = eq-nil_of_length _ (
        omega (
          arith,
          none,
          ap length (select-rows_after rows since since),
          length-select-le (λ (c : Candidate D). leb c.change_seq since) (rows_after rows since),
        )) in
      (
        record {
          ordered = [];
          next = since;
          more = false;
          result = refl;
          window = rw window (Perm.refl []);
          rest = rw none;
          forward = omega arith;
          size = inl (omega arith);
        },
        λ h. absurd (omega arith),
      )
  pull_fetched-Filled since limit (g ∷ gs) e a =
      let f =
        pull_groups-Filled rows repo serves since limit (found since limit) (go.perm _) g gs e a in
      (Filled-forward rows (omega arith) f, λ h. omega (arith, f.forward))

  pull_checked-Filled :
      (since limit : ℕ)
      → (f : Filled rows limit since since (pull_checked go repo since limit)) × (0
            < length (rows_after rows since)
          → since < f.next)
  unfolding pull_checked
  pull_checked-Filled since limit = rw (fetch_since-eq rows repo serves go since limit) (
      pull_fetched-Filled since limit (group_by_change_seq (found since limit))
        (members_of-group_by_change_seq (found since limit)) (groups_Ascending since limit))

  -- With a repository that answers for the rows of one household, a pull with limits that the
  -- guards accept returns a page, and the page covers its window: the rows after `since` up to the
  -- page's own watermark, each once, as a change if it lives and as a tombstone if it is deleted.
  -- The page tells whether there are rows beyond, and moves on if there are rows after `since`. It
  -- has at most `limit` entries, unless all of them carry one sequence number.
  pub pull_complete :
      (since limit : ℕ)
      → 0 < limit
      → (page : Page D) × (pull go (some repo) (pos since) (pos limit) ≡ ok page)
        × Covers rows since page
        × ((length page.changes + length page.tombstones ≤ limit)
            ⊎ (rows_between rows since (page.next_watermark - 1) ≡ []))
  unfolding pull pull_guarded
  pull_complete since zero h = elim h [ ]
  pull_complete since (suc limit) h =
      let (f, progress) = pull_checked-Filled since (suc limit) in
      let (next, more) = build_page-next_watermark f.ordered f.next f.more in
      (
        build_page f.ordered f.next f.more,
        f.result,
        Filled-Covers rows (suc limit) since f progress,
        rw (next, length-changes-tombstones) f.size,
      )
