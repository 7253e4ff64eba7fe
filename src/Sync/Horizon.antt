-- ===== src/Sync/Horizon.antt =====
-- server/internal/sync/horizon.go: a cursor behind the tombstone low watermark is too old to pull.
use household_objects_srv.Prelude.{
  ℕ, zero, suc, ◌≤◌, ◌<◌, ◌≡◌, refl, ℤ, pos, negsuc, Bool, true, false, ◌&&◌, ◌⊎◌, inl, inr, Option,
  none, some, List, [], arith, ltb, if◌then◌else◌, Bool-cases, Result, ok, err, ◌>>=◌, map_err,
  Sorter,
}
use household_objects_srv.Sync.Types.{
  EntityType, Row, Candidate, Page, SyncError, no_repository, invalid_since, low_watermark,
  SyncRepository,
}
use household_objects_srv.Sync.Repository.{Serves}
use household_objects_srv.Sync.Reader.{pull}
use household_objects_srv.Sync.Reader.Window.{Covers}
use household_objects_srv.Sync.Reader.Complete.{pull_complete}

module _ {D : Type 0} where
  -- `TooOld`: a nil reader or one without a repository is `none`; a cursor of 0 is a first pull.
  pub too_old : Option (SyncRepository D) → ℤ → Result SyncError Bool
  too_old none since = err no_repository
  too_old (some repo) (negsuc n) = err (invalid_since (negsuc n))
  too_old (some repo) (pos zero) = ok false
  too_old (some repo) (pos (suc n)) = do
    watermark ← map_err low_watermark repo.get_low_watermark
    ok (ltb (suc n) watermark)

  -- The zero value of `Page`.
  abbrev pub no_page : Page D
  no_page = record { changes = []; tombstones = []; next_watermark = 0; has_more = false }

  -- The Boolean is `cursorTooOld`.
  pub pull_or_too_old :
      Sorter (λ (c : Candidate D). c.change_seq)
      → Option (SyncRepository D)
      → ℤ
      → ℤ
      → Result SyncError (Page D × Bool)
  pull_or_too_old go reader since limit = do
    old ← too_old reader since
    if old then ok (no_page, true) else (do page ← pull go reader since limit; ok (page, false))

module _ {D : Type 0} (go : Sorter (λ (c : Candidate D). c.change_seq))
    (rows : EntityType → List (Row D)) (repo : SyncRepository D) (serves : Serves rows repo)
    (watermark : ℕ) (stored : repo.get_low_watermark ≡ ok watermark) where
  too_old-eq :
      (since : ℕ) → too_old (some repo) (pos since) ≡ ok (ltb 0 since && ltb since watermark)
  unfolding too_old
  too_old-eq zero = refl
  too_old-eq (suc n) = rw stored (ground arith)

  -- Exactly the cursors behind the watermark, but 0, are refused; from any other the answer is a
  -- page that covers its window.
  pub pull_or_too_old-splits :
      (since limit : ℕ)
      → 0 < limit
      → ((0 < since)
          × (since < watermark)
          × (pull_or_too_old go (some repo) (pos since) (pos limit) ≡ ok (no_page, true)))
        ⊎ (((since ≡ 0) ⊎ (watermark ≤ since))
            × (page : Page D) × (pull_or_too_old go (some repo) (pos since) (pos limit)
                ≡ ok (page, false))
            × Covers rows since page)
  unfolding pull_or_too_old
  pull_or_too_old-splits since limit h = elim (Bool-cases (ltb 0 since && ltb since watermark)) [
    | inl old ↦ inl (ground arith, ground arith, rw (too_old-eq since, old))
    | inr current ↦
        let (page, ran, covers, _) = pull_complete go rows repo serves since limit h in
        inr (ground arith, page, rw (too_old-eq since, current, ran), covers)
  ]
