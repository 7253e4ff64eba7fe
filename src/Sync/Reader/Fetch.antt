-- ===== src/Sync/Reader/Fetch.antt =====
-- What the loops over the tables fetch, in terms of the rows of the household.
use mathlib.Core.List.Perm
use household_objects_srv.Prelude.{
  ℕ, zero, suc, ◌+◌, ◌-◌, ◌^◌, ◌≤◌, ◌≡◌, refl, sym, ap, ◌∙◌, ◌⊎◌, ℤ, pos, negsuc, Bool, true, inl,
  inr, List, [], ◌∷◌, ◌++◌, map, Perm, arith, ltb, leb, ◌==◌, if◌then◌else◌, Bool-cases, ok, select,
  take, gather, length, select-take, length-append, select-append, select-map, select-gather,
  Perm-gather, Perm-length, Perm-select, SortedFrom, length-map, Sorter,
}
use household_objects_srv.Sync.Types.{EntityType, Row, Candidate, SyncRepository}
use household_objects_srv.Sync.Repository.{limit_rows, Serves}
use household_objects_srv.Sync.Reader.{
  entity_types, candidate, candidates, source, sources, fetch_limit, fetch_since, fetch_since_from,
  fetch_at_seq, fetch_at_seq_from, probe_has_more, probe_has_more_from,
}
use household_objects_srv.Sync.Reader.Window.{all_rows, rows_after}

-- A limit that would pass 2^63 - 1 is negative, and stands for none.
abbrev LimitFor : ℕ → ℤ → Type 0
LimitFor limit l = (l ≡ pos (limit + 1)) ⊎ ((k : ℕ) × (l ≡ negsuc k))

fetch_limit-cases : (limit : ℕ) → LimitFor limit (fetch_limit limit)
unfolding fetch_limit
fetch_limit-cases limit = elim (Bool-cases (ltb (limit + 1) (2 ^ 63))) [
  | inl e ↦ inl (rw e)
  | inr e ↦ inr (2 ^ 64 - (limit + 1) - 1, rw e)
]

module _ {D : Type 0} where
  rows_full :
      (m limit : ℕ) (l : ℤ)
      → LimitFor limit l
      → (rs : List (Row D)) → SortedFrom (λ r. r.change_seq) 0 rs
      → length (select (λ r. leb r.change_seq m) (limit_rows l rs)) ≤ limit
      → select (λ r. leb r.change_seq m) (limit_rows l rs) ≡ select (λ r. leb r.change_seq m) rs
  rows_full m limit (pos n) (inl e) rs s h =
      let same : n ≡ limit + 1 = ground arith in
      select-take (λ (r : Row D). r.change_seq) 0 m n rs s (omega arith)
  rows_full m limit (pos n) (inr (k, e)) rs s h = cc
  rows_full m limit (negsuc n) k rs s h = refl

  part_shorter :
      (p : Candidate D → Bool) (t : EntityType) (l : ℤ) (rs : List (Row D))
      → length (select p (candidates t (limit_rows l rs))) ≤ length (select p (candidates t rs))
  part_shorter p t (pos zero) rs = omega arith
  part_shorter p t (pos (suc n)) [] = omega arith
  part_shorter p t (pos (suc n)) (r ∷ rs) = ground (arith, part_shorter p t (pos n) rs)
  part_shorter p t (negsuc n) rs = omega arith

  part_empty :
      (t : EntityType) (limit : ℕ) (l : ℤ)
      → LimitFor limit l
      → (rs : List (Row D)) → length (candidates t (limit_rows l rs)) ≡ 0
      → length (candidates t rs) ≡ 0
  part_empty t limit (pos zero) (inl e) rs h =
      let same : 0 ≡ limit + 1 = ground arith in absurd (omega arith)
  part_empty t limit (pos zero) (inr (k, e)) rs h = cc
  part_empty t limit (pos (suc n)) k [] h = refl
  part_empty t limit (pos (suc n)) k (r ∷ rs) h = absurd (omega arith)
  part_empty t limit (negsuc n) k rs h = h

module _ {D : Type 0} (rows : EntityType → List (Row D)) (repo : SyncRepository D)
    (serves : Serves rows repo) where
  abbrev pub fetched : ℕ → ℕ → List (Candidate D)
  fetched since limit =
      gather (λ t. candidates t (limit_rows (fetch_limit limit) (serves.sorted_rows t since)))
        entity_types

  abbrev unlimited : ℕ → List EntityType → List (Candidate D)
  unlimited since ts = gather (λ t. candidates t (serves.sorted_rows t since)) ts

  fetch_since_from-eq :
      (ts : List EntityType) (since limit : ℕ)
      → fetch_since_from (map (source repo) ts) since (fetch_limit limit)
        ≡ ok (
            gather
              (λ t. candidates t (limit_rows (fetch_limit limit) (serves.sorted_rows t since)))
              ts)
  unfolding fetch_since_from source
  fetch_since_from-eq [] since limit = refl
  fetch_since_from-eq (t ∷ ts) since limit =
      rw (serves.since_eq t since (fetch_limit limit), fetch_since_from-eq ts since limit)

  pub fetch_since-eq :
      (go : Sorter (λ (c : Candidate D). c.change_seq)) (since limit : ℕ)
      → fetch_since go repo since (fetch_limit limit) ≡ ok (go.sort (fetched since limit))
  unfolding fetch_since sources
  fetch_since-eq go since limit = rw (fetch_since_from-eq entity_types since limit)

  fetch_at_seq_from-eq :
      (ts : List EntityType) (seq : ℕ)
      → fetch_at_seq_from (map (source repo) ts) seq
        ≡ ok (gather (λ t. candidates t (serves.at_rows t seq)) ts)
  unfolding fetch_at_seq_from source
  fetch_at_seq_from-eq [] seq = refl
  fetch_at_seq_from-eq (t ∷ ts) seq = rw (serves.at_eq t seq, fetch_at_seq_from-eq ts seq)

  pub fetch_at_seq-eq :
      (seq : ℕ)
      → (found : List (Candidate D)) × (fetch_at_seq repo seq ≡ ok found)
        × Perm found (select (λ c. c.change_seq == seq) (all_rows rows))
  unfolding fetch_at_seq sources
  fetch_at_seq-eq seq = (
    _,
    fetch_at_seq_from-eq entity_types seq,
    rw select-gather (Perm-gather _ _ entity_types at_part),
  )
    where
      at_part :
          (t : EntityType)
          → Perm
              (candidates t (serves.at_rows t seq))
              (select (λ c. c.change_seq == seq) (candidates t (rows t)))
      at_part t = rw select-map (Perm.map (candidate t) (serves.at_perm t seq))

  part_perm :
      (since : ℕ) (t : EntityType)
      → Perm
          (candidates t (serves.sorted_rows t since))
          (select (λ c. ltb since c.change_seq) (candidates t (rows t)))
  part_perm since t = rw select-map (Perm.map (candidate t) (serves.sorted_perm t since))

  pub unlimited_perm : (since : ℕ) → Perm (unlimited since entity_types) (rows_after rows since)
  unlimited_perm since = rw select-gather (Perm-gather _ _ entity_types (part_perm since))

  probe_has_more_from-eq :
      (ts : List EntityType) (w : ℕ)
      → probe_has_more_from (map (source repo) ts) w ≡ ok (ltb 0 (length (unlimited w ts)))
  unfolding probe_has_more_from source
  probe_has_more_from-eq [] w = refl
  probe_has_more_from-eq (t ∷ ts) w =
      rw (serves.since_eq t w (pos 1)) (ends (serves.sorted_rows t w) (probe_has_more_from-eq ts w))
    where
      ends :
          (rs : List (Row D))
          → probe_has_more_from (map (source repo) ts) w ≡ ok (ltb 0 (length (unlimited w ts)))
          → (if ltb 0 (length (candidates t (take 1 rs)))
              then ok true
              else probe_has_more_from (map (source repo) ts) w)
            ≡ ok (ltb 0 (length (candidates t rs ++ unlimited w ts)))
      ends [] ih = ih
      ends (r ∷ rs) ih = ground arith

  pub probe_has_more-eq : (w : ℕ) → probe_has_more repo w ≡ ok (ltb 0 (length (rows_after rows w)))
  unfolding probe_has_more sources
  probe_has_more-eq w =
      probe_has_more_from-eq entity_types w
      ∙ ap (λ n. ok (ltb 0 n)) (Perm-length (unlimited_perm w))

  -- One table: up to `limit` rows with a key up to `m` are all of them.
  part_full :
      (since m limit : ℕ) (t : EntityType)
      → length (
          select
            (λ c. leb c.change_seq m)
            (candidates t (limit_rows (fetch_limit limit) (serves.sorted_rows t since))))
        ≤ limit
      → select
          (λ c. leb c.change_seq m)
          (candidates t (limit_rows (fetch_limit limit) (serves.sorted_rows t since)))
        ≡ select (λ c. leb c.change_seq m) (candidates t (serves.sorted_rows t since))
  part_full since m limit t h = simp select-map (
      ap (map (candidate t)) (
        rows_full m limit (fetch_limit limit) (fetch_limit-cases limit) (serves.sorted_rows t since)
          (serves.sorted_order t since) (rw (select-map, length-map) at h)))

  parts_full :
      (since m limit : ℕ) (ts : List EntityType)
      → length (
          select
            (λ c. leb c.change_seq m)
            (gather
              (λ t. candidates t (limit_rows (fetch_limit limit) (serves.sorted_rows t since)))
              ts))
        ≤ limit
      → select
          (λ c. leb c.change_seq m)
          (gather
            (λ t. candidates t (limit_rows (fetch_limit limit) (serves.sorted_rows t since)))
            ts)
        ≡ select (λ c. leb c.change_seq m) (unlimited since ts)
  parts_full since m limit [] h = refl
  parts_full since m limit (t ∷ ts) h =
      let h' = rw (select-append, length-append) at h in
      rw
        (
          select-append,
          part_full since m limit t (omega arith),
          parts_full since m limit ts (omega arith),
        )
        (sym (select-append _ (candidates t (serves.sorted_rows t since)) (unlimited since ts)))

  -- The limited fetch misses no row up to `m`, if it has no more than `limit` of them.
  pub fetched_full :
      (since m limit : ℕ)
      → length (select (λ c. leb c.change_seq m) (fetched since limit)) ≤ limit
      → Perm
          (select (λ c. leb c.change_seq m) (fetched since limit))
          (select (λ c. leb c.change_seq m) (rows_after rows since))
  fetched_full since m limit h =
      rw (parts_full since m limit entity_types h) (Perm-select _ (unlimited_perm since))

  parts_shorter :
      (p : Candidate D → Bool) (since limit : ℕ) (ts : List EntityType)
      → length (
          select p (
            gather
              (λ t. candidates t (limit_rows (fetch_limit limit) (serves.sorted_rows t since)))
              ts))
        ≤ length (select p (unlimited since ts))
  parts_shorter p since limit [] = omega arith
  parts_shorter p since limit (t ∷ ts) =
      rw (select-append, length-append, select-append, length-append)
        (omega (
          arith,
          parts_shorter p since limit ts,
          part_shorter p t (fetch_limit limit) (serves.sorted_rows t since),
        ))

  -- A fetch holds no row that is not there.
  pub fetched_shorter :
      (p : Candidate D → Bool) (since limit : ℕ)
      → length (select p (fetched since limit)) ≤ length (select p (rows_after rows since))
  fetched_shorter p since limit = omega (
    arith,
    parts_shorter p since limit entity_types,
    Perm-length (Perm-select p (unlimited_perm since)),
  )

  parts_empty :
      (since limit : ℕ) (ts : List EntityType)
      → length (
          gather
            (λ t. candidates t (limit_rows (fetch_limit limit) (serves.sorted_rows t since)))
            ts)
        ≡ 0
      → length (unlimited since ts) ≡ 0
  parts_empty since limit [] h = refl
  parts_empty since limit (t ∷ ts) h =
      let h' = rw length-append at h in
      rw length-append (
        omega (
          arith,
          parts_empty since limit ts,
          part_empty t limit (fetch_limit limit) (fetch_limit-cases limit)
              (serves.sorted_rows t since),
        ))

  pub fetched_empty :
      (since limit : ℕ) → length (fetched since limit) ≡ 0 → length (rows_after rows since) ≡ 0
  fetched_empty since limit h =
      omega (arith, parts_empty since limit entity_types h, Perm-length (unlimited_perm since))
