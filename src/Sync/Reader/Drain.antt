-- ===== src/Sync/Reader/Drain.antt =====
-- A client that pulls page after page, each from the watermark of the page before, until a page
-- says that there is no more. The client is not part of the repository: this is the use that
-- `next_watermark` and `has_more` are made for.
use mathlib.Core.List.{filter_map, filter_map-append}
use mathlib.Core.List.Perm
use household_objects_srv.Prelude.{
  ℕ, zero, suc, ◌-◌, ◌≤◌, ◌<◌, ◌≡◌, sym, ap, ◌∙◌, inl, inr, pos, true, false, ◌&&◌, ◌||◌, Option,
  none, some, List, [], ◌∷◌, ◌++◌, Perm, arith, ltb, leb, if◌then◌else◌, Bool-cases, ok, err,
  length, gather, Sorter, All, All-imp, select_none, leb→le, Perm-length, length-append,
  eq-nil_of_length, Perm-select_split,
}
use household_objects_srv.Sync.Types.{EntityType, Row, Candidate, Page, SyncRepository}
use household_objects_srv.Sync.Repository.{Serves}
use household_objects_srv.Sync.Reader.{pull}
use household_objects_srv.Sync.Reader.Window.{
  change_of, tombstone_of, all_rows, rows_after, rows_between, Covers,
}
use household_objects_srv.Sync.Reader.Complete.{pull_complete}

module _ {D : Type 0} where
  -- The pages of a whole session; `none` if a pull fails or the rounds run out.
  pub pull_all :
      Sorter (λ (c : Candidate D). c.change_seq)
      → SyncRepository D
      → ℕ
      → ℕ
      → ℕ
      → Option (List (Page D))
  pull_all go repo limit zero since = none
  pull_all go repo limit (suc rounds) since = elim (pull go (some repo) (pos since) (pos limit)) [
    | err e ↦ none
    | ok page ↦
        let rest = pull_all go repo limit rounds page.next_watermark in
        if page.has_more
        then elim rest [ none ↦ none | some pages ↦ some (page ∷ pages) ]
        else some (page ∷ [])
  ]

module _ {D : Type 0} (rows : EntityType → List (Row D)) where
  -- The session holds each row after `since` once.
  pub record CoversAll (since : ℕ) (pages : List (Page D)) : Type 0 where
    pub changes :
        Perm (gather (λ p. p.changes) pages) (filter_map change_of (rows_after rows since))
    pub tombstones :
        Perm (gather (λ p. p.tombstones) pages) (filter_map tombstone_of (rows_after rows since))

  after_split :
      (since next : ℕ)
      → since ≤ next
      → Perm (rows_after rows since) (rows_between rows since next ++ rows_after rows next)
  after_split since next h = Perm-select_split _ _ _ (all_rows rows) (parts (all_rows rows))
    where
      parts :
          (cs : List (Candidate D))
          → All
              (λ c.
                (ltb since c.change_seq
                  ≡ ((ltb since c.change_seq && leb c.change_seq next) || ltb next c.change_seq))
                × (((ltb since c.change_seq && leb c.change_seq next) && ltb next c.change_seq)
                    ≡ false))
              cs
      parts [] = tt
      parts (c ∷ cs) = ((ground arith, ground arith), parts cs)

  none_after :
      (top next : ℕ)
      → All (λ c. c.change_seq ≤ top) (all_rows rows)
      → top ≤ next
      → rows_after rows next ≡ []
  none_after top next bound h =
      select_none _ (all_rows rows) (All-imp _ _ (all_rows rows) (λ c k. ground arith) bound)

  -- What one page and the pages after it collect, collected together.
  joined :
      {B : Type 0} (f : Candidate D → Option B) (since next : ℕ) (xs ys : List B)
      → since ≤ next
      → Perm xs (filter_map f (rows_between rows since next))
      → Perm ys (filter_map f (rows_after rows next))
      → Perm (xs ++ ys) (filter_map f (rows_after rows since))
  joined f since next xs ys h t u = Perm.trans (Perm.append t u) (
      rw (← filter_map-append f (rows_between rows since next) (rows_after rows next))
        (Perm.symm (Perm.filter_map f (after_split since next h))))

  CoversAll-last :
      (since : ℕ) (page : Page D)
      → Covers rows since page
      → rows_after rows page.next_watermark ≡ []
      → CoversAll since (page ∷ [])
  unfolding filter_map
  CoversAll-last since page c e = record {
    changes =
        joined change_of since page.next_watermark page.changes [] c.forward c.changes
          (rw e (Perm.refl []));
    tombstones =
        joined tombstone_of since page.next_watermark page.tombstones [] c.forward c.tombstones
          (rw e (Perm.refl []));
  }

  CoversAll-cons :
      (since : ℕ) (page : Page D) (pages : List (Page D))
      → Covers rows since page
      → CoversAll page.next_watermark pages
      → CoversAll since (page ∷ pages)
  CoversAll-cons since page pages c d = record {
    changes =
        joined change_of since page.next_watermark page.changes _ c.forward c.changes d.changes;
    tombstones =
        joined tombstone_of since page.next_watermark page.tombstones _ c.forward c.tombstones
          d.tombstones;
  }

module _ {D : Type 0} (rows : EntityType → List (Row D)) (top : ℕ)
    (bound : All (λ c. c.change_seq ≤ top) (all_rows rows)) where
  none_left : (next : ℕ) → ltb 0 (length (rows_after rows next)) ≡ false → rows_after rows next ≡ []
  none_left next e = eq-nil_of_length _ (ground arith)

  -- A page that is not the last moves on, and stays below `top`.
  fewer :
      (since : ℕ) (page : Page D) (rounds : ℕ)
      → Covers rows since page
      → page.has_more ≡ true
      → top - since < suc rounds
      → top - page.next_watermark < rounds
  fewer since page rounds c more fuel =
      let left : 0 < length (rows_after rows page.next_watermark) = ground arith in
      let split =
        Perm-length (after_split rows since page.next_watermark c.forward)
        ∙ length-append (rows_between rows since page.next_watermark)
            (rows_after rows page.next_watermark) in
      let moved = c.progress (omega arith) in
      elim (Bool-cases (leb top page.next_watermark)) [
        | inl e ↦ absurd (
            omega (arith, ap length (none_after rows top page.next_watermark bound (leb→le _ _ e))))
        | inr e ↦ let below : page.next_watermark < top = ground arith in omega arith
      ]

module _ {D : Type 0} (go : Sorter (λ (c : Candidate D). c.change_seq))
    (rows : EntityType → List (Row D)) (repo : SyncRepository D) (serves : Serves rows repo)
    (top limit : ℕ) (bound : All (λ c. c.change_seq ≤ top) (all_rows rows)) where
  -- If no sequence number passes `top`, a session of more rounds than `top - since` ends, and its
  -- pages hold each row after `since` once.
  pub pull_all_complete :
      (rounds since : ℕ)
      → 0 < limit
      → top - since < rounds
      → (pages : List (Page D)) × (pull_all go repo limit rounds since ≡ some pages)
        × CoversAll rows since pages
  unfolding pull_all
  pull_all_complete zero since pos_limit fuel = absurd (omega arith)
  pull_all_complete (suc rounds) since pos_limit fuel =
      let (page, ran, covers, _) = pull_complete go rows repo serves since limit pos_limit in
      rw (ran, pull_all)
        (elim (Bool-cases page.has_more) [
          | inl more ↦
              let (pages, rest, all) =
                pull_all_complete rounds page.next_watermark pos_limit
                  (fewer rows top bound since page rounds covers more fuel) in
              (page ∷ pages, rw (more, rest), CoversAll-cons rows since page pages covers all)
          | inr last ↦ (
            page ∷ [],
            rw last,
            CoversAll-last rows since page covers
                (none_left rows top bound page.next_watermark (sym covers.has_more ∙ last)),
          )
        ])
