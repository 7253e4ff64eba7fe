-- ===== src/Sync/Reader/Single.antt =====
-- `Pull` of server/internal/sync/reader.go where one row is after the watermark.
use mathlib.Core.List.{filter_map}
use household_objects_srv.Prelude.{
  ℕ, ◌+◌, ◌++◌, map, ◌≢◌, refl, gather, All, select-map, select-gather, ◌≤◌, ◌<◌, ◌≡◌, sym, ap, ◌∙◌,
  pos, false, none, some, List, [], ◌∷◌, Perm, arith, ltb, leb, ok, select, Sorter,
}
use household_objects_srv.Sync.Types.{
  item, warranty_block, sold_to_block, purchased_from_block, item_identification, item_custom_field,
  stock_adjustment, location, label, item_label, attachment, EntityType, Row, Candidate, Change,
  Page, SyncRepository,
}
use household_objects_srv.Sync.Repository.{Serves}
use household_objects_srv.Sync.Reader.{pull, candidate, candidates, entity_types}
use household_objects_srv.Sync.Reader.Window.{
  change_of, tombstone_of, rows_after, rows_between, select-rows_after, rows_after-rows_after,
  Covers,
}
use household_objects_srv.Sync.Reader.Complete.{pull_complete}

gather_none {ℓ κ} :
    {A : Type ℓ} {B : Type κ} (f : A → List B) (xs : List A)
    → All (λ x. f x ≡ []) xs
    → gather f xs ≡ []
gather_none f [] h = refl
gather_none f (x ∷ xs) (h, hs) = rw (h, gather_none f xs hs) refl

-- The tables after the first.
abbrev other_types : List EntityType
other_types =
    warranty_block ∷ sold_to_block ∷ purchased_from_block ∷ item_identification ∷ item_custom_field
    ∷ stock_adjustment ∷ location ∷ label ∷ item_label ∷ attachment ∷ []

other_types-differ : All (λ t. t ≢ item) other_types
other_types-differ = ground arith

module _ {D : Type 0} (rows : EntityType → List (Row D)) (since : ℕ) where
  abbrev pub table_after : EntityType → List (Row D)
  table_after t = select (λ r. ltb since r.change_seq) (rows t)

  candidates_after : EntityType → List (Candidate D)
  candidates_after t = select (λ c. ltb since c.change_seq) (candidates t (rows t))

  candidates_after-eq : (t : EntityType) → candidates_after t ≡ map (candidate t) (table_after t)
  unfolding candidates_after
  candidates_after-eq t = select-map _ (candidate t) (rows t)

  candidates_after-none : (t : EntityType) → table_after t ≡ [] → candidates_after t ≡ []
  candidates_after-none t h = candidates_after-eq t ∙ ap (map (candidate t)) h

  others_after-none :
      ((t : EntityType) → t ≢ item → table_after t ≡ [])
      → (xs : List EntityType) → All (λ t. t ≢ item) xs
      → All (λ t. candidates_after t ≡ []) xs
  others_after-none h [] others = tt
  others_after-none h (t ∷ xs) (other, others) =
      (candidates_after-none t (h t other), others_after-none h xs others)

  pub rows_after-item :
      (row : Row D)
      → table_after item ≡ row ∷ []
      → ((t : EntityType) → t ≢ item → table_after t ≡ [])
      → rows_after rows since ≡ candidate item row ∷ []
  unfolding candidates_after
  rows_after-item row one quiet =
      let items = candidates_after-eq item ∙ ap (map (candidate item)) one in
      let others =
        gather_none candidates_after other_types
          (others_after-none quiet other_types other_types-differ) in
      select-gather (λ (c : Candidate D). ltb since c.change_seq) (λ t. candidates t (rows t))
        entity_types
      ∙ ap (λ (l : List (Candidate D)). l ++ gather candidates_after other_types) items
      ∙ ap (λ (l : List (Candidate D)). candidate item row ∷ l) others

module _ {D : Type 0} where
  abbrev pub entry : Candidate D → Change D
  entry c = record {
    entity_type = c.entity_type;
    id = c.id;
    group_change_seq = c.change_seq;
    content = c.content;
  }

  pub live_change :
      (c : Candidate D) → c.deleted_at ≡ none → filter_map change_of (c ∷ []) ≡ entry c ∷ []
  unfolding filter_map
  live_change c lives = rw lives refl

  pub live_tombstone :
      (c : Candidate D) → c.deleted_at ≡ none → filter_map tombstone_of (c ∷ []) ≡ []
  unfolding filter_map
  live_tombstone c lives = rw lives refl

  -- A page with one row in it, and nothing beyond.
  pub record Only (page : Page D) (c : Candidate D) : Type 0 where
    pub changes : Perm page.changes (filter_map change_of (c ∷ []))
    pub tombstones : Perm page.tombstones (filter_map tombstone_of (c ∷ []))
    pub has_more : page.has_more ≡ false
    pub reached : c.change_seq ≤ page.next_watermark

  module _ (rows : EntityType → List (Row D)) where
    Covers-Only :
        (since : ℕ) (page : Page D) (c : Candidate D)
        → rows_after rows since ≡ c ∷ []
        → c.change_seq ≤ page.next_watermark
        → Covers rows since page
        → Only page c
    Covers-Only since page c one reached covers =
        let window : rows_between rows since page.next_watermark ≡ c ∷ [] =
          sym (select-rows_after rows since page.next_watermark)
          ∙ ap (select (λ x. leb x.change_seq page.next_watermark)) one
          ∙ ground arith in
        let beyond : rows_after rows page.next_watermark ≡ [] =
          sym (rows_after-rows_after rows since page.next_watermark covers.forward)
          ∙ ap (select (λ x. ltb page.next_watermark x.change_seq)) one
          ∙ ground arith in
        record {
          changes = rw window at covers.changes;
          tombstones = rw window at covers.tombstones;
          has_more = rw beyond at covers.has_more;
          reached = reached;
        }

    pub pull-Only :
        (go : Sorter (λ (c : Candidate D). c.change_seq)) (repo : SyncRepository D)
        → Serves rows repo
        → (since limit : ℕ) (c : Candidate D) → 0 < limit
        → rows_after rows since ≡ c ∷ []
        → c.change_seq ≡ since + 1
        → (page : Page D) × (pull go (some repo) (pos since) (pos limit) ≡ ok page) × Only page c
    pull-Only go repo serves since limit c h one next =
        let (page, run, covers, size) = pull_complete go rows repo serves since limit h in
        let moved : since < page.next_watermark = covers.progress (rw one (omega arith)) in
        (page, run, Covers-Only since page c one (omega arith) covers)
